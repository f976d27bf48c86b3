-- ===== src/Deals/Ingestion/Duplicates.antt =====
-- One deal for each content of a tenant.
use deal_screening_agent.Prelude.{
  if◌then◌else◌, is_some, ==_refl, Bool-cases, Option-cases, first, count, count-append,
  first-append, ℕ, ◌≤◌, String, ◌≡◌, refl, ◌∙◌, subst, inl, inr, Bool, Option, none, some, List, [],
  ◌∷◌, ◌++◌, arith,
}
use deal_screening_agent.Prelude.Exec.{Result, ok, err}
use deal_screening_agent.Models.Job.{BackgroundJob}
use deal_screening_agent.Models.Deal.{Deal}
use deal_screening_agent.Jobs.Registry.{JobError, Registry}
use deal_screening_agent.Deals.Db.{ExtractionJob, Db, DealError}
use deal_screening_agent.Deals.Ingestion.{
  Files, duplicate_result, validate_upload, has_content, new_deal, add_deal, queued, store_deal,
  check_duplicate, ingest_checked, ingest_deal,
}

count-first-none : {A : Type 0} (p : A → Bool) (xs : List A) → first p xs ≡ none → count p xs ≡ 0
count-first-none p [] e = refl
count-first-none p (x ∷ xs) e = elim (Bool-cases (p x)) [
  | inl h ↦ absurd (ground arith)
  | inr h ↦ rw (h, count-first-none p xs (ground arith)) refl
]

module _ {C : Type 0} (fs : Files C) where
  count-new :
      (tenant_id content_hash : ℕ) (deal : Deal) (deals : List Deal)
      → first (has_content fs deal.tenant_id deal.content_hash) deals ≡ none
      → count (has_content fs tenant_id content_hash) deals ≤ 1
      → count (has_content fs tenant_id content_hash) (deals ++ deal ∷ []) ≤ 1
  count-new tenant_id content_hash deal deals e n =
      elim (Bool-cases (has_content fs tenant_id content_hash deal)) [
        | inl h ↦
            let t : deal.tenant_id ≡ tenant_id = ground arith in
            let c : deal.content_hash ≡ content_hash = ground arith in
            let z : count (has_content fs tenant_id content_hash) deals ≡ 0 =
              count-first-none (has_content fs tenant_id content_hash) deals (
                subst (λ a. first (has_content fs a content_hash) deals ≡ none) t
                  (subst (λ a. first (has_content fs deal.tenant_id a) deals ≡ none) c e)) in
            rw (count-append (has_content fs tenant_id content_hash) deals (deal ∷ []), z, h)
              (omega arith)
        | inr h ↦
            rw (count-append (has_content fs tenant_id content_hash) deals (deal ∷ []), h)
              (omega (arith, n))
      ]

module _ {C : Type 0} (fs : Files C) {F : Type 0} (registry : Registry ExtractionJob) where
  queued-deals :
      (deal : Deal) (db : Db F) (r : Result JobError ℕ × List (BackgroundJob ExtractionJob))
      → (queued fs deal db r).1.deals ≡ db.deals
  queued-deals deal db (err e, jobs) = refl
  queued-deals deal db (ok id, jobs) = refl

  store_deal-deals :
      (job_id : ℕ) (deal : Deal) (db : Db F)
      → (store_deal fs registry job_id deal db).1.deals ≡ db.deals ++ deal ∷ []
  unfolding store_deal add_deal
  store_deal-deals job_id deal db = queued-deals deal (add_deal fs deal db) _

  -- Whatever is uploaded, valid or not, a tenant keeps at most one deal for each content: if that
  -- held of a tenant and a hash before the upload, it holds after it.
  pub ingest_deal-once :
      (deal_id job_id now tenant_id : ℕ) (filename : String) (content : C)
      (content_type : Option String) (source_channel : String) (source_sender : Option String)
      (db : Db F) (any_tenant any_hash : ℕ)
      → count (has_content fs any_tenant any_hash) db.deals ≤ 1
      → count
          (has_content fs any_tenant any_hash)
          (ingest_deal fs registry deal_id job_id now tenant_id filename content content_type
            source_channel source_sender db).1.deals
        ≤ 1
  unfolding ingest_deal check_duplicate
  ingest_deal-once deal_id job_id now tenant_id filename content content_type source_channel
        source_sender db any_tenant any_hash n =
      go (validate_upload fs filename content_type content)
    where
      deal : Deal
      deal = new_deal fs deal_id now tenant_id filename content source_channel source_sender

      go :
          (v : Option DealError)
          → count
              (has_content fs any_tenant any_hash)
              (ingest_checked fs v
                (check_duplicate fs tenant_id (fs.sha256 content) db)
                registry
                job_id
                deal
                db).1.deals
            ≤ 1
      go (some e) = n
      go none = elim (Option-cases (check_duplicate fs tenant_id (fs.sha256 content) db)) [
        | inr (d, e) ↦ rw e n
        | inl e ↦
            rw (e, store_deal-deals job_id deal db)
              (count-new fs any_tenant any_hash deal db.deals e n)
      ]

  ingest_deal-duplicate :
      (deal_id job_id now tenant_id : ℕ) (filename : String) (content : C)
      (content_type : Option String) (source_channel : String) (source_sender : Option String)
      (db : Db F) (d : Deal)
      → validate_upload fs filename content_type content ≡ none
      → check_duplicate fs tenant_id (fs.sha256 content) db ≡ some d
      → ingest_deal fs registry deal_id job_id now tenant_id filename content content_type
          source_channel source_sender db
        ≡ (ok (duplicate_result d), db)
  unfolding ingest_deal
  ingest_deal-duplicate deal_id job_id now tenant_id filename content content_type source_channel
        source_sender db d v e =
      rw (v, e) refl

  ingest_deal-stored :
      (deal_id job_id now tenant_id : ℕ) (filename : String) (content : C)
      (content_type : Option String) (source_channel : String) (source_sender : Option String)
      (db : Db F)
      → validate_upload fs filename content_type content ≡ none
      → check_duplicate fs tenant_id (fs.sha256 content) db ≡ none
      → (ingest_deal fs registry deal_id job_id now tenant_id filename content content_type
          source_channel source_sender db).1.deals
        ≡ db.deals
          ++ new_deal fs deal_id now tenant_id filename content source_channel source_sender ∷ []
  unfolding ingest_deal
  ingest_deal-stored deal_id job_id now tenant_id filename content content_type source_channel
        source_sender db v e =
      rw (v, e)
        (store_deal-deals job_id
          (new_deal fs deal_id now tenant_id filename content source_channel source_sender) db)

  -- After a valid upload of content that the tenant had not uploaded before, a second valid upload
  -- of that content is answered with the first deal, marked as a duplicate, and changes nothing.
  pub ingest_deal-again :
      (deal_id deal_id' job_id job_id' now now' tenant_id : ℕ) (filename filename' : String)
      (content : C) (content_type content_type' : Option String) (source_channel : String)
      (source_sender : Option String) (db : Db F)
      → validate_upload fs filename content_type content ≡ none
      → validate_upload fs filename' content_type' content ≡ none
      → check_duplicate fs tenant_id (fs.sha256 content) db ≡ none
      → ingest_deal fs registry deal_id' job_id' now' tenant_id filename' content content_type'
          source_channel source_sender
          (ingest_deal fs registry deal_id job_id now tenant_id filename content content_type
            source_channel source_sender db).1
        ≡ (
          ok (
              duplicate_result
                (new_deal fs deal_id now tenant_id filename content source_channel source_sender)),
          (ingest_deal fs registry deal_id job_id now tenant_id filename content content_type
              source_channel source_sender db).1,
        )
  unfolding check_duplicate
  ingest_deal-again deal_id deal_id' job_id job_id' now now' tenant_id filename filename' content
        content_type content_type' source_channel source_sender db v v' e =
      ingest_deal-duplicate deal_id' job_id' now' tenant_id filename' content content_type'
        source_channel source_sender _ deal v'
        (rw
          (ingest_deal-stored deal_id job_id now tenant_id filename content content_type
            source_channel source_sender db v e)
          (first-append (has_content fs tenant_id (fs.sha256 content)) db.deals deal ∙ chosen))
    where
      deal : Deal
      deal = new_deal fs deal_id now tenant_id filename content source_channel source_sender

      chosen :
          (if is_some (first (has_content fs tenant_id (fs.sha256 content)) db.deals)
            then first (has_content fs tenant_id (fs.sha256 content)) db.deals
            else if has_content fs tenant_id (fs.sha256 content) deal
            then some deal
            else none)
          ≡ some deal
      chosen = rw (e, ==_refl tenant_id, ==_refl (fs.sha256 content)) refl
