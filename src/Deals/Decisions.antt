-- ===== src/Deals/Decisions.antt =====
-- src/app/api/deals.py: the decision on a deal, the card of a deal, and their queries.
use deal_screening_agent.Prelude.{
  ◌==◌, if◌then◌else◌, is_some, select, latest, ℕ, String, Option, none, some, List, [], ◌∷◌, ◌++◌,
}
use deal_screening_agent.Prelude.Exec.{Result, ok, err, Exec}
use deal_screening_agent.Models.Enums.{
  DealStatus, scored, decided, is_status, DecisionType, ConfidenceLevel,
}
use deal_screening_agent.Models.Deal.{
  Deal, ExtractedField, Line, DealScore, DealDecision, decision_made, user,
}
use deal_screening_agent.Deals.Db.{
  Db, DealError, http_error, with_status, audit_row, save_deal, add_audit, find_deal,
}
use deal_screening_agent.Deals.Scores.{latest_fields}

pub record DealDecisionRequest : Type 0 where
  pub decision : DecisionType
  pub notes : Option String

pub record DecisionResponse : Type 0 where
  pub deal_id : ℕ
  pub decision : DecisionType
  pub status : DealStatus

-- ExtractedFieldSchema is the row itself here.
pub record DealCard : Type 0 where
  pub id : ℕ
  pub filename : String
  pub status : DealStatus
  pub source_channel : String
  pub created_at : ℕ
  pub extracted_fields : Option (List ExtractedField)
  pub extraction_confidence : Option ConfidenceLevel
  pub score : Option ℕ
  pub score_confidence : Option ConfidenceLevel
  pub rationale : Option (List Line)
  pub decision : Option DecisionType
  pub decision_notes : Option String
  pub decided_at : Option ℕ

abbrev map_opt : {A B : Type 0} → (A → B) → Option A → Option B
map_opt f none = none
map_opt f (some a) = some (f a)

abbrev and_then : {A B : Type 0} → (A → Option B) → Option A → Option B
and_then f none = none
and_then f (some a) = f a

-- the overall confidence of the first field that has it
unfoldable pub first_confidence : List ExtractedField → Option ConfidenceLevel
first_confidence [] = none
first_confidence (f ∷ fs) =
    if is_some f.overall_confidence then f.overall_confidence else first_confidence fs

abbrev or_none : List ExtractedField → Option (List ExtractedField)
or_none [] = none
or_none (f ∷ fs) = some (f ∷ fs)

unfoldable pub get_latest_decision : ℕ → List DealDecision → Option DealDecision
get_latest_decision deal_id decisions =
    latest (λ d. d.created_at) (select (λ d. d.deal_id == deal_id) decisions)

module _ {F : Type 0} where
  abbrev found_or_404 : Option Deal → Exec (Db F) DealError Deal
  found_or_404 none db = (err (http_error 404), db)
  found_or_404 (some deal) db = (ok deal, db)

  unfoldable pub get_deal_or_404 : ℕ → ℕ → Exec (Db F) DealError Deal
  get_deal_or_404 deal_id tenant_id db = found_or_404 (find_deal deal_id tenant_id db) db

  unfoldable pub get_latest_score : ℕ → List (DealScore F) → Option (DealScore F)
  get_latest_score deal_id scores =
      latest (λ s. s.created_at) (select (λ s. s.deal_id == deal_id) scores)

  unfoldable pub build_deal_card : Deal → Db F → DealCard
  unfolding latest_fields first_confidence get_latest_score get_latest_decision
  build_deal_card deal db =
      let fields = latest_fields deal.id db.fields in
      let latest_score = get_latest_score deal.id db.scores in
      let latest_decision = get_latest_decision deal.id db.decisions in
      record {
        id = deal.id;
        filename = deal.filename;
        status = deal.status;
        source_channel = deal.source_channel;
        created_at = deal.created_at;
        extracted_fields = or_none fields;
        extraction_confidence = first_confidence fields;
        score = map_opt (λ s. s.score) latest_score;
        score_confidence = map_opt (λ s. s.confidence) latest_score;
        rationale = map_opt (λ s. s.rationale) latest_score;
        decision = map_opt (λ d. d.decision) latest_decision;
        decision_notes = and_then (λ d. d.notes) latest_decision;
        decided_at = map_opt (λ d. d.created_at) latest_decision;
      }

  abbrev card_loaded : Result DealError Deal × Db F → Result DealError DealCard × Db F
  card_loaded (err e, db) = (err e, db)
  card_loaded (ok deal, db) = (ok (build_deal_card deal db), db)

  unfoldable pub get_deal : ℕ → ℕ → Exec (Db F) DealError DealCard
  unfolding get_deal_or_404
  get_deal deal_id tenant_id db = card_loaded (get_deal_or_404 deal_id tenant_id db)

  abbrev pub decision_row : ℕ → ℕ → Deal → DealDecisionRequest → Option (DealScore F) → DealDecision
  decision_row now user_id deal body latest_score = record {
    deal_id = deal.id;
    user_id = user_id;
    decision = body.decision;
    notes = body.notes;
    score_id = map_opt (λ s. s.id) latest_score;
    created_at = now;
  }

  -- the decision, the status and the audit row
  unfoldable pub persist_decision : ℕ → ℕ → Deal → DealDecisionRequest → Db F → Db F
  unfolding get_latest_score
  persist_decision now user_id deal body db =
      add_audit (audit_row deal user (some user_id) decision_made (some deal.status) (some decided))
        (save_deal (with_status decided deal) (record db {
          decisions =
              db.decisions
              ++ decision_row now user_id deal body (get_latest_score deal.id db.scores) ∷ [];
        }))

  abbrev decide_loaded :
      ℕ
      → ℕ
      → DealDecisionRequest
      → Result DealError Deal × Db F
      → Result DealError DecisionResponse × Db F
  decide_loaded now user_id body (err e, db) = (err e, db)
  decide_loaded now user_id body (ok deal, db) =
      if is_status deal.status scored
      then (
        ok (record { deal_id = deal.id; decision = body.decision; status = decided }),
        persist_decision now user_id deal body db,
      )
      else (err (http_error 400), db)

  unfoldable pub decide_deal :
      ℕ → ℕ → ℕ → ℕ → DealDecisionRequest → Exec (Db F) DealError DecisionResponse
  unfolding get_deal_or_404 persist_decision
  decide_deal now user_id deal_id tenant_id body db =
      decide_loaded now user_id body (get_deal_or_404 deal_id tenant_id db)
