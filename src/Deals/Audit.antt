-- ===== src/Deals/Audit.antt =====
-- The audit trail: the last row of a deal tells its status, and which changes of status occur.
pub mod Scoring
pub mod Operations
pub mod Lifecycle
use deal_screening_agent.Prelude.{
  ◌==◌, if◌then◌else◌, is_some, Bool-cases, update, All, All-append, All-map, ℕ, ◌≡◌, ◌∙◌, inl, inr,
  Bool, true, false, Option, none, some, List, [], ◌∷◌, ◌++◌, arith,
}
use deal_screening_agent.Models.Enums.{DealStatus, uploaded, extracted, failed, scored, decided}
use deal_screening_agent.Models.Deal.{Deal, DealAuditLog}
use deal_screening_agent.Deals.Db.{Db}

-- the status that the last audit row of a deal records
unfoldable pub last_status : ℕ → List DealAuditLog → Option DealStatus
last_status id [] = none
last_status id (a ∷ rows) =
    let rest = last_status id rows in
    if is_some rest then rest else if a.deal_id == id then a.after_state else none

abbrev pub Audited : List Deal → List DealAuditLog → Type 0
Audited deals audits = All (λ d. last_status d.id audits ≡ some d.status) deals

-- the same, but for the deals of one id
abbrev AuditedExcept : ℕ → List Deal → List DealAuditLog → Type 0
AuditedExcept k deals audits =
    All (λ d. (d.id == k) ≡ false → last_status d.id audits ≡ some d.status) deals

last_status-append_other :
    (id : ℕ) (rows : List DealAuditLog) (a : DealAuditLog)
    → (a.deal_id == id) ≡ false
    → last_status id (rows ++ a ∷ []) ≡ last_status id rows
unfolding last_status
last_status-append_other id [] a h = ground arith
last_status-append_other id (b ∷ rows) a h = ground (arith, last_status-append_other id rows a h)

last_status-append :
    (id : ℕ) (s : DealStatus) (rows : List DealAuditLog) (a : DealAuditLog)
    → a.deal_id ≡ id
    → a.after_state ≡ some s
    → last_status id (rows ++ a ∷ []) ≡ some s
unfolding last_status
last_status-append id s [] a h e = ground arith
last_status-append id s (b ∷ rows) a h e = ground (arith, last_status-append id s rows a h e)

pub except :
    (k : ℕ) (deals : List Deal) (audits : List DealAuditLog)
    → Audited deals audits
    → AuditedExcept k deals audits
except k deals audits = All-map (λ d h _. h) deals

not_equal : (a b : ℕ) → (a == b) ≡ false → (b == a) ≡ false
not_equal a b h = ground arith

pub except-append :
    (k : ℕ) (deals : List Deal) (audits : List DealAuditLog) (a : DealAuditLog)
    → a.deal_id ≡ k
    → AuditedExcept k deals audits
    → AuditedExcept k deals (audits ++ a ∷ [])
except-append k deals audits a e =
    All-map (λ d h n. last_status-append_other d.id audits a (rw e (not_equal d.id k n)) ∙ h n)
      deals

-- A deal is saved and its new status is recorded.
pub save-Audited :
    (deal : Deal) (deals : List Deal) (audits : List DealAuditLog) (a : DealAuditLog)
    → a.deal_id ≡ deal.id
    → a.after_state ≡ some deal.status
    → AuditedExcept deal.id deals audits
    → Audited (update (λ d. d.id == deal.id) (λ _. deal) deals) (audits ++ a ∷ [])
save-Audited deal [] audits a e s h = tt
save-Audited deal (d ∷ deals) audits a e s h = elim (Bool-cases (d.id == deal.id)) [
  | inl k ↦ rw k (
    last_status-append deal.id deal.status audits a e s,
    save-Audited deal deals audits a e s h.1,
  )
  | inr k ↦ rw k (
    last_status-append_other d.id audits a (rw e (not_equal d.id deal.id k)) ∙ h.0 k,
    save-Audited deal deals audits a e s h.1,
  )
]

-- A new deal with an id of its own, and its first row.
pub add-Audited :
    (deal : Deal) (deals : List Deal) (audits : List DealAuditLog) (a : DealAuditLog)
    → a.deal_id ≡ deal.id
    → a.after_state ≡ some deal.status
    → All (λ d. (d.id == deal.id) ≡ false) deals
    → Audited deals audits
    → Audited (deals ++ deal ∷ []) (audits ++ a ∷ [])
add-Audited deal deals audits a e s n h =
    All-append (λ d. last_status d.id (audits ++ a ∷ []) ≡ some d.status) deals (deal ∷ [])
      (kept deals n h) (last_status-append deal.id deal.status audits a e s, tt)
  where
    kept :
        (ds : List Deal)
        → All (λ d. (d.id == deal.id) ≡ false) ds
        → Audited ds audits
        → Audited ds (audits ++ a ∷ [])
    kept [] n h = tt
    kept (d ∷ ds) n h = (
      last_status-append_other d.id audits a (rw e (not_equal d.id deal.id n.0)) ∙ h.0,
      kept ds n.1 h.1,
    )

-- The changes of status that an audit row may record: the first row of a deal, the start of an
-- extraction, and the moves of the services.
abbrev pub records_move : Option DealStatus → Option DealStatus → Bool
records_move none (some uploaded) = true
records_move (some uploaded) (some uploaded) = true
records_move (some uploaded) (some extracted) = true
records_move (some uploaded) (some failed) = true
records_move (some failed) (some failed) = true
records_move (some failed) (some extracted) = true
records_move (some extracted) (some scored) = true
records_move (some scored) (some decided) = true
records_move _ _ = false

abbrev pub Moves : List DealAuditLog → Type 0
Moves = All (λ a. records_move a.before_state a.after_state ≡ true)

-- What the services keep: the audit trail agrees with the deals, and records only such moves.
pub record IsAudited {F : Type 0} (db : Db F) : Type 0 where
  pub agrees : Audited db.deals db.audits
  pub moves : Moves db.audits
