-- ===== src/Deals/Db.antt =====
-- The deal tables as the state of a session, and what the services share: the query for a deal of
-- a tenant, the write of a changed deal, and the audit rows. What a service raises leaves the
-- session as it was at the raise; the transaction around it is in `Prelude.Exec`.
use deal_screening_agent.Prelude.{◌==◌, first, update, ℕ, Bool, ◌&&◌, Option, List, [], ◌∷◌, ◌++◌}
use deal_screening_agent.Models.Enums.{DealStatus}
use deal_screening_agent.Models.Deal.{
  Deal, ExtractedField, DealScore, DealDecision, Action, ActorType, DealAuditLog,
}
use deal_screening_agent.Models.Criteria.{CriteriaConfig}
use deal_screening_agent.Models.Job.{BackgroundJob}

-- the payload of an extraction job: ExtractionJob of handlers.py
pub record ExtractionJob : Type 0 where
  pub deal_id : ℕ
  pub tenant_id : ℕ

pub record Db (F : Type 0) : Type 0 where
  pub deals : List Deal
  pub fields : List ExtractedField
  pub scores : List (DealScore F)
  pub decisions : List DealDecision
  pub audits : List DealAuditLog
  pub configs : List (CriteriaConfig F)
  pub jobs : List (BackgroundJob ExtractionJob)

-- What the services and routes raise.
pub data DealError : Type 0 where
  deal_not_found wrong_status json_decode_error unhandled_error : DealError
  invalid_file_type invalid_content_type file_too_large file_empty : DealError
  enqueue_failed : DealError
  http_error : ℕ → DealError

-- WHERE id = … AND tenant_id = …
abbrev pub is_deal : ℕ → ℕ → Deal → Bool
is_deal deal_id tenant_id d = d.id == deal_id && d.tenant_id == tenant_id

abbrev pub with_status : DealStatus → Deal → Deal
with_status status deal = record deal { status = status }

-- A row of the audit log about a change from one status to another.
abbrev pub audit_row :
    Deal → ActorType → Option ℕ → Action → Option DealStatus → Option DealStatus → DealAuditLog
audit_row deal actor_type actor_id action before after = record {
  deal_id = deal.id;
  tenant_id = deal.tenant_id;
  actor_type = actor_type;
  actor_id = actor_id;
  action = action;
  before_state = before;
  after_state = after;
}

module _ {F : Type 0} where
  -- The row of a deal object that was changed.
  abbrev pub save_deal : Deal → Db F → Db F
  save_deal deal db = record db { deals = update (λ d. d.id == deal.id) (λ _. deal) db.deals }

  -- `db.add(audit)`
  abbrev pub add_audit : DealAuditLog → Db F → Db F
  add_audit row db = record db { audits = db.audits ++ row ∷ [] }

  abbrev pub find_deal : ℕ → ℕ → Db F → Option Deal
  find_deal deal_id tenant_id db = first (is_deal deal_id tenant_id) db.deals
