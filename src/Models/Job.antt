-- ===== src/Models/Job.antt =====
-- src/app/background_jobs/models.py: the rows of the job queue. Texts that are parsed or shown
-- are strings; a worker's name and a job's id are only compared.
use deal_screening_agent.Prelude.{ℕ, String, Option}
use deal_screening_agent.Models.Enums.{JobState}

pub record BackgroundJob (P : Type 0) : Type 0 where
  pub job_id : ℕ
  pub job_type : String
  pub payload : P
  pub state : JobState
  pub attempts : ℕ
  pub max_attempts : ℕ
  pub not_before : ℕ
  pub claimed_by : Option ℕ
  pub claim_expires_at : Option ℕ
  pub idempotency_key : Option String
  pub trace_context : Option String
  pub last_error : Option String
  pub tenant_id : Option String
  pub succeeded_at : Option ℕ
  pub dead_lettered_at : Option ℕ
