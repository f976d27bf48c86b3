-- ===== src/Models/Enums.antt =====
-- src/app/models/enums.py, and the job states of src/app/background_jobs/types.py. The members
-- of two enumerations are compared by their position.
use deal_screening_agent.Prelude.{
  ◌==◌, if◌then◌else◌, any, ℕ, String, Bool, true, false, List, [], ◌∷◌,
}
use deal_screening_agent.Prelude.Exec.{Result, ok, err}

pub data DealStatus : Type 0 where
  uploaded extracted failed scored decided archived : DealStatus

abbrev pub status_index : DealStatus → ℕ
status_index uploaded = 0
status_index extracted = 1
status_index failed = 2
status_index scored = 3
status_index decided = 4
status_index archived = 5

abbrev pub is_status : DealStatus → DealStatus → Bool
is_status a b = status_index a == status_index b

-- VALID_STATE_TRANSITIONS
unfoldable pub valid_state_transitions : DealStatus → List DealStatus
valid_state_transitions uploaded = extracted ∷ failed ∷ []
valid_state_transitions extracted = scored ∷ []
valid_state_transitions failed = uploaded ∷ []
valid_state_transitions scored = decided ∷ []
valid_state_transitions decided = archived ∷ []
valid_state_transitions archived = []

pub record InvalidStateTransition : Type 0 where
  pub from_status : DealStatus
  pub to_status : DealStatus

unfoldable pub validate_transition : DealStatus → DealStatus → Result InvalidStateTransition Unit
unfolding valid_state_transitions
validate_transition from_status to_status =
    if any (is_status to_status) (valid_state_transitions from_status)
    then ok tt
    else err (record { from_status = from_status; to_status = to_status })

pub data DecisionType : Type 0 where
  passed pursuing : DecisionType

pub data FieldExtractionStatus : Type 0 where
  found inferred missing : FieldExtractionStatus

abbrev pub is_missing : FieldExtractionStatus → Bool
is_missing missing = true
is_missing _ = false

pub data ConfidenceLevel : Type 0 where
  high medium low none_level : ConfidenceLevel

abbrev pub is_high : ConfidenceLevel → Bool
is_high high = true
is_high _ = false

abbrev pub is_medium : ConfidenceLevel → Bool
is_medium medium = true
is_medium _ = false

pub data CriterionType : Type 0 where
  must_have nice_to_have dealbreaker : CriterionType

abbrev pub is_dealbreaker : CriterionType → Bool
is_dealbreaker dealbreaker = true
is_dealbreaker _ = false

abbrev pub core_extraction_fields : List String
core_extraction_fields =
    "sector" ∷ "revenue" ∷ "ebitda" ∷ "geography" ∷ "ask_price" ∷ "deal_type" ∷ []

abbrev pub min_fields_for_extraction : ℕ
min_fields_for_extraction = 3

-- The job states; FAILED is declared and never written.
pub data JobState : Type 0 where
  pending claimed running succeeded failed_job dead_lettered : JobState

abbrev pub is_pending : JobState → Bool
is_pending pending = true
is_pending _ = false

-- `state IN (CLAIMED, RUNNING)`
abbrev pub is_held : JobState → Bool
is_held claimed = true
is_held running = true
is_held _ = false

abbrev pub is_succeeded : JobState → Bool
is_succeeded succeeded = true
is_succeeded _ = false

abbrev pub is_dead_lettered : JobState → Bool
is_dead_lettered dead_lettered = true
is_dead_lettered _ = false

-- TERMINAL_STATES
abbrev pub is_terminal : JobState → Bool
is_terminal succeeded = true
is_terminal dead_lettered = true
is_terminal _ = false
