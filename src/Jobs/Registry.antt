-- ===== src/Jobs/Registry.antt =====
-- src/app/background_jobs/registry.py and types.py: the registered handlers, and the exceptions.
-- A payload is of a type P that the registered schemas validate.
use deal_screening_agent.Prelude.{
  if◌then◌else◌, is_some, ℕ, String, ◌≡◌, refl, Bool, true, false, Option, none, some, List, [],
  ◌∷◌, arith, str_eq, str_eq_iff,
}
use deal_screening_agent.Prelude.Exec.{Result, ok, err}

-- The exceptions of types.py that the queue and the handlers raise, and any other exception.
pub data JobError : Type 0 where
  unknown_job_type schema_violation tenant_mismatch permanent_auth_failure : JobError
  other_error : String → JobError

-- `isinstance(exc, NON_RETRYABLE_EXCEPTIONS)`
abbrev pub is_non_retryable : JobError → Bool
is_non_retryable (other_error _) = false
is_non_retryable _ = true

-- What is known of a job type: `schema.model_validate` as a test, and the attempts it may take. The
-- handler itself is not stored: what it does in a run is given with the run.
pub record HandlerRegistration (P : Type 0) : Type 0 where
  pub validates : P → Bool
  pub max_attempts : ℕ

-- `_registry`, a dict in insertion order.
abbrev pub Registry : Type 0 → Type 0
Registry P = List (String × HandlerRegistration P)

module _ {P : Type 0} where
  unfoldable pub lookup : String → Registry P → Option (HandlerRegistration P)
  lookup job_type [] = none
  lookup job_type ((t, reg) ∷ rest) = if str_eq t job_type then some reg else lookup job_type rest

  -- the decorator of `register`
  unfoldable pub register : String → HandlerRegistration P → Registry P → Registry P
  register job_type reg [] = (job_type, reg) ∷ []
  register job_type reg ((t, r) ∷ rest) =
      if str_eq t job_type then (t, reg) ∷ rest else (t, r) ∷ register job_type reg rest

  abbrev found_handler : Option (HandlerRegistration P) → Result JobError (HandlerRegistration P)
  found_handler none = err unknown_job_type
  found_handler (some reg) = ok reg

  unfoldable pub get_handler : String → Registry P → Result JobError (HandlerRegistration P)
  unfolding lookup
  get_handler job_type registry = found_handler (lookup job_type registry)

  unfoldable pub is_registered : String → Registry P → Bool
  unfolding lookup
  is_registered job_type registry = is_some (lookup job_type registry)

  -- After a registration the type has the new handler, and every other type the one it had.
  pub lookup-register :
      (t u : String) (reg : HandlerRegistration P) (registry : Registry P)
      → lookup u (register t reg registry) ≡ (if str_eq t u then some reg else lookup u registry)
  unfolding lookup register
  lookup-register t u reg [] = refl
  lookup-register t u reg ((s, r) ∷ rest) =
      ground (arith, str_eq_iff t u, str_eq_iff s t, str_eq_iff s u, lookup-register t u reg rest)
