-- ===== src/Validation/Requests.antt =====
-- src/app/input_validation/middleware.py: what is refused before a route runs.
use deal_screening_agent.Prelude.{
  ltb, if◌then◌else◌, or_default, any, ℕ, ◌+◌, ◌*◌, String, Bool, not, ◌&&◌, Option, none, some,
  List, [], ◌∷◌, str_eq,
}
use deal_screening_agent.Validation.Files.{max_content_bytes}

-- What the middleware reads of a request. The headers are none where they are absent.
pub record Request : Type 0 where
  pub path : String
  pub authorization : Option String
  pub content_length : Option String

pub data Reply : Type 0 where
  unauthorized : Reply
  too_large : Reply
  passed_on : Reply

-- What the code uses of Python's strings: `str.startswith`, and `int` of a text, as the number that
-- it is, none for a ValueError, and zero for a negative one, which no limit refuses either.
pub record Strings : Type 0 where
  pub starts : String → String → Bool
  pub int : String → Option ℕ

abbrev pub max_body_bytes : ℕ
max_body_bytes = max_content_bytes + 1024 * 1024

abbrev pub upload_paths : List String
upload_paths = "/api/v1/deals/upload" ∷ []

abbrev pub exempt_paths_prefixes : List String
exempt_paths_prefixes = "/health" ∷ "/ready" ∷ "/metrics" ∷ []

module _ (str : Strings) (auth_required_prefixes : List String) where
  -- `path.startswith(prefixes)`
  abbrev pub starts_any : List String → String → Bool
  starts_any prefixes s = any (λ prefix. str.starts prefix s) prefixes

  abbrev pub limit_for : String → ℕ
  limit_for path = if any (str_eq path) upload_paths then max_body_bytes else 1024 * 1024

  abbrev pub declared_size : String → ℕ
  declared_size content_length = or_default (str.int content_length) 0

  abbrev pub check_length : String → Option String → Reply
  check_length path none = passed_on
  check_length path (some content_length) =
      if ltb (limit_for path) (declared_size content_length) then too_large else passed_on

  unfoldable pub dispatch : Request → Reply
  dispatch request =
      if starts_any exempt_paths_prefixes request.path
      then passed_on
      else if starts_any auth_required_prefixes request.path
          && not (str.starts "Bearer " (or_default request.authorization ""))
      then unauthorized
      else check_length request.path request.content_length
