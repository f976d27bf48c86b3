-- ===== src/Pipeline/Llm.antt =====
-- src/app/services/llm_client.py and extraction_prompt.py. The client of the model is a parameter:
-- what each call of it returns or raises, after whatever retries of its own the client library makes.
pub mod Entries
pub mod Validated
pub mod Attempts
use text.Mathlib.Text.{find?}
use deal_screening_agent.Prelude.{
  ltb, if◌then◌else◌, is_some, any, all, ℕ, zero, suc, ◌+◌, ◌*◌, String, Bool, true, false, not,
  ◌||◌, Option, none, some, List, [], ◌∷◌, str_eq,
}
use deal_screening_agent.Prelude.Exec.{Result, ok, err}
use deal_screening_agent.Prelude.Results.{◌>>=◌, ◌>>◌, guard}
use deal_screening_agent.Prelude.Json.{
  Value, null, string, array, object, Items, nil, cons, find_key, get_key, is_truthy,
}
use deal_screening_agent.Models.Enums.{
  FieldExtractionStatus, found, inferred, missing, ConfidenceLevel, high, medium, low,
  core_extraction_fields,
}
use deal_screening_agent.Deals.Extraction.{FieldData}

-- LLMExtractionError, and any other exception.
pub data LlmError : Type 0 where
  llm_extraction_error unexpected_error : LlmError

-- EXTRACTION_SYSTEM_PROMPT, and EXTRACTION_USER_PROMPT_TEMPLATE with its text put in.
pub data Content : Type 0 where
  system_prompt : Content
  user_prompt : String → Content

pub record Message : Type 0 where
  pub role : String
  pub content : Content

unfoldable pub build_extraction_messages : String → List Message
build_extraction_messages document_text =
    record { role = "system"; content = system_prompt }
    ∷ record { role = "user"; content = user_prompt document_text }
    ∷ []

-- `value in names` for a set of texts: a value that cannot be hashed raises TypeError
abbrev pub as_text : Value → Result LlmError String
as_text (string s) = ok s
as_text (array _) = err unexpected_error
as_text (object _) = err unexpected_error
as_text _ = err llm_extraction_error

abbrev pub as_name : String → Result LlmError String
as_name s = if any (str_eq s) core_extraction_fields then ok s else err llm_extraction_error

abbrev pub as_status : String → Result LlmError FieldExtractionStatus
as_status s =
    if str_eq s "FOUND"
    then ok found
    else if str_eq s "INFERRED"
    then ok inferred
    else if str_eq s "MISSING"
    then ok missing
    else err llm_extraction_error

abbrev pub as_confidence : String → Result LlmError ConfidenceLevel
as_confidence s =
    if str_eq s "HIGH"
    then ok high
    else if str_eq s "MEDIUM"
    then ok medium
    else if str_eq s "LOW"
    then ok low
    else err llm_extraction_error

-- a missing field has the value null, any other a value that is not empty
abbrev pub fits_status : FieldExtractionStatus → Value → Bool
fits_status missing null = true
fits_status missing _ = false
fits_status _ v = is_truthy v

-- `text in values`
abbrev pub holds_text : String → Items → Bool
holds_text key nil = false
holds_text key (cons (string s) values) = str_eq s key || holds_text key values
holds_text key (cons _ values) = holds_text key values

-- `column_text` is the text that the column holds of a value that is no text.
module _ (column_text : Value → String) where
  abbrev pub stored_value : Value → Option String
  stored_value null = none
  stored_value (string s) = some s
  stored_value v = some (column_text v)

  abbrev pub entry :
      Value → String → FieldExtractionStatus → ConfidenceLevel → Result LlmError FieldData
  entry value name status confidence =
      if fits_status status value
      then ok (record {
        field_name = name;
        field_value = stored_value value;
        field_status = status;
        confidence = confidence;
      })
      else err llm_extraction_error

  -- One round of the loop over the fields.
  unfoldable pub check_field : List String → Value → Result LlmError FieldData
  unfolding get_key
  check_field seen_fields (object fs) = do
    s ← as_text (get_key "field_name" fs)
    name ← as_name s
    _ ← guard (not (any (str_eq name) seen_fields)) llm_extraction_error
    t ← as_text (get_key "field_status" fs)
    status ← as_status t
    c ← as_text (get_key "confidence" fs)
    confidence ← as_confidence c
    entry (get_key "field_value" fs) name status confidence
  check_field seen_fields _ = err unexpected_error

  unfoldable pub check_fields : List String → Items → Result LlmError (List FieldData)
  unfolding check_field
  check_fields seen_fields nil = do
    _ ←
        guard (all (λ name. any (str_eq name) seen_fields) core_extraction_fields)
          llm_extraction_error
    ok []
  check_fields seen_fields (cons value values) = do
    f ← check_field seen_fields value
    fs ← check_fields (f.field_name ∷ seen_fields) values
    ok (f ∷ fs)

  abbrev pub check_list : Option Value → Result LlmError (List FieldData)
  check_list (some (array values)) = check_fields [] values
  check_list _ = err llm_extraction_error

  -- The fields of a response that is valid. On a list or a text that holds "fields" the subscript
  -- raises TypeError, and on the other values that are no dict the test before it does.
  unfoldable pub validate_extraction_response : Value → Result LlmError (List FieldData)
  unfolding check_fields find_key
  validate_extraction_response (object fs) = check_list (find_key "fields" fs)
  validate_extraction_response (array values) =
      if holds_text "fields" values then err unexpected_error else err llm_extraction_error
  validate_extraction_response (string s) =
      if is_some (find? s "fields") then err unexpected_error else err llm_extraction_error
  validate_extraction_response _ = err unexpected_error

-- What a call of the client does: it raises one of the API errors that are retried, raises another
-- exception, or returns the content of the first choice.
pub data Answer : Type 0 where
  api_error other_exception : Answer
  replied : Option String → Answer

pub record LlmRun : Type 0 where
  pub requests : List (List Message)
  pub sleeps : List ℕ
  pub result : Result LlmError (List FieldData)

abbrev pub max_retries : ℕ
max_retries = 2

module _ (loads : String → Option Value) (column_text : Value → String) where
  abbrev pub checked : Option Value → Result LlmError (List FieldData)
  checked none = err llm_extraction_error
  checked (some parsed) = validate_extraction_response column_text parsed

  -- what the code makes of a call's outcome when it does not retry
  abbrev pub judge : Answer → Result LlmError (List FieldData)
  judge api_error = err llm_extraction_error
  judge other_exception = err unexpected_error
  judge (replied none) = err llm_extraction_error
  judge (replied (some raw_content)) =
      if str_eq raw_content "" then err llm_extraction_error else checked (loads raw_content)

  abbrev pub round : List Message → ℕ → ℕ → Answer → LlmRun → LlmRun
  round messages attempt backoff api_error rest = record rest {
    requests = messages ∷ rest.requests;
    sleeps = if ltb attempt max_retries then backoff ∷ rest.sleeps else rest.sleeps;
  }
  round messages attempt backoff answer rest = record {
    requests = messages ∷ [];
    sleeps = [];
    result = judge answer;
  }

  -- `for attempt in range(MAX_RETRIES + 1)`, with the number of rounds left
  unfoldable pub attempts : (ℕ → Answer) → List Message → ℕ → ℕ → ℕ → LlmRun
  attempts call messages zero attempt backoff = record {
    requests = [];
    sleeps = [];
    result = err llm_extraction_error;
  }
  attempts call messages (suc left) attempt backoff =
      round messages attempt backoff (call attempt)
        (attempts call messages left (attempt + 1) (backoff * 2))

  -- `call` gives the outcome of the n-th request with some messages; a sleep is in seconds.
  unfoldable pub extract_fields_via_llm : (List Message → ℕ → Answer) → String → LlmRun
  unfolding attempts build_extraction_messages
  extract_fields_via_llm call document_text =
      let messages = build_extraction_messages document_text in
      attempts (call messages) messages (max_retries + 1) 0 1
