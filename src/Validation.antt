-- ===== src/Validation.antt =====
-- src/app/input_validation: the types, and below them the checks of a file, of a PDF and of a
-- request's size.
pub mod Dangerous
pub mod Files
pub mod Pdfs
pub mod Requests
pub mod Safe
use deal_screening_agent.Prelude.{ℕ, String, Option, List}

pub data ReasonCode : Type 0 where
  body_too_large header_too_large too_many_parts unsupported_content_type : ReasonCode
  mime_magic_mismatch malformed_pdf pdf_contains_javascript pdf_encrypted : ReasonCode
  pdf_too_many_pages decompression_bomb compression_ratio_exceeded : ReasonCode
  schema_violation webhook_malformed : ReasonCode

-- REASON_HTTP_STATUS
unfoldable pub reason_http_status : ReasonCode → ℕ
reason_http_status body_too_large = 413
reason_http_status header_too_large = 431
reason_http_status too_many_parts = 413
reason_http_status unsupported_content_type = 415
reason_http_status mime_magic_mismatch = 415
reason_http_status malformed_pdf = 422
reason_http_status pdf_contains_javascript = 422
reason_http_status pdf_encrypted = 422
reason_http_status pdf_too_many_pages = 422
reason_http_status decompression_bomb = 422
reason_http_status compression_ratio_exceeded = 422
reason_http_status schema_violation = 400
reason_http_status webhook_malformed = 400

-- What the text of a failure is about: the values that it is formatted with.
pub data Detail : Type 0 where
  size_exceeds : ℕ → ℕ → Detail
  type_not_accepted magic_does_not_match exception_text : String → Detail
  pages_exceed : ℕ → ℕ → Detail

pub record ValidationFailure : Type 0 where
  pub reason_code : ReasonCode
  pub detail : Option Detail

unfoldable pub http_status : ValidationFailure → ℕ
unfolding reason_http_status
http_status failure = reason_http_status failure.reason_code

-- A content is its bytes.
pub record ValidatedFile : Type 0 where
  pub content : List ℕ
  pub size : ℕ
  pub declared_mime : String
  pub detected_mime : String
  pub page_count : Option ℕ
