-- ===== src/Validation/Files.antt =====
-- src/app/input_validation/file_validator.py. `str.lower` and `str.strip` are a parameter.
use deal_screening_agent.Prelude.{
  ltb, ◌==◌, if◌then◌else◌, or_default, length, any, ℕ, ◌*◌, String, Bool, true, false, not, ◌&&◌,
  Option, none, some, List, [], ◌∷◌, str_eq,
}
use deal_screening_agent.Prelude.Exec.{Result, ok, err}
use deal_screening_agent.Validation.{
  body_too_large, unsupported_content_type, mime_magic_mismatch, size_exceeds, type_not_accepted,
  magic_does_not_match, ValidationFailure, ValidatedFile,
}

-- `content[:len(sig)] == sig`
unfoldable pub starts_with : List ℕ → List ℕ → Bool
starts_with [] content = true
starts_with (b ∷ sig) [] = false
starts_with (b ∷ sig) (c ∷ content) = b == c && starts_with sig content

-- `b"%PDF-"`
abbrev pub pdf_signature : List ℕ
pdf_signature = 37 ∷ 80 ∷ 68 ∷ 70 ∷ 45 ∷ []

-- MAGIC_BYTES
abbrev pub magic_bytes : List (String × List (List ℕ))
magic_bytes = ("application/pdf", pdf_signature ∷ []) ∷ []

-- MAX_FILE_SIZE_BYTES
abbrev pub max_content_bytes : ℕ
max_content_bytes = 50 * 1024 * 1024

unfoldable pub check_magic_bytes : List ℕ → List (String × List (List ℕ)) → Option String
unfolding starts_with
check_magic_bytes content [] = none
check_magic_bytes content ((mime, signatures) ∷ rest) =
    let later = check_magic_bytes content rest in
    if any (λ sig. starts_with sig content) signatures then some mime else later

abbrev pub is_accepted_mime : String → Bool
is_accepted_mime mime = any (λ p. str_eq p.0 mime) magic_bytes

-- the end of validate_file, with the detected type
abbrev pub with_detected : List ℕ → String → Option String → Result ValidationFailure ValidatedFile
with_detected content effective_mime none = err (record {
  reason_code = mime_magic_mismatch;
  detail = some (magic_does_not_match effective_mime);
})
with_detected content effective_mime (some detected) =
    if not (str_eq detected effective_mime)
    then err (record {
      reason_code = mime_magic_mismatch;
      detail = some (magic_does_not_match effective_mime);
    })
    else ok (record {
      content = content;
      size = length content;
      declared_mime = effective_mime;
      detected_mime = detected;
      page_count = none;
    })

module _ (lower_strip : String → String) where
  unfoldable pub validate_file : List ℕ → Option String → ℕ → Result ValidationFailure ValidatedFile
  unfolding check_magic_bytes
  validate_file content declared_mime max_bytes =
      let effective_mime = lower_strip (or_default declared_mime "") in
      if ltb max_bytes (length content)
      then err (record {
        reason_code = body_too_large;
        detail = some (size_exceeds (length content) max_bytes);
      })
      else if not (is_accepted_mime effective_mime)
      then err (record {
        reason_code = unsupported_content_type;
        detail = some (type_not_accepted effective_mime);
      })
      else with_detected content effective_mime (check_magic_bytes content magic_bytes)
