-- ===== src/Validation/Pdfs.antt =====
-- src/app/input_validation/pdf_validator.py. What pypdf reads is a parameter: a document as the
-- objects that it gives, where a reference to another object may fail to be read.
use deal_screening_agent.Prelude.{
  ltb, if◌then◌else◌, is_some, any, ℕ, String, Bool, true, false, Option, none, some, List, [], ◌∷◌,
  str_eq,
}
use deal_screening_agent.Prelude.Exec.{Result, ok, err}
use deal_screening_agent.Prelude.Results.{◌>>=◌}
use deal_screening_agent.Validation.Files.{validate_file}
use deal_screening_agent.Validation.{
  ReasonCode, malformed_pdf, pdf_contains_javascript, pdf_encrypted, pdf_too_many_pages, Detail,
  exception_text, pages_exceed, ValidationFailure, ValidatedFile,
}

mutual
  pub data PdfObject : Type 0 where
    dictionary : Entries → PdfObject
    indirect : ℕ → PdfObject
    other : PdfObject

  pub data Entries : Type 0 where
    no_entries : Entries
    item : String → PdfObject → Entries → Entries

-- An exception while the objects are walked: only that it was raised.
pub data WalkError : Type 0 where
  walk_error : WalkError

-- A PdfReader; `page_count` is none if `len(reader.pages)` raises.
pub record Reader : Type 0 where
  pub is_encrypted : Bool
  pub page_count : Option ℕ
  pub trailer : Entries
  pub pages : List (Result WalkError PdfObject)
  -- `get_object` of a reference
  pub referenced : ℕ → Result WalkError PdfObject

-- `d.get(key)`
unfoldable pub lookup : String → Entries → Option PdfObject
lookup key no_entries = none
lookup key (item k o es) = if str_eq k key then some o else lookup key es

-- an object that is no dict has no `get`
abbrev pub get : String → PdfObject → Result WalkError (Option PdfObject)
get key (dictionary es) = ok (lookup key es)
get key _ = err walk_error

unfoldable pub check_dict_for_keys : List String → PdfObject → Bool
unfolding lookup
check_dict_for_keys keys (dictionary es) = any (λ key. is_some (lookup key es)) keys
check_dict_for_keys keys _ = false

abbrev pub dangerous_keys : List String
dangerous_keys = "/JavaScript" ∷ "/JS" ∷ "/Launch" ∷ "/EmbeddedFile" ∷ []

abbrev pub script_action_keys : List String
script_action_keys = "/JavaScript" ∷ "/JS" ∷ []

abbrev pub name_keys : List String
name_keys = "/JavaScript" ∷ "/EmbeddedFiles" ∷ []

abbrev pub max_pdf_pages : ℕ
max_pdf_pages = 500

-- `if found: return True`, and then the rest
abbrev pub or_then : Result WalkError Bool → Result WalkError Bool → Result WalkError Bool
or_then (ok true) rest = ok true
or_then (ok false) rest = rest
or_then (err e) rest = err e

module _ (reader : Reader) where
  abbrev pub get_object : PdfObject → Result WalkError PdfObject
  get_object (indirect n) = reader.referenced n
  get_object o = ok o

  -- has the object under an optional reference one of the keys
  abbrev pub has_keys : List String → Option PdfObject → Result WalkError Bool
  has_keys keys none = ok false
  has_keys keys (some o) = do obj ← get_object o; ok (check_dict_for_keys keys obj)

  unfoldable pub check_triggers : Entries → Result WalkError Bool
  unfolding check_dict_for_keys
  check_triggers no_entries = ok false
  check_triggers (item _ o es) =
      let rest = check_triggers es in or_then (has_keys script_action_keys (some o)) rest

  abbrev pub check_aa_object : PdfObject → Result WalkError Bool
  check_aa_object (dictionary triggers) = check_triggers triggers
  check_aa_object _ = ok false

  abbrev pub check_aa : Option PdfObject → Result WalkError Bool
  check_aa none = ok false
  check_aa (some aa) = do aa_obj ← get_object aa; check_aa_object aa_obj

  abbrev pub check_page : Result WalkError PdfObject → Result WalkError Bool
  check_page page = do p ← page; aa ← get "/AA" p; check_aa aa

  unfoldable pub check_pages : List (Result WalkError PdfObject) → Result WalkError Bool
  unfolding check_triggers
  check_pages [] = ok false
  check_pages (page ∷ pages) = let rest = check_pages pages in or_then (check_page page) rest

  abbrev pub check_key : String → List String → PdfObject → Result WalkError Bool
  check_key key keys catalog_obj = do o ← get key catalog_obj; has_keys keys o

  -- the body of the `try` block for a catalog
  abbrev pub check_catalog : PdfObject → Result WalkError Bool
  check_catalog catalog_obj = or_then (ok (check_dict_for_keys dangerous_keys catalog_obj)) (
      or_then (check_key "/OpenAction" script_action_keys catalog_obj)
        (or_then (check_key "/Names" name_keys catalog_obj) (check_pages reader.pages)))

  abbrev pub walk : Option PdfObject → Result WalkError Bool
  walk none = ok false
  walk (some catalog) = do catalog_obj ← get_object catalog; check_catalog catalog_obj

  -- `except Exception: pass`, and then `return False`
  abbrev pub or_false : Result WalkError Bool → Bool
  or_false (ok b) = b
  or_false (err e) = false

  unfoldable pub has_dangerous_actions : Bool
  unfolding check_dict_for_keys check_pages lookup
  has_dangerous_actions = or_false (walk (lookup "/Root" reader.trailer))

-- What validate_pdf does: it returns, or the length of the pages raises and nothing catches it.
pub data Checked : Type 0 where
  accepted : ValidatedFile → Checked
  refused : ValidationFailure → Checked
  uncaught : Checked

abbrev pub refusal : ReasonCode → Option Detail → Checked
refusal reason_code detail = refused (record { reason_code = reason_code; detail = detail })

module _ (read_pdf : List ℕ → Result String Reader) where
  abbrev pub check_counted : ValidatedFile → Reader → Option ℕ → Checked
  check_counted validated_file reader none = uncaught
  check_counted validated_file reader (some page_count) =
      if ltb max_pdf_pages page_count
      then refusal pdf_too_many_pages (some (pages_exceed page_count max_pdf_pages))
      else if has_dangerous_actions reader
      then refusal pdf_contains_javascript none
      else accepted (record validated_file { page_count = some page_count })

  abbrev pub check_opened : ValidatedFile → Result String Reader → Checked
  check_opened validated_file (err exc) = refusal malformed_pdf (some (exception_text exc))
  check_opened validated_file (ok reader) =
      if reader.is_encrypted
      then refusal pdf_encrypted none
      else check_counted validated_file reader reader.page_count

  unfoldable pub validate_pdf : ValidatedFile → Checked
  unfolding has_dangerous_actions
  validate_pdf validated_file = check_opened validated_file (read_pdf validated_file.content)

  abbrev pub then_pdf : Result ValidationFailure ValidatedFile → Checked
  then_pdf (err failure) = refused failure
  then_pdf (ok file) =
      if str_eq file.detected_mime "application/pdf" then validate_pdf file else accepted file

  -- validate_upload of __init__.py
  unfoldable pub validate_upload : (String → String) → List ℕ → Option String → ℕ → Checked
  unfolding validate_pdf validate_file
  validate_upload lower_strip content declared_mime max_bytes =
      then_pdf (validate_file lower_strip content declared_mime max_bytes)
