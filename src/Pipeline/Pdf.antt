-- ===== src/Pipeline/Pdf.antt =====
-- src/app/services/pdf_parser.py. pypdf, the file system and the text methods are a parameter.
use deal_screening_agent.Prelude.{
  ltb, if◌then◌else◌, ℕ, zero, suc, String, Bool, not, Option, none, some, List, [], ◌∷◌, str_eq,
}
use deal_screening_agent.Prelude.Exec.{Result, ok, err}

abbrev pub max_pages : ℕ
max_pages = 80

abbrev pub min_text_length : ℕ
min_text_length = 50

pub record PdfLibrary : Type 0 where
  -- `path.exists()` and `path.suffix.lower()`
  pub exists : String → Bool
  pub suffix : String → String
  -- the text of each page, `none` where extract_text raises; `none` if PdfReader raises
  pub open_pages : String → Option (List (Option String))
  -- `"\n\n".join`, `strip` and `len`
  pub join : List String → String
  pub strip : String → String
  pub size : String → ℕ

pub data PdfError : Type 0 where
  file_not_found not_a_pdf unreadable no_pages text_too_short : PdfError

abbrev pub take : {A : Type 0} → ℕ → List A → List A
take zero xs = []
take (suc n) [] = []
take (suc n) (x ∷ xs) = x ∷ take n xs

-- the pages whose text could be extracted
abbrev pub texts : List (Option String) → List String
texts [] = []
texts (none ∷ pages) = texts pages
texts (some text ∷ pages) = text ∷ texts pages

module _ (lib : PdfLibrary) where
  open lib use {exists, suffix, open_pages, join, strip, size}

  abbrev long_enough : String → Result PdfError String
  long_enough full_text =
      if ltb (size full_text) min_text_length then err text_too_short else ok full_text

  abbrev pub pages_text : Option (List (Option String)) → Result PdfError String
  pages_text none = err unreadable
  pages_text (some []) = err no_pages
  pages_text (some (page ∷ pages)) =
      long_enough (strip (join (texts (take max_pages (page ∷ pages)))))

  unfoldable pub extract_text_from_pdf : String → Result PdfError String
  extract_text_from_pdf file_path =
      if not (exists file_path)
      then err file_not_found
      else if not (str_eq (suffix file_path) ".pdf")
      then err not_a_pdf
      else pages_text (open_pages file_path)
