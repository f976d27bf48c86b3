-- ===== src/Pipeline/Document/Scrubbed.antt =====
-- What leaves the program for the language model.
use deal_screening_agent.Prelude.{ℕ, String, ◌≡◌, false, Option, List}
use deal_screening_agent.Prelude.Json.{Value}
use deal_screening_agent.Pipeline.Pdf.{PdfLibrary}
use deal_screening_agent.Pipeline.Pii.{Pattern, ssn, email, phone, card, labelled_name, Regex}
use deal_screening_agent.Pipeline.Llm.{Message, build_extraction_messages, Answer}
use deal_screening_agent.Pipeline.Document.{Details}

-- the text that takes the place of a match
abbrev pub marker : Pattern → String
marker ssn = "[SSN_REDACTED]"
marker email = "[EMAIL_REDACTED]"
marker phone = "[PHONE_REDACTED]"
marker card = "[CC_REDACTED]"
marker labelled_name = "[NAME_REDACTED]"

-- What `re` does with the four patterns without a group. None of them matches a bracket, and a match
-- of each ends where a word does, so that a marker neither leaves nor makes a match.
pub record Substitutes (re : Regex) : Type 0 where
  pub removes : (p : Pattern) (s : String) → re.is_found p (re.sub p (marker p) s) ≡ false
  pub keeps :
      (p q : Pattern) (s : String)
      → re.is_found p s ≡ false
      → re.is_found p (re.sub q (marker q) s) ≡ false

module _ (lib : PdfLibrary) (re : Regex) (loads : String → Option Value)
    (column_text : Value → String) (details : Details) (call : List Message → ℕ → Answer) where
  -- The messages hold a text without a number of the three kinds and without an address, but for
  -- the markers in place of the labelled names.
  abbrev pub IsScrubbed : List Message → Type 0
  IsScrubbed messages =
      (clean : String) × (messages
        ≡ build_extraction_messages (re.sub_group labelled_name "[NAME_REDACTED]" clean))
      × (re.is_found ssn clean ≡ false)
      × (re.is_found email clean ≡ false)
      × (re.is_found phone clean ≡ false)
      × (re.is_found card clean ≡ false)
