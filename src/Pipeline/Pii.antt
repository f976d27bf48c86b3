-- ===== src/Pipeline/Pii.antt =====
-- src/app/services/pii_scrubber.py. The search for a regular expression and its substitution are
-- the library's; the table of the patterns and the texts that replace a match are the code's.
use deal_screening_agent.Prelude.{String, Bool, List, [], ◌∷◌}

-- The compiled expressions of _PII_PATTERNS, in their order.
pub data Pattern : Type 0 where
  ssn email phone card labelled_name : Pattern

-- What the code uses of `re`.
pub record Regex : Type 0 where
  -- `pattern.search(text) is not None`
  pub is_found : Pattern → String → Bool
  -- `pattern.sub(replacement, text)`
  pub sub : Pattern → String → String → String
  -- `pattern.sub(lambda m: m.group(0).replace(m.group(1), replacement), text)`
  pub sub_group : Pattern → String → String → String

-- The four patterns with a text as their replacement; the last one replaces a group of its match.
abbrev pub plain_patterns : List (Pattern × String)
plain_patterns =
    (ssn, "[SSN_REDACTED]")
    ∷ (email, "[EMAIL_REDACTED]")
    ∷ (phone, "[PHONE_REDACTED]")
    ∷ (card, "[CC_REDACTED]")
    ∷ []

abbrev pub name_marker : String
name_marker = "[NAME_REDACTED]"

module _ (re : Regex) where
  -- the rounds of the loop for patterns with a text
  unfoldable pub sub_plain : List (Pattern × String) → String → String
  sub_plain [] text = text
  sub_plain ((pattern_, replacement) ∷ patterns) text =
      sub_plain patterns (re.sub pattern_ replacement text)

  unfoldable pub scrub_pii : String → String
  unfolding sub_plain
  scrub_pii text = re.sub_group labelled_name name_marker (sub_plain plain_patterns text)
