-- ===== src/Validation/Dangerous.antt =====
-- The objects of a document as lists, and which documents are dangerous.
use deal_screening_agent.Prelude.{
  any, String, ◌≡◌, ap, subst, Bool, true, false, ◌||◌, Option, none, some, List, [], ◌∷◌, ◌++◌,
}
use deal_screening_agent.Prelude.Results.{Ensures}
use deal_screening_agent.Prelude.Exec.{Result, ok, err}
use deal_screening_agent.Validation.Pdfs.{
  PdfObject, dictionary, Entries, no_entries, item, WalkError, Reader, lookup, check_dict_for_keys,
  dangerous_keys, script_action_keys, name_keys, or_then, get_object,
}

abbrev pub entries_of : PdfObject → Entries
entries_of (dictionary es) = es
entries_of _ = no_entries

abbrev pub read : Result WalkError PdfObject → List PdfObject
read (ok o) = o ∷ []
read (err e) = []

abbrev pub flat_map : {A B : Type 0} → (A → List B) → List A → List B
flat_map f [] = []
flat_map f (x ∷ xs) = f x ++ flat_map f xs

module _ (reader : Reader) where
  -- the object at a key, if there is one that can be read
  abbrev pub read_optional : Option PdfObject → List PdfObject
  read_optional none = []
  read_optional (some o) = read (get_object reader o)

  abbrev pub at : String → PdfObject → List PdfObject
  at key o = read_optional (lookup key (entries_of o))

  abbrev pub values : Entries → List PdfObject
  values no_entries = []
  values (item _ o es) = read (get_object reader o) ++ values es

  -- the actions that a page's triggers run
  abbrev pub page_actions : PdfObject → List PdfObject
  page_actions page = flat_map (λ aa. values (entries_of aa)) (at "/AA" page)

  abbrev pub pages_actions : List (Result WalkError PdfObject) → List PdfObject
  pages_actions = flat_map (λ page. flat_map page_actions (read page))

  abbrev pub any_has : List String → List PdfObject → Bool
  any_has keys = any (check_dict_for_keys keys)

  abbrev pub is_dangerous_catalog : PdfObject → Bool
  is_dangerous_catalog catalog =
      check_dict_for_keys dangerous_keys catalog
      || (any_has script_action_keys (at "/OpenAction" catalog)
          || (any_has name_keys (at "/Names" catalog)
              || any_has script_action_keys (pages_actions reader.pages)))

  -- A catalog with one of the dangerous keys, with a script as the action on opening, with named
  -- scripts or files, or with a script among the actions of the pages.
  unfoldable pub is_dangerous : Bool
  unfolding check_dict_for_keys lookup
  is_dangerous = any is_dangerous_catalog (read_optional (lookup "/Root" reader.trailer))

-- the answer of a test that raises nothing
abbrev pub Answers : Bool → Result WalkError Bool → Type 0
Answers expected = Ensures (λ b. b ≡ expected)

pub Answers-or_then :
    (b c : Bool) (r t : Result WalkError Bool)
    → Answers b r
    → Answers c t
    → Answers (b || c) (or_then r t)
Answers-or_then b c (ok true) t p q = ap (λ x. x || c) p
Answers-or_then b c (ok false) t p q = subst (λ x. Answers (x || c) t) p q
Answers-or_then b c (err e) t p q = tt
