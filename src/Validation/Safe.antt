-- ===== src/Validation/Safe.antt =====
-- The walk over a document answers whether it is dangerous.
use deal_screening_agent.Prelude.{
  any, or-false, any-append, String, ◌≡◌, refl, sym, ◌∙◌, subst, Bool, true, Option, none, some,
  List, [], ◌∷◌, arith,
}
use deal_screening_agent.Prelude.Results.{◌>>=◌, is_ok}
use deal_screening_agent.Prelude.Exec.{Result, ok, err}
use deal_screening_agent.Validation.Pdfs.{
  PdfObject, dictionary, indirect, other, Entries, no_entries, item, WalkError, Reader, lookup,
  check_dict_for_keys, dangerous_keys, script_action_keys, name_keys, get_object, has_keys,
  check_triggers, check_aa_object, check_aa, check_page, check_pages, check_key, check_catalog,
  walk, or_false, has_dangerous_actions,
}
use deal_screening_agent.Validation.Dangerous.{
  entries_of, read, flat_map, read_optional, at, values, page_actions, pages_actions, any_has,
  is_dangerous_catalog, is_dangerous, Answers, Answers-or_then,
}

module _ (reader : Reader) where
  Answers-read :
      (keys : List String) (r : Result WalkError PdfObject)
      → Answers (any_has reader keys (read r)) (r >>= λ obj. ok (check_dict_for_keys keys obj))
  Answers-read keys (ok obj) = or-false (check_dict_for_keys keys obj)
  Answers-read keys (err e) = tt

  Answers-has_keys :
      (keys : List String) (o : Option PdfObject)
      → Answers (any_has reader keys (read_optional reader o)) (has_keys reader keys o)
  Answers-has_keys keys none = refl
  Answers-has_keys keys (some o) = Answers-read keys (get_object reader o)

  Answers-check_key :
      (key : String) (keys : List String) (o : PdfObject)
      → Answers (any_has reader keys (at reader key o)) (check_key reader key keys o)
  unfolding lookup
  Answers-check_key key keys (dictionary es) = Answers-has_keys keys (lookup key es)
  Answers-check_key key keys (indirect n) = tt
  Answers-check_key key keys other = tt

  Answers-check_triggers :
      (es : Entries)
      → Answers (any_has reader script_action_keys (values reader es)) (check_triggers reader es)
  unfolding check_triggers
  Answers-check_triggers no_entries = refl
  Answers-check_triggers (item _ o es) =
      rw
        (any-append (check_dict_for_keys script_action_keys) (read (get_object reader o))
          (values reader es))
        (Answers-or_then _ _ (has_keys reader script_action_keys (some o))
          (check_triggers reader es) (Answers-has_keys script_action_keys (some o))
          (Answers-check_triggers es))

  -- a list of at most one
  any-flat_one :
      {A : Type 0} (keys : List String) (f : A → List PdfObject) (x : A)
      → any_has reader keys (f x) ≡ any_has reader keys (flat_map f (x ∷ []))
  any-flat_one keys f x =
      or-false (any_has reader keys (f x)) ∙ sym (any-append (check_dict_for_keys keys) (f x) [])

  Answers-check_aa_object :
      (aa : PdfObject)
      → Answers
          (any_has reader script_action_keys (values reader (entries_of aa)))
          (check_aa_object reader aa)
  Answers-check_aa_object (dictionary es) = Answers-check_triggers es
  Answers-check_aa_object (indirect n) = refl
  Answers-check_aa_object other = refl

  Answers-check_aa :
      (o : Option PdfObject)
      → Answers
          (any_has reader script_action_keys
            (flat_map (λ aa. values reader (entries_of aa)) (read_optional reader o)))
          (check_aa reader o)
  Answers-check_aa none = refl
  Answers-check_aa (some o) = by_object (get_object reader o)
    where
      by_object :
          (r : Result WalkError PdfObject)
          → Answers
              (any_has reader script_action_keys
                (flat_map (λ aa. values reader (entries_of aa)) (read r)))
              (r >>= check_aa_object reader)
      by_object (err e) = tt
      by_object (ok aa) =
          subst (λ b. Answers b (check_aa_object reader aa))
            (any-flat_one script_action_keys (λ aa. values reader (entries_of aa)) aa)
            (Answers-check_aa_object aa)

  Answers-check_page :
      (page : Result WalkError PdfObject)
      → Answers
          (any_has reader script_action_keys (flat_map (page_actions reader) (read page)))
          (check_page reader page)
  unfolding lookup
  Answers-check_page (err e) = tt
  Answers-check_page (ok (indirect n)) = tt
  Answers-check_page (ok other) = tt
  Answers-check_page (ok (dictionary es)) =
      subst (λ b. Answers b (check_aa reader (lookup "/AA" es)))
        (any-flat_one script_action_keys (page_actions reader) (dictionary es))
        (Answers-check_aa (lookup "/AA" es))

  Answers-check_pages :
      (pages : List (Result WalkError PdfObject))
      → Answers
          (any_has reader script_action_keys (pages_actions reader pages))
          (check_pages reader pages)
  unfolding check_pages
  Answers-check_pages [] = refl
  Answers-check_pages (page ∷ pages) =
      rw
        (any-append (check_dict_for_keys script_action_keys)
          (flat_map (page_actions reader) (read page)) (pages_actions reader pages))
        (Answers-or_then _ _ (check_page reader page) (check_pages reader pages)
          (Answers-check_page page) (Answers-check_pages pages))

  Answers-check_catalog :
      (catalog : PdfObject)
      → Answers (is_dangerous_catalog reader catalog) (check_catalog reader catalog)
  Answers-check_catalog catalog =
      Answers-or_then _ _ (ok (check_dict_for_keys dangerous_keys catalog)) _ refl (
        Answers-or_then _ _ (check_key reader "/OpenAction" script_action_keys catalog) _
          (Answers-check_key "/OpenAction" script_action_keys catalog)
          (Answers-or_then _ _ (check_key reader "/Names" name_keys catalog)
            (check_pages reader reader.pages) (Answers-check_key "/Names" name_keys catalog)
            (Answers-check_pages reader.pages)))

  Answers-walk :
      (root : Option PdfObject)
      → Answers (any (is_dangerous_catalog reader) (read_optional reader root)) (walk reader root)
  Answers-walk none = refl
  Answers-walk (some o) = by_object (get_object reader o)
    where
      by_object :
          (r : Result WalkError PdfObject)
          → Answers (any (is_dangerous_catalog reader) (read r)) (r >>= check_catalog reader)
      by_object (err e) = tt
      by_object (ok catalog) =
          subst (λ b. Answers b (check_catalog reader catalog))
            (or-false (is_dangerous_catalog reader catalog)) (Answers-check_catalog catalog)

  -- Unless an object cannot be read, a document is found dangerous exactly if it is: a catalog with
  -- one of the four dangerous keys, a script as the action on opening,
  -- named scripts or files, or a script among the actions of its pages.
  pub has_dangerous_actions-is_dangerous :
      is_ok (walk reader (lookup "/Root" reader.trailer)) ≡ true
      → has_dangerous_actions reader ≡ is_dangerous reader
  unfolding has_dangerous_actions is_dangerous lookup
  has_dangerous_actions-is_dangerous h =
      by_walk (walk reader (lookup "/Root" reader.trailer)) h
        (Answers-walk (lookup "/Root" reader.trailer))
    where
      by_walk :
          (r : Result WalkError Bool)
          → is_ok r ≡ true
          → Answers
              (any
                (is_dangerous_catalog reader)
                (read_optional reader (lookup "/Root" reader.trailer)))
              r
          → or_false reader r
            ≡ any
                (is_dangerous_catalog reader)
                (read_optional reader (lookup "/Root" reader.trailer))
      by_walk (ok b) h a = a
      by_walk (err e) h a = absurd (ground arith)
