-- ===== src/Servlet/Patterns.antt =====
-- The patterns of mingfwq/http/servlet.cpp: what addGlobServlet replaces.
use mingfwq.Prelude.{
  ℕ, ◌≡◌, refl, sym, ap, ◌∙◌, Bool, true, false, ◌||◌, inl, inr, Option, none, some, List, [], ◌∷◌,
  ◌++◌, append_assoc, if◌then◌else◌, same, same_refl, Bool-cases,
}
use mingfwq.Servlet.{
  Entry, ServletDispath, find, erase_match, add_glob_servlet, get_glob_servlet, or_null,
}

find_missing :
    (uri : List ℕ) (e : Entry) (es : List Entry)
    → find uri (e ∷ es) ≡ none
    → (same uri e.uri ≡ false) × (find uri es ≡ none)
unfolding find
find_missing uri e es k = elim (Bool-cases (same uri e.uri)) [
  | inl z ↦ cc (k, ap (λ b. if b then some e.servlet else find uri es) z)
  | inr z ↦ (z, sym (ap (λ b. if b then some e.servlet else find uri es) z) ∙ k)
]

find-append :
    (uri : List ℕ) (es fs : List Entry) → find uri es ≡ none → find uri (es ++ fs) ≡ find uri fs
unfolding find
find-append uri [] fs k = refl
find-append uri (e ∷ es) fs k =
    let (apart, rest) = find_missing uri e es k in rw apart (find-append uri es fs rest)

module _ (fnmatch : List ℕ → List ℕ → Bool) where
  -- A pattern of the list matches.
  abbrev pub is_matched : List ℕ → List Entry → Bool
  is_matched uri [] = false
  is_matched uri (e ∷ es) = fnmatch e.uri uri || is_matched uri es

  erase_match-append :
      (uri : List ℕ) (es fs : List Entry)
      → is_matched uri es ≡ true
      → erase_match fnmatch uri (es ++ fs) ≡ erase_match fnmatch uri es ++ fs
  unfolding erase_match
  erase_match-append uri [] fs m = cc m
  erase_match-append uri (e ∷ es) fs m = elim (Bool-cases (fnmatch e.uri uri)) [
    | inl z ↦ rw z refl
    | inr z ↦
        let later : is_matched uri es ≡ true = sym (ap (λ b. b || is_matched uri es) z) ∙ m in
        rw z (ap (λ l. e ∷ l) (erase_match-append uri es fs later))
  ]

  find-erase_match :
      (uri : List ℕ) (es : List Entry)
      → find uri es ≡ none
      → find uri (erase_match fnmatch uri es) ≡ none
  unfolding erase_match find
  find-erase_match uri [] k = refl
  find-erase_match uri (e ∷ es) k =
      let (apart, rest) = find_missing uri e es k in
      elim (Bool-cases (fnmatch e.uri uri)) [
        | inl z ↦ rw z rest
        | inr z ↦ rw (z, apart) (find-erase_match uri es rest)
      ]

  -- Where a pattern that matches stands before the one that is the added URI itself, and none of
  -- those before is that URI, addGlobServlet takes off the former, and getGlobServlet of the URI
  -- still gives the old servlet and not the added one.
  pub add_glob_servlet_stale :
      (d : ServletDispath) (before after : List Entry) (uri : List ℕ) (old slt : Option ℕ)
      → d.globs ≡ before ++ record { uri = uri; servlet = old } ∷ after
      → find uri before ≡ none
      → is_matched uri before ≡ true
      → get_glob_servlet uri (add_glob_servlet fnmatch uri slt d) ≡ old
  unfolding get_glob_servlet add_glob_servlet find
  add_glob_servlet_stale d before after uri old slt g f m =
      let entry : Entry = record { uri = uri; servlet = old } in
      let added = record { uri = uri; servlet = slt } ∷ [] in
      let left : erase_match fnmatch uri d.globs ++ added
          ≡ erase_match fnmatch uri before ++ (entry ∷ after ++ added) =
        ap (λ l. erase_match fnmatch uri l ++ added) g
        ∙ ap (λ l. l ++ added) (erase_match-append uri before (entry ∷ after) m)
        ∙ append_assoc (erase_match fnmatch uri before) (entry ∷ after) added in
      let found : find uri (entry ∷ after ++ added) ≡ some old = rw (same_refl uri) refl in
      ap or_null (
        ap (find uri) left
        ∙ find-append uri (erase_match fnmatch uri before) (entry ∷ after ++ added)
            (find-erase_match uri before f)
        ∙ found)

  -- Where no pattern is the added URI itself, getGlobServlet of it gives what addGlobServlet added.
  add_glob_servlet_lem :
      (d : ServletDispath) (uri : List ℕ) (slt : Option ℕ)
      → find uri d.globs ≡ none
      → get_glob_servlet uri (add_glob_servlet fnmatch uri slt d) ≡ slt
  unfolding get_glob_servlet add_glob_servlet find
  add_glob_servlet_lem d uri slt f =
      let added : List Entry = record { uri = uri; servlet = slt } ∷ [] in
      let found : find uri added ≡ some slt = rw (same_refl uri) refl in
      ap or_null (
        find-append uri (erase_match fnmatch uri d.globs) added (find-erase_match uri d.globs f)
        ∙ found)
