-- ===== src/Servlet/Routes.antt =====
-- The exact paths of mingfwq/http/servlet.cpp against a map from paths to servlets.
use mingfwq.Prelude.{
  ℕ, ◌≡◌, refl, sym, ap, ◌∙◌, Bool, false, inl, inr, Option, none, some, List, [], ◌∷◌,
  if◌then◌else◌, same, same_refl, same→≡, Bool-cases,
}
use mingfwq.Servlet.{
  Entry, ServletDispath, find, assign, erase, make_servlet_dispath, add_servlet, del_servlet,
  set_default, add_glob_servlet, del_glob_servlet, get_matched_servlet,
}

-- The calls that change a dispatcher.
pub data Call : Type 0 where
  add : List ℕ → Option ℕ → Call
  remove : List ℕ → Call
  add_glob : List ℕ → Option ℕ → Call
  remove_glob : List ℕ → Call
  default_to : Option ℕ → Call

-- The map from paths to servlets: each call of addServlet or delServlet is about its path alone.
abbrev pub routes : List Call → List ℕ → Option (Option ℕ)
routes [] path = none
routes (add uri slt ∷ earlier) path = if same path uri then some slt else routes earlier path
routes (remove uri ∷ earlier) path = if same path uri then none else routes earlier path
routes (_ ∷ earlier) path = routes earlier path

-- No later entry has the URI of an earlier one.
abbrev IsKeyed : List Entry → Type 0
IsKeyed [] = Unit
IsKeyed (e ∷ es) = (find e.uri es ≡ none) × IsKeyed es

same_sym : (a b : List ℕ) → same a b ≡ false → same b a ≡ false
same_sym a b e = elim (Bool-cases (same b a)) [
  | inl z ↦ cc (e, same_refl a, ap (same a) (same→≡ b a z))
  | inr z ↦ z
]

find-assign :
    (uri path : List ℕ) (slt : Option ℕ) (es : List Entry)
    → find path (assign uri slt es) ≡ (if same path uri then some slt else find path es)
unfolding find assign
find-assign uri path slt [] = refl
find-assign uri path slt (e ∷ es) = elim (Bool-cases (same uri e.uri)) [
  | inl z ↦
      let it : same path e.uri ≡ same path uri = ap (same path) (sym (same→≡ uri e.uri z)) in
      elim (Bool-cases (same path uri)) [ inl y ↦ rw (z, it, y) refl | inr y ↦ rw (z, it, y) refl ]
  | inr z ↦ elim (Bool-cases (same path e.uri)) [
    | inl y ↦
        let apart : same path uri ≡ false =
          ap (λ t. same t uri) (same→≡ path e.uri y) ∙ same_sym uri e.uri z in
        rw (z, y, apart) refl
    | inr y ↦ rw (z, y) (find-assign uri path slt es)
  ]
]

find-erase :
    (uri path : List ℕ) (es : List Entry)
    → IsKeyed es
    → find path (erase uri es) ≡ (if same path uri then none else find path es)
unfolding find erase
find-erase uri path [] k = elim (Bool-cases (same path uri)) [
  | inl y ↦ rw y refl
  | inr y ↦ rw y refl
]
find-erase uri path (e ∷ es) (k, ks) = elim (Bool-cases (same uri e.uri)) [
  | inl z ↦
      let it : e.uri ≡ uri = sym (same→≡ uri e.uri z) in
      elim (Bool-cases (same path uri)) [
        | inl y ↦ rw (z, y) (ap (λ t. find t es) (same→≡ path uri y ∙ sym it) ∙ k)
        | inr y ↦
            let apart : same path e.uri ≡ false = ap (same path) it ∙ y in rw (z, y, apart) refl
      ]
  | inr z ↦ elim (Bool-cases (same path e.uri)) [
    | inl y ↦
        let apart : same path uri ≡ false =
          ap (λ t. same t uri) (same→≡ path e.uri y) ∙ same_sym uri e.uri z in
        rw (z, y, apart) refl
    | inr y ↦ rw (z, y) (find-erase uri path es ks)
  ]
]

assign-IsKeyed :
    (uri : List ℕ) (slt : Option ℕ) (es : List Entry) → IsKeyed es → IsKeyed (assign uri slt es)
unfolding assign find
assign-IsKeyed uri slt [] k = (refl, tt)
assign-IsKeyed uri slt (e ∷ es) (k, ks) = elim (Bool-cases (same uri e.uri)) [
  | inl z ↦ rw z (k, ks)
  | inr z ↦
      rw z
        (find-assign uri e.uri slt es ∙ rw (same_sym uri e.uri z) k, assign-IsKeyed uri slt es ks)
]

erase-IsKeyed : (uri : List ℕ) (es : List Entry) → IsKeyed es → IsKeyed (erase uri es)
unfolding erase find
erase-IsKeyed uri [] k = tt
erase-IsKeyed uri (e ∷ es) (k, ks) = elim (Bool-cases (same uri e.uri)) [
  | inl z ↦ rw z ks
  | inr z ↦ rw z (find-erase uri e.uri es ks ∙ rw (same_sym uri e.uri z) k, erase-IsKeyed uri es ks)
]

module _ (fnmatch : List ℕ → List ℕ → Bool) where
  -- The dispatcher after the calls, the latest first.
  pub after : ℕ → List Call → ServletDispath
  unfolding make_servlet_dispath
  after not_found [] = make_servlet_dispath not_found
  after not_found (add uri slt ∷ calls) = add_servlet uri slt (after not_found calls)
  after not_found (remove uri ∷ calls) = del_servlet uri (after not_found calls)
  after not_found (add_glob uri slt ∷ calls) =
      add_glob_servlet fnmatch uri slt (after not_found calls)
  after not_found (remove_glob uri ∷ calls) = del_glob_servlet fnmatch uri (after not_found calls)
  after not_found (default_to slt ∷ calls) = set_default slt (after not_found calls)

  after-IsKeyed : (not_found : ℕ) (calls : List Call) → IsKeyed (after not_found calls).datas
  unfolding after add_servlet del_servlet add_glob_servlet del_glob_servlet set_default
  after-IsKeyed n [] = tt
  after-IsKeyed n (add uri slt ∷ calls) = assign-IsKeyed uri slt _ (after-IsKeyed n calls)
  after-IsKeyed n (remove uri ∷ calls) = erase-IsKeyed uri _ (after-IsKeyed n calls)
  after-IsKeyed n (add_glob uri slt ∷ calls) = after-IsKeyed n calls
  after-IsKeyed n (remove_glob uri ∷ calls) = after-IsKeyed n calls
  after-IsKeyed n (default_to slt ∷ calls) = after-IsKeyed n calls

  find-after :
      (not_found : ℕ) (calls : List Call) (path : List ℕ)
      → find path (after not_found calls).datas ≡ routes calls path
  unfolding after add_servlet del_servlet add_glob_servlet del_glob_servlet set_default find
  find-after n [] path = refl
  find-after n (add uri slt ∷ calls) path =
      find-assign uri path slt (after n calls).datas
      ∙ ap (λ o. if same path uri then some slt else o) (find-after n calls path)
  find-after n (remove uri ∷ calls) path =
      find-erase uri path (after n calls).datas (after-IsKeyed n calls)
      ∙ ap (λ o. if same path uri then none else o) (find-after n calls path)
  find-after n (add_glob uri slt ∷ calls) path = find-after n calls path
  find-after n (remove_glob uri ∷ calls) path = find-after n calls path
  find-after n (default_to slt ∷ calls) path = find-after n calls path

  -- After any calls on a new dispatcher, getMatchedServlet of a path that the map from paths to
  -- servlets has is what the map has, whatever the patterns, and of another path the first
  -- pattern that is the path itself, or the default.
  pub get_matched_servlet-routes :
      (not_found : ℕ) (calls : List Call) (path : List ℕ)
      → let d = after not_found calls in
        get_matched_servlet path d ≡ elim (routes calls path) [
          | some s ↦ s
          | none ↦ elim (find path d.globs) [ some s ↦ s | none ↦ d.default ]
        ]
  unfolding get_matched_servlet
  get_matched_servlet-routes n calls path = rw (get_matched_servlet, find-after n calls path) refl
