-- ===== src/Http/Fields.antt =====
-- The maps of mingfwq/http/http.h: what find, operator[] and erase do to one another.
use mingfwq.Prelude.{
  ℕ, Bool, true, false, ◌≡◌, refl, sym, ap, ◌∙◌, inl, inr, none, some, List, [], ◌∷◌, All, same,
  same_refl, same→≡, if◌then◌else◌, arith, Bool-cases,
}
use mingfwq.Http.{Field, folded, case_insensitive_less, find, assign, erase}
use mingfwq.Http.Names.{less_irrefl, less_trans, less_neither, less_congr}

-- The names are the same but for case.
abbrev pub same_name : List ℕ → List ℕ → Bool
same_name a b = same (folded a) (folded b)

-- The names stand in the order of the comparator, so no two of them are the same but for case.
abbrev pub IsSorted : List Field → Type 0
IsSorted [] = Unit
IsSorted (f ∷ fs) = All (λ g. case_insensitive_less f.name g.name ≡ true) fs × IsSorted fs

less_asym : (a b : List ℕ) → case_insensitive_less a b ≡ true → case_insensitive_less b a ≡ false
less_asym a b p = elim (Bool-cases (case_insensitive_less b a)) [
  | inl q ↦ absurd (cc (less_trans a b a p q, less_irrefl a))
  | inr q ↦ q
]

less_apart : (a b : List ℕ) → case_insensitive_less a b ≡ true → same_name a b ≡ false
less_apart a b p = elim (Bool-cases (same_name a b)) [
  | inl e ↦ absurd (cc (p, less_irrefl b, less_congr a b b b (same→≡ (folded a) (folded b) e) refl))
  | inr d ↦ d
]

less_level :
    (a b : List ℕ)
    → case_insensitive_less a b ≡ false
    → case_insensitive_less b a ≡ false
    → same_name a b ≡ true
less_level a b p q = ap (same (folded a)) (sym (less_neither a b p q)) ∙ same_refl (folded a)

same_name-less :
    (a b c : List ℕ)
    → same_name a b ≡ true
    → (case_insensitive_less a c ≡ case_insensitive_less b c)
      × (case_insensitive_less c a ≡ case_insensitive_less c b)
same_name-less a b c e =
    let p : folded a ≡ folded b = same→≡ (folded a) (folded b) e in
    (less_congr a b c c p refl, less_congr c c a b refl p)

same_name_trans : (a b c : List ℕ) → same_name a b ≡ true → same_name a c ≡ same_name b c
same_name_trans a b c e = ap (λ t. same t (folded c)) (same→≡ (folded a) (folded b) e)

pub find-assign :
    (q k v : List ℕ) (m : List Field)
    → find q (assign k v m) ≡ (if same_name q k then some v else find q m)
unfolding find assign
find-assign q k v [] =
    ground
      (arith, less_level q k, less_apart q k, less_apart k q, same_name-less q k k, less_irrefl k)
find-assign q k v (f ∷ fs) = ground (
  arith,
  find-assign q k v fs,
  same_name-less q k f.name,
  same_name-less q k k,
  less_irrefl k,
  same_name-less f.name k q,
  same_name_trans f.name k q,
  less_level f.name k,
  less_level q f.name,
  less_level q k,
  less_trans q k f.name,
  less_asym q f.name,
)

-- A name that comes before all those of a map is not found in it.
find_before :
    (q : List ℕ) (m : List Field)
    → All (λ g. case_insensitive_less q g.name ≡ true) m
    → find q m ≡ none
unfolding find
find_before q [] h = refl
find_before q (f ∷ fs) h = ground (arith, h.0, less_asym q f.name)

All-before :
    (q k : List ℕ) (m : List Field)
    → case_insensitive_less q k ≡ true
    → All (λ g. case_insensitive_less k g.name ≡ true) m
    → All (λ g. case_insensitive_less q g.name ≡ true) m
All-before q k [] p h = tt
All-before q k (f ∷ fs) p h = (less_trans q k f.name p h.0, All-before q k fs p h.1)

All-level :
    (q k : List ℕ) (m : List Field)
    → same_name k q ≡ true
    → All (λ g. case_insensitive_less k g.name ≡ true) m
    → All (λ g. case_insensitive_less q g.name ≡ true) m
All-level q k [] p h = tt
All-level q k (f ∷ fs) p h = (sym (same_name-less k q f.name p).0 ∙ h.0, All-level q k fs p h.1)

pub find-erase :
    (q k : List ℕ) (m : List Field)
    → IsSorted m
    → find q (erase k m) ≡ (if same_name q k then none else find q m)
unfolding find erase
find-erase q k [] s = ground arith
find-erase q k (f ∷ fs) s = ground (
  arith,
  find-erase q k fs s.1,
  find_before q fs,
  All-before q f.name fs,
  All-level q f.name fs,
  s.0,
  same_name-less q k f.name,
  same_name-less f.name k q,
  same_name_trans f.name k q,
  less_level f.name k,
  less_level q f.name,
  less_level f.name q,
  less_level q k,
  less_trans q k f.name,
  less_asym q f.name,
)

All-assign :
    (p k v : List ℕ) (m : List Field)
    → case_insensitive_less p k ≡ true
    → All (λ g. case_insensitive_less p g.name ≡ true) m
    → All (λ g. case_insensitive_less p g.name ≡ true) (assign k v m)
unfolding assign
All-assign p k v [] a h = (a, tt)
All-assign p k v (f ∷ fs) a h = ground (arith, h, a, All-assign p k v fs a h.1)

All-erase :
    (p k : List ℕ) (m : List Field)
    → All (λ g. case_insensitive_less p g.name ≡ true) m
    → All (λ g. case_insensitive_less p g.name ≡ true) (erase k m)
unfolding erase
All-erase p k [] h = tt
All-erase p k (f ∷ fs) h = ground (arith, h, All-erase p k fs h.1)

pub assign-IsSorted : (k v : List ℕ) (m : List Field) → IsSorted m → IsSorted (assign k v m)
unfolding assign
assign-IsSorted k v [] s = (tt, tt)
assign-IsSorted k v (f ∷ fs) s =
    ground (arith, s, assign-IsSorted k v fs s.1, All-assign f.name k v fs, All-before k f.name fs)

pub erase-IsSorted : (k : List ℕ) (m : List Field) → IsSorted m → IsSorted (erase k m)
unfolding erase
erase-IsSorted k [] s = tt
erase-IsSorted k (f ∷ fs) s = ground (arith, s, erase-IsSorted k fs s.1, All-erase f.name k fs s.0)
