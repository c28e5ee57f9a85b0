-- ===== src/Http/Method/Naming.antt =====
-- The method names of mingfwq/http/http.cpp: which method each function finds for a string.
use mingfwq.Prelude.{
  ℕ, zero, suc, ◌≤◌, ◌<◌, ◌≡◌, refl, ap, ◌∙◌, inl, inr, Bool, true, false, not, ◌&&◌, List, [], ◌∷◌,
  ◌++◌, ◌==◌, ==_iff, same, same→≡, if◌then◌else◌, Bool-cases, arith,
}
use mingfwq.Http.{c_str}
use mingfwq.Http.Method.{
  http_method_map, invalid_method, match_string, string_to_http_method, starts_with, match_chars,
  chars_to_http_method, http_method_to_string,
}

-- A test that holds of every number below a bound.
abbrev holds_below : ℕ → (ℕ → Bool) → Bool
holds_below zero test = true
holds_below (suc n) test = test n && holds_below n test

and_left : (a b : Bool) → (a && b) ≡ true → a ≡ true
and_left a b e = ground (arith, e)

and_right : (a b : Bool) → (a && b) ≡ true → b ≡ true
and_right a b e = ground (arith, e)

holds_below_at :
    (n : ℕ) (test : ℕ → Bool) → holds_below n test ≡ true → (m : ℕ) → m < n → test m ≡ true
holds_below_at zero test e m h = absurd (omega (arith, h))
holds_below_at (suc n) test e m h = elim (Bool-cases (m == n)) [
  | inl same_number ↦
      ap test ((==_iff m n).0 same_number) ∙ and_left (test n) (holds_below n test) e
  | inr other ↦
      holds_below_at n test (and_right (test n) (holds_below n test) e) m
        (omega (arith, h, below m n h other))
]
  where
    below : (m n : ℕ) → m < suc n → (m == n) ≡ false → m < n
    below m n h d = ground (arith, h, d)

abbrev is_found : ℕ → Bool
is_found m = string_to_http_method (http_method_to_string m) == m

names_differ : holds_below 35 is_found ≡ true
unfolding string_to_http_method match_string http_method_to_string c_str
names_differ = refl

abbrev all_rows : (ℕ × List ℕ → Bool) → List (ℕ × List ℕ) → Bool
all_rows test [] = true
all_rows test (row ∷ rows) = test row && all_rows test rows

rows_named : all_rows (λ row. same (http_method_to_string row.0) row.1) http_method_map ≡ true
unfolding http_method_to_string
rows_named = refl

match_string_row :
    (rows : List (ℕ × List ℕ)) (s : List ℕ)
    → all_rows (λ row. same (http_method_to_string row.0) row.1) rows ≡ true
    → match_string rows s < 34
    → http_method_to_string (match_string rows s) ≡ c_str s
unfolding match_string
match_string_row [] s a h = absurd (omega (arith, h))
match_string_row ((num, string) ∷ rows) s a h = ground (
  arith,
  a,
  h,
  same→≡ (http_method_to_string num) string,
  same→≡ string (c_str s),
  match_string_row rows s,
)

-- The methods and their names are one to one: every method's name leads back to it, also that of
-- INVALID_METHOD, and a string that leads to a method other than INVALID_METHOD is, up to its
-- first zero byte, that method's name.
pub string_to_http_method-http_method_to_string :
    ((m : ℕ) → m ≤ invalid_method → string_to_http_method (http_method_to_string m) ≡ m)
    × ((s : List ℕ)
        → string_to_http_method s < invalid_method
        → http_method_to_string (string_to_http_method s) ≡ c_str s)
unfolding string_to_http_method
string_to_http_method-http_method_to_string = (
  λ m h. (==_iff _ m).0 (holds_below_at 35 is_found names_differ m (omega (arith, h))),
  λ s h. match_string_row http_method_map s rows_named h,
)

-- Two strings neither of which begins the other.
abbrev apart : List ℕ → List ℕ → Bool
apart [] t = false
apart (a ∷ s) [] = false
apart (a ∷ s) (b ∷ t) = if a == b then apart s t else true

apart_starts : (s t rest : List ℕ) → apart s t ≡ true → starts_with s (t ++ rest) ≡ false
apart_starts [] t rest e = absurd (ground (arith, e))
apart_starts (a ∷ s) [] rest e = absurd (ground (arith, e))
apart_starts (a ∷ s) (b ∷ t) rest e = ground (arith, e, apart_starts s t rest)

starts_with_self : (s rest : List ℕ) → starts_with s (s ++ rest) ≡ true
starts_with_self [] rest = refl
starts_with_self (a ∷ s) rest = ground (arith, starts_with_self s rest)

-- The row of a string comes after rows that are apart from it only.
abbrev is_first : List (ℕ × List ℕ) → List ℕ → ℕ → Bool
is_first [] s num = false
is_first (row ∷ rows) s num =
    if same row.1 s then row.0 == num else (apart row.1 s && is_first rows s num)

abbrev has_no_zero : List ℕ → Bool
has_no_zero [] = true
has_no_zero (a ∷ s) = not (a == 0) && has_no_zero s

c_str-append : (s rest : List ℕ) → has_no_zero s ≡ true → c_str (s ++ rest) ≡ s ++ c_str rest
unfolding c_str
c_str-append [] rest e = refl
c_str-append (zero ∷ s) rest e = absurd (ground (arith, e))
c_str-append (suc a ∷ s) rest e = ap (◌∷◌ (suc a)) (c_str-append s rest (ground (arith, e)))

match_chars_first :
    (rows : List (ℕ × List ℕ)) (s rest : List ℕ) (num : ℕ)
    → has_no_zero s ≡ true
    → is_first rows s num ≡ true
    → match_chars rows (s ++ rest) ≡ num
unfolding match_chars
match_chars_first [] s rest num z e = absurd (ground (arith, e))
match_chars_first ((n, string) ∷ rows) s rest num z e = ground (
  arith,
  e,
  c_str-append s rest z,
  same→≡ string s,
  apart_starts string s (c_str rest),
  starts_with_self s (c_str rest),
  match_chars_first rows s rest num z,
)

abbrev comes_first : ℕ → Bool
comes_first m =
    has_no_zero (http_method_to_string m) && is_first http_method_map (http_method_to_string m) m

names_first : holds_below 34 comes_first ≡ true
unfolding http_method_to_string
names_first = refl

-- No method's name begins another's, so the bytes of a method's name lead to that method
-- whatever bytes follow them.
pub chars_to_http_method-append :
    (m : ℕ) (rest : List ℕ)
    → m < invalid_method
    → chars_to_http_method (http_method_to_string m ++ rest) ≡ m
unfolding chars_to_http_method
chars_to_http_method-append m rest h =
    let name : List ℕ = http_method_to_string m in
    let both : comes_first m ≡ true = holds_below_at 34 comes_first names_first m h in
    match_chars_first http_method_map name rest m (and_left (has_no_zero name) _ both)
      (and_right (has_no_zero name) _ both)
