-- ===== src/Http.antt =====
-- mingfwq/http/http.h and mingfwq/http/http.cpp: the maps of names to values of a message, whose
-- names differ when strcasecmp tells them apart.
--
-- A std::map is the list of its entries in the order of its comparator, and an operation goes
-- through the entries whose names come before the key. strcasecmp works in the C locale, on
-- the bytes before the first zero; its result is the sign as an Ordering.
pub mod Method
pub mod Names
pub mod Fields
pub mod Printing
pub mod Reading
pub mod Request
pub mod Response
pub mod Client
pub mod Incoming
pub mod Session
pub mod Connection
pub mod Server
mod Examples
use mingfwq.Prelude.{
  bytes_order, is_lt, ℕ, zero, suc, ◌+◌, compare, Ordering, Bool, true, false, ◌&&◌, Option, none,
  some, List, [], ◌∷◌, map, leb, if◌then◌else◌,
}

-- The bytes that a C function sees of a string.
pub c_str : List ℕ → List ℕ
c_str [] = []
c_str (zero ∷ s) = []
c_str (suc a ∷ s) = suc a ∷ c_str s

-- tolower
pub to_lower : ℕ → ℕ
to_lower c = if leb b'A' c && leb c b'Z' then c + 32 else c

-- What strcasecmp compares of a string.
pub folded : List ℕ → List ℕ
folded s = map to_lower (c_str s)

pub strcasecmp : List ℕ → List ℕ → Ordering
strcasecmp lhs rhs = bytes_order (folded lhs) (folded rhs)

-- CaseInsensitiveLess
pub case_insensitive_less : List ℕ → List ℕ → Bool
case_insensitive_less lhs rhs = is_lt (strcasecmp lhs rhs)

pub record Field : Type 0 where
  pub name : List ℕ
  pub value : List ℕ

-- The search of find, operator[] and erase: past each entry that is less than the key, up to one
-- that the key is not less than.
pub find : List ℕ → List Field → Option (List ℕ)
find key [] = none
find key (f ∷ fs) =
    let later = find key fs in
    if case_insensitive_less f.name key
    then later
    else if case_insensitive_less key f.name
    then none
    else some f.value

-- m[key] = val
unfoldable pub assign : List ℕ → List ℕ → List Field → List Field
assign key val [] = record { name = key; value = val } ∷ []
assign key val (f ∷ fs) =
    let later = assign key val fs in
    if case_insensitive_less f.name key
    then f ∷ later
    else if case_insensitive_less key f.name
    then record { name = key; value = val } ∷ f ∷ fs
    else record f { value = val } ∷ fs

-- m.erase(key)
pub erase : List ℕ → List Field → List Field
erase key [] = []
erase key (f ∷ fs) =
    let later = erase key fs in
    if case_insensitive_less f.name key
    then f ∷ later
    else if case_insensitive_less key f.name
    then f ∷ fs
    else fs

abbrev pub or_default {ℓ} : {A : Type ℓ} → A → Option A → A
or_default def none = def
or_default def (some v) = v

-- getHeader, getParam, getCookie
pub get_field : List ℕ → List ℕ → List Field → List ℕ
unfolding find
get_field key def m = or_default def (find key m)

-- hasHeader, hasParam, hasCookie: the answer, and what `val` points to afterwards. A null
-- pointer is `none`.
pub has_field : List ℕ → Option (List ℕ) → List Field → Bool × Option (List ℕ)
unfolding find
has_field key val m = elim (find key m) [
  | none ↦ (false, val)
  | some v ↦ (true, elim val [ none ↦ none | some old ↦ some v ])
]

-- The casts of boost::lexical_cast: `none` where it throws.
module _ {ℓ} {A : Type ℓ} (lexical_cast : List ℕ → Option A) where
  -- checkGetAs: the answer and the value left in `val`.
  pub check_get_as : List Field → List ℕ → A → Bool × A
  unfolding find
  check_get_as m key def = elim (find key m) [
    | none ↦ (false, def)
    | some v ↦ elim (lexical_cast v) [ none ↦ (false, def) | some a ↦ (true, a) ]
  ]

  -- getAs
  pub get_as : List Field → List ℕ → A → A
  unfolding find
  get_as m key def = elim (find key m) [
    | none ↦ def
    | some v ↦ elim (lexical_cast v) [ none ↦ def | some a ↦ a ]
  ]
