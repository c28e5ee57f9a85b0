-- ===== src/Http/Reading.antt =====
-- How the text of a message is read: a first line, lines of a name and a value up to an empty
-- line, and the rest. It is described from the format of HTTP alone.
pub mod Firsts
pub mod Lines
pub mod Sent
use mathlib.Core.Option
use mingfwq.Prelude.{
  ℕ, zero, suc, ◌+◌, ◌≤◌, ◌<◌, ◌≡◌, ◌≢◌, refl, ap, ◌∙◌, Bool, true, false, Option, none, some, List,
  [], ◌∷◌, ◌++◌, append_assoc, ◌==◌, if◌then◌else◌, length, length-append, drop, take, codes, All,
  arith,
}
use mingfwq.Prelude.Decimal.{read_digits}
use mingfwq.Http.{Field, strcasecmp}
use mingfwq.Http.Printing.{is_eq}

abbrev pub is_crlf : List ℕ → Bool
is_crlf [] = false
is_crlf (a ∷ []) = false
is_crlf (a ∷ b ∷ s) = if a == 13 then b == 10 else false

abbrev pub put_first : ℕ → Option (List ℕ × List ℕ) → Option (List ℕ × List ℕ)
put_first a none = none
put_first a (some (s, t)) = some (a ∷ s, t)

-- A line, and what follows its end.
abbrev pub read_line : List ℕ → Option (List ℕ × List ℕ)
read_line [] = none
read_line (a ∷ s) =
    let later = put_first a (read_line s) in if is_crlf (a ∷ s) then some ([], drop 1 s) else later

-- The bytes before a colon, and those after it.
abbrev pub cut_name : List ℕ → Option (List ℕ × List ℕ)
cut_name [] = none
cut_name (a ∷ s) = let later = put_first a (cut_name s) in if a == b':' then some ([], s) else later

-- One space before the value is skipped.
abbrev pub skip_space : List ℕ → List ℕ
skip_space [] = []
skip_space (a ∷ s) = if a == b' ' then s else a ∷ s

abbrev pub make_field : Option (List ℕ × List ℕ) → Option Field
make_field none = none
make_field (some (s, t)) = some (record { name = s; value = skip_space t })

abbrev pub add_field : Option Field → Option (List Field × List ℕ) → Option (List Field × List ℕ)
add_field none m = none
add_field (some f) none = none
add_field (some f) (some (fs, rest)) = some (f ∷ fs, rest)

-- An empty line ends the fields, and any other is a field.
abbrev pub after_line :
    (List ℕ → Option (List Field × List ℕ))
    → Option (List ℕ × List ℕ)
    → Option (List Field × List ℕ)
after_line later none = none
after_line later (some ([], rest)) = some ([], rest)
after_line later (some (a ∷ l, rest)) = add_field (make_field (cut_name (a ∷ l))) (later rest)

-- The fields up to the empty line, for at most as many lines as the fuel, and the rest.
pub read_fields : ℕ → List ℕ → Option (List Field × List ℕ)
read_fields zero s = none
read_fields (suc fuel) s = after_line (λ t. read_fields fuel t) (read_line s)

pub record Message : Type 0 where
  pub first : List ℕ
  pub fields : List Field
  pub rest : List ℕ

abbrev pub after_first :
    (List ℕ → Option (List Field × List ℕ)) → Option (List ℕ × List ℕ) → Option Message
after_first later none = none
after_first later (some (l, t)) =
    Option.map (λ m. record { first = l; fields = m.0; rest = m.1 }) (later t)

-- A message; a text has fewer lines than bytes.
pub read_message : List ℕ → Option Message
read_message s = after_first (λ t. read_fields (length s) t) (read_line s)

-- The first length that the fields announce, 0 without one.
abbrev pub announced : List Field → ℕ
announced [] = 0
announced (f ∷ fs) =
    let later = announced fs in
    if is_eq (strcasecmp f.name (codes "content-length")) then read_digits 0 f.value else later

pub record Received : Type 0 where
  pub first : List ℕ
  pub fields : List Field
  pub body : List ℕ
  pub left : List ℕ

-- The body of a message: as many bytes as are announced; `left` is what follows it.
abbrev pub take_body : Message → Received
take_body m = record {
  first = m.first;
  fields = m.fields;
  body = take (announced m.fields) m.rest;
  left = drop (announced m.fields) m.rest;
}

unfoldable pub receive : List ℕ → Option Received
receive s = Option.map take_body (read_message s)

-- No byte of the text is `a`.
unfoldable pub Lacks : ℕ → List ℕ → Type 0
Lacks a s = All (λ b. b ≢ a) s

-- The text does not begin with a space.
unfoldable pub IsUnspaced : List ℕ → Type 0
IsUnspaced s = skip_space s ≡ s
