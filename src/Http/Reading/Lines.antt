-- ===== src/Http/Reading/Lines.antt =====
-- What is read back of printed lines.
use mingfwq.Prelude.{
  ℕ, zero, suc, ◌<◌, ◌≡◌, refl, ap, ◌∙◌, inl, inr, some, List, [], ◌∷◌, ◌++◌, append_assoc,
  if◌then◌else◌, length, length-append, All, arith, codes, Bool-cases,
}
use mathlib.Core.Option
use mingfwq.Http.{Field}
use mingfwq.Http.Printing.{crlf, is_connection, print_field, print_headers}
use mingfwq.Http.Reading.{
  read_line, cut_name, read_fields, read_message, Lacks, IsUnspaced, add_field, after_first,
  make_field,
}

pub read_line-append :
    (l rest : List ℕ) → Lacks 13 l → read_line (l ++ (crlf ++ rest)) ≡ some (l, rest)
unfolding Lacks
read_line-append [] rest h = refl
read_line-append (a ∷ []) rest h = ground (arith, h.0)
read_line-append (a ∷ b ∷ l) rest h = ground (arith, h.0, read_line-append (b ∷ l) rest h.1)

cut_name-append : (l rest : List ℕ) → Lacks b':' l → cut_name (l ++ (b':' ∷ rest)) ≡ some (l, rest)
unfolding Lacks
cut_name-append [] rest h = refl
cut_name-append (a ∷ l) rest h = ground (arith, h.0, cut_name-append l rest h.1)

-- A field whose line is read back.
pub record IsField (f : Field) : Type 0 where
  pub name_line : Lacks 13 f.name
  pub name_colon : Lacks b':' f.name
  pub value_line : Lacks 13 f.value
  pub value_space : IsUnspaced f.value

-- The separators of the two dumps.
pub data Separator : List ℕ → Type 0 where
  colon : Separator (codes ":")
  colon_space : Separator (codes ": ")

Lacks-append : (a : ℕ) (s t : List ℕ) → Lacks a s → Lacks a t → Lacks a (s ++ t)
unfolding Lacks
Lacks-append a [] t p q = q
Lacks-append a (b ∷ s) t p q = (p.0, Lacks-append a s t p.1 q)

Separator-Lacks : {s : List ℕ} → Separator s → Lacks 13 s
unfolding Lacks
Separator-Lacks colon = (ground arith, tt)
Separator-Lacks colon_space = (ground arith, (ground arith, tt))

make_field-line :
    {s : List ℕ} (f : Field)
    → Separator s
    → IsField f
    → make_field (cut_name (f.name ++ (s ++ f.value))) ≡ some f
unfolding IsUnspaced
make_field-line f colon h = rw (cut_name-append f.name f.value h.name_colon) (simp h.value_space)
make_field-line f colon_space h = rw (cut_name-append f.name (b' ' ∷ f.value) h.name_colon) refl

read_fields_step :
    (n : ℕ) (l t : List ℕ) (f : Field)
    → Lacks 13 l
    → make_field (cut_name l) ≡ some f
    → read_fields (suc n) (l ++ (crlf ++ t)) ≡ add_field (some f) (read_fields n t)
unfolding read_fields
read_fields_step n [] t f h e = absurd (ground (arith, e))
read_fields_step n (a ∷ l) t f h e = rw (read_line-append (a ∷ l) t h) (rw e refl)

-- The text is read as these fields and this rest whenever the fuel is above their number.
pub record Reads (s : List ℕ) (fs : List Field) (rest : List ℕ) : Type 0 where
  pub reads : (n : ℕ) → length fs < n → read_fields n s ≡ some (fs, rest)
  pub longer : length fs < length s

pub Reads-end : (rest : List ℕ) → Reads (crlf ++ rest) [] rest
unfolding read_fields
Reads-end rest = record { reads = end; longer = omega arith }
  where
    end : (n : ℕ) → 0 < n → read_fields n (crlf ++ rest) ≡ some ([], rest)
    end zero h = absurd (omega (arith, h))
    end (suc n) h = refl

line_apart :
    (f : Field) (s t : List ℕ) → print_field s f ++ t ≡ (f.name ++ (s ++ f.value)) ++ (crlf ++ t)
unfolding print_field
line_apart f s t = simp append_assoc

pub Reads-field :
    {s t rest : List ℕ} {fs : List Field} (f : Field)
    → Separator s
    → IsField f
    → Reads t fs rest
    → Reads (print_field s f ++ t) (f ∷ fs) rest
Reads-field {s} {t} {rest} {fs} f sep h r = rw (line_apart f s t) (record {
  reads = more;
  longer = omega (arith, r.longer, length-append (f.name ++ (s ++ f.value)) (crlf ++ t));
})
  where
    more :
        (n : ℕ)
        → suc (length fs) < n
        → read_fields n ((f.name ++ (s ++ f.value)) ++ (crlf ++ t)) ≡ some (f ∷ fs, rest)
    more zero l = absurd (omega (arith, l))
    more (suc n) l =
        read_fields_step n (f.name ++ (s ++ f.value)) t f
          (Lacks-append 13 f.name (s ++ f.value) h.name_line
            (Lacks-append 13 s f.value (Separator-Lacks sep) h.value_line))
          (make_field-line f sep h)
        ∙ ap (add_field (some f)) (r.reads n (omega (arith, l)))

-- The fields that the loops of the dumps print.
abbrev pub kept : List Field → List Field
kept [] = []
kept (f ∷ fs) = let later = kept fs in if is_connection f.name then later else f ∷ later

pub Reads-print_headers :
    {s t rest : List ℕ} {fs : List Field} (hs : List Field)
    → Separator s
    → All IsField hs
    → Reads t fs rest
    → Reads (print_headers s hs ++ t) (kept hs ++ fs) rest
unfolding print_headers
Reads-print_headers [] sep h r = r
Reads-print_headers {s} {t} {rest} {fs} (f ∷ hs) sep h r =
    elim (Bool-cases (is_connection f.name)) [
      | inl skipped ↦ rw skipped (Reads-print_headers hs sep h.1 r)
      | inr printed ↦ rw printed (
          rw (append_assoc (print_field s f) (print_headers s hs) t)
            (Reads-field f sep h.0 (Reads-print_headers hs sep h.1 r)))
    ]

pub read_message-Reads :
    {t rest : List ℕ} {fs : List Field} (l : List ℕ)
    → Lacks 13 l
    → Reads t fs rest
    → read_message (l ++ (crlf ++ t)) ≡ some (record { first = l; fields = fs; rest = rest })
unfolding read_message
read_message-Reads {t} {rest} {fs} l h r =
    ap (after_first (λ u. read_fields (length (l ++ (crlf ++ t))) u)) (read_line-append l t h)
    ∙ ap (Option.map (λ m. record { first = l; fields = m.0; rest = m.1 }))
        (r.reads (length (l ++ (crlf ++ t))) (omega (arith, r.longer, length-append l (crlf ++ t))))
