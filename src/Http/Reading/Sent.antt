-- ===== src/Http/Reading/Sent.antt =====
-- The fields that both dumps of mingfwq/http/http.cpp add to those of the message.
use mingfwq.Prelude.{
  is_empty, bytes_order, ℕ, ◌≡◌, refl, Bool, true, false, List, [], ◌∷◌, ◌++◌, if◌then◌else◌,
  length, All, arith, codes,
}
use mingfwq.Prelude.Decimal.{decimal, IsDigit, decimal-IsDigit, read_digits-decimal}
use mingfwq.Http.{Field, strcasecmp, folded, to_lower, c_str}
use mingfwq.Http.Printing.{crlf, is_eq, connection_text, print_field, print_length}
use mingfwq.Http.Reading.{Lacks, IsUnspaced, announced}
use mingfwq.Http.Reading.Lines.{IsField, Reads, Reads-end, Reads-field, colon_space, kept}

unfoldable pub connection_field : Bool → Field
connection_field close = record {
  name = codes "connection";
  value = if close then codes "close" else codes "keep-alive";
}

unfoldable pub length_field : List ℕ → Field
length_field body = record { name = codes "content-length"; value = decimal (length body) }

pub connection_field-IsField : (close : Bool) → IsField (connection_field close)
unfolding connection_field connection_text Lacks IsUnspaced
connection_field-IsField true = ground arith
connection_field-IsField false = ground arith

digits_line : (s : List ℕ) → All IsDigit s → Lacks 13 s
unfolding Lacks IsDigit
digits_line [] h = tt
digits_line (a ∷ s) h = (ground (arith, h.0), digits_line s h.1)

digits_space : (s : List ℕ) → All IsDigit s → IsUnspaced s
unfolding IsUnspaced IsDigit
digits_space [] h = refl
digits_space (a ∷ s) h = ground (arith, h.0)

pub length_field-IsField : (body : List ℕ) → IsField (length_field body)
unfolding length_field Lacks
length_field-IsField body = record {
  name_line = name_lacks_line;
  name_colon = name_lacks_colon;
  value_line = digits_line (decimal (length body)) (decimal-IsDigit (length body));
  value_space = digits_space (decimal (length body)) (decimal-IsDigit (length body));
}
  where
    name_lacks_line : Lacks 13 (codes "content-length")
    name_lacks_line = ground arith

    name_lacks_colon : Lacks b':' (codes "content-length")
    name_lacks_colon = ground arith

-- The field of the length that a message with this body carries.
unfoldable pub length_fields : List ℕ → List Field
length_fields body = if is_empty body then [] else length_field body ∷ []

pub Reads-length :
    (body t : List ℕ) → Reads (print_length body ++ (crlf ++ t)) (length_field body ∷ []) t
unfolding print_length length_field print_field
Reads-length body t =
    Reads-field (length_field body) colon_space (length_field-IsField body) (Reads-end t)

pub Reads-connection :
    {t rest : List ℕ} {fs : List Field} (close : Bool)
    → Reads t fs rest
    → Reads
        (codes "connection: " ++ (connection_text close ++ (crlf ++ t)))
        (connection_field close ∷ fs)
        rest
unfolding connection_field print_field connection_text
Reads-connection {t} true r =
    Reads-field (connection_field true) colon_space (connection_field-IsField true) r
Reads-connection {t} false r =
    Reads-field (connection_field false) colon_space (connection_field-IsField false) r

-- No field of the message gives a length of its own.
unfoldable pub GivesNoLength : List Field → Type 0
GivesNoLength fs = All (λ f. is_eq (strcasecmp f.name (codes "content-length")) ≡ false) fs

pub announced-kept :
    (hs fs : List Field) → GivesNoLength hs → announced (kept hs ++ fs) ≡ announced fs
unfolding GivesNoLength
announced-kept [] fs h = refl
announced-kept (f ∷ hs) fs h = ground (arith, h.0, announced-kept hs fs h.1)

pub announced-connection_field :
    (close : Bool) (fs : List Field) → announced (connection_field close ∷ fs) ≡ announced fs
unfolding connection_field strcasecmp bytes_order folded to_lower c_str
announced-connection_field close fs = refl

pub announced-length_field : (body : List ℕ) → announced (length_field body ∷ []) ≡ length body
unfolding length_field strcasecmp bytes_order folded to_lower c_str
announced-length_field body = read_digits-decimal (length body)
