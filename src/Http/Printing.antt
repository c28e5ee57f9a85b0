-- ===== src/Http/Printing.antt =====
-- What HttpRequest::dump and HttpResponse::dump of mingfwq/http/http.cpp write in the same way.
use mingfwq.Prelude.{
  ℕ, ◌/◌, Ordering, Bool, true, false, bit_and, List, [], ◌∷◌, ◌++◌, if◌then◌else◌, length, codes,
}
use mingfwq.Prelude.Decimal.{decimal}
use mingfwq.Http.{Field, strcasecmp}

-- "\r\n"
abbrev pub crlf : List ℕ
crlf = 13 ∷ 10 ∷ []

-- "HTTP/" with the two halves of m_version.
unfoldable pub version_text : ℕ → List ℕ
version_text version =
    codes "HTTP/" ++ (decimal (version / 16) ++ (codes "." ++ decimal (bit_and version 15)))

unfoldable pub connection_text : Bool → List ℕ
connection_text close = if close then codes "close" else codes "keep-alive"

abbrev pub is_eq : Ordering → Bool
is_eq Ordering.lt = false
is_eq Ordering.eq = true
is_eq Ordering.gt = false

-- strcasecmp(name, "connection") == 0
unfoldable pub is_connection : List ℕ → Bool
is_connection name = is_eq (strcasecmp name (codes "connection"))

-- A line of a header, with the separator that the message puts after its name.
unfoldable pub print_field : List ℕ → Field → List ℕ
print_field separator f = f.name ++ (separator ++ (f.value ++ crlf))

-- The loop over m_headers.
unfoldable pub print_headers : List ℕ → List Field → List ℕ
print_headers separator [] = []
print_headers separator (f ∷ fs) =
    let later = print_headers separator fs in
    if is_connection f.name then later else print_field separator f ++ later

-- The line of the body's length.
unfoldable pub print_length : List ℕ → List ℕ
print_length body = codes "content-length: " ++ (decimal (length body) ++ crlf)
