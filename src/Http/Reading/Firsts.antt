-- ===== src/Http/Reading/Firsts.antt =====
-- How the first line of a message is read, from the format of HTTP alone.
use mingfwq.Prelude.{
  mark, ℕ, ◌/◌, ◌≡◌, ◌≢◌, refl, ap, ◌∙◌, bit_and, List, [], ◌∷◌, ◌++◌, append-nil, append_assoc,
  ◌==◌, if◌then◌else◌, All, All-append, codes, arith,
}
use mingfwq.Prelude.Decimal.{decimal, IsDigit, decimal-IsDigit, read_digits, read_digits-decimal}
use mingfwq.Http.Reading.{Lacks}

-- The text before the first `c` and the text behind it, nothing without one.
pub cut : ℕ → List ℕ → List ℕ × List ℕ
cut c [] = ([], [])
cut c (a ∷ s) = let later = cut c s in if a == c then ([], s) else (a ∷ later.0, later.1)

cut-append : (c : ℕ) (s t : List ℕ) → Lacks c s → cut c (s ++ (c ∷ t)) ≡ (s, t)
unfolding Lacks cut
cut-append c [] t h = ground arith
cut-append c (a ∷ s) t h = ground (arith, h.0, cut-append c s t h.1)

cut_all : (c : ℕ) (s : List ℕ) → Lacks c s → cut c s ≡ (s, [])
unfolding Lacks cut
cut_all c [] h = refl
cut_all c (a ∷ s) h = ground (arith, h.0, cut_all c s h.1)

-- What an optional part begins with.
abbrev pub opening : ℕ → List ℕ → List ℕ
opening c t = mark (c ∷ []) t

cut-opening : (c : ℕ) (s t : List ℕ) → Lacks c s → cut c (s ++ (opening c t ++ t)) ≡ (s, t)
cut-opening c s [] h = ap (cut c) (append-nil s) ∙ cut_all c s h
cut-opening c s (b ∷ t) h = cut-append c s (b ∷ t) h

opening-Lacks : (c d : ℕ) (t : List ℕ) → d ≢ c → Lacks c (opening d t)
unfolding Lacks
opening-Lacks c d [] h = tt
opening-Lacks c d (b ∷ t) h = (h, tt)

Lacks-append : (c : ℕ) (s t : List ℕ) → Lacks c s → Lacks c t → Lacks c (s ++ t)
unfolding Lacks
Lacks-append c s t p q = All-append _ s t p q

pub record RequestLine : Type 0 where
  pub method : List ℕ
  pub path : List ℕ
  pub query : List ℕ
  pub fragment : List ℕ
  pub version : List ℕ

abbrev before_hash : List ℕ → List ℕ → List ℕ → List ℕ × List ℕ → RequestLine
before_hash method version fragment (path, query) = record {
  method = method;
  path = path;
  query = query;
  fragment = fragment;
  version = version;
}

abbrev of_target : List ℕ → List ℕ → List ℕ × List ℕ → RequestLine
of_target method version (front, fragment) = before_hash method version fragment (cut b'?' front)

abbrev behind_method : List ℕ → List ℕ × List ℕ → RequestLine
behind_method method (target, version) = of_target method version (cut b'#' target)

abbrev after_space : List ℕ × List ℕ → RequestLine
after_space (method, rest) = behind_method method (cut b' ' rest)

-- A method, a target and a version, with spaces between them; the target is a path, with a query
-- behind "?" and a fragment behind "#".
pub read_request_line : List ℕ → RequestLine
read_request_line s = after_space (cut b' ' s)

-- The parts of the target end where they should.
pub record IsTarget (path query fragment : List ℕ) : Type 0 where
  pub path_word : Lacks b' ' path
  pub path_mark : Lacks b'?' path
  pub path_hash : Lacks b'#' path
  pub query_word : Lacks b' ' query
  pub query_hash : Lacks b'#' query
  pub fragment_word : Lacks b' ' fragment

pub read_request_line_lem :
    (method path query fragment version : List ℕ)
    → Lacks b' ' method
    → IsTarget path query fragment
    → read_request_line (
        method
        ++ (b' '
            ∷ (path
                ++ (opening b'?' query
                    ++ (query ++ (opening b'#' fragment ++ (fragment ++ (b' ' ∷ version))))))))
      ≡ record {
        method = method;
        path = path;
        query = query;
        fragment = fragment;
        version = version;
      }
unfolding read_request_line
read_request_line_lem method path query fragment version m h =
    ap after_space words
    ∙ ap (λ t. behind_method method (cut b' ' t)) apart
    ∙ ap (behind_method method) pair
    ∙ ap (of_target method version) hash
    ∙ ap (before_hash method version fragment) (cut-opening b'?' path query h.path_mark)
  where
    before : List ℕ
    before = path ++ (opening b'?' query ++ query)

    target : List ℕ
    target = before ++ (opening b'#' fragment ++ fragment)

    before_word : Lacks b' ' before
    before_word =
        Lacks-append b' ' path _ h.path_word
          (Lacks-append b' ' _ query (opening-Lacks b' ' b'?' query (omega arith)) h.query_word)

    front_hash : Lacks b'#' before
    front_hash =
        Lacks-append b'#' path _ h.path_hash
          (Lacks-append b'#' _ query (opening-Lacks b'#' b'?' query (omega arith)) h.query_hash)

    rest : List ℕ
    rest =
        path
        ++ (opening b'?' query
            ++ (query ++ (opening b'#' fragment ++ (fragment ++ (b' ' ∷ version)))))

    apart : rest ≡ target ++ (b' ' ∷ version)
    apart =
        rw
          (
            append_assoc before (opening b'#' fragment ++ fragment) (b' ' ∷ version),
            append_assoc path (opening b'?' query ++ query)
                ((opening b'#' fragment ++ fragment) ++ (b' ' ∷ version)),
            append_assoc (opening b'#' fragment) fragment (b' ' ∷ version),
            append_assoc (opening b'?' query) query
                (opening b'#' fragment ++ (fragment ++ (b' ' ∷ version))),
          )
          refl

    words : cut b' ' (method ++ (b' ' ∷ rest)) ≡ (method, rest)
    words = cut-append b' ' method rest m

    pair : cut b' ' (target ++ (b' ' ∷ version)) ≡ (target, version)
    pair = cut-append b' ' target version (
        Lacks-append b' ' before _ before_word (
          Lacks-append b' ' _ fragment (opening-Lacks b' ' b'#' fragment (omega arith))
            h.fragment_word))

    hash : cut b'#' target ≡ (before, fragment)
    hash = cut-opening b'#' before fragment front_hash

pub record StatusLine : Type 0 where
  pub version : List ℕ
  pub status : ℕ
  pub reason : List ℕ

abbrev behind_status : List ℕ → List ℕ × List ℕ → StatusLine
behind_status version (status, reason) = record {
  version = version;
  status = read_digits 0 status;
  reason = reason;
}

abbrev behind_version : List ℕ × List ℕ → StatusLine
behind_version (version, rest) = behind_status version (cut b' ' rest)

-- A version, the digits of the status and the reason, with spaces between them.
pub read_status_line : List ℕ → StatusLine
read_status_line s = behind_version (cut b' ' s)

digits_word : (s : List ℕ) → All IsDigit s → Lacks b' ' s
unfolding Lacks IsDigit
digits_word [] h = tt
digits_word (a ∷ s) h = (ground (arith, h.0), digits_word s h.1)

decimal_word : (n : ℕ) → Lacks b' ' (decimal n)
decimal_word n = digits_word (decimal n) (decimal-IsDigit n)

-- "HTTP/" and the two halves of a version.
abbrev pub http_version : ℕ → List ℕ
http_version version =
    codes "HTTP/" ++ (decimal (version / 16) ++ (codes "." ++ decimal (bit_and version 15)))

version_word : (version : ℕ) → Lacks b' ' (http_version version)
unfolding Lacks
version_word version = Lacks-append b' ' (codes "HTTP/") _ slash (
    Lacks-append b' ' (decimal (version / 16)) _ (decimal_word (version / 16))
      (Lacks-append b' ' (codes ".") _ dot (decimal_word (bit_and version 15))))
  where
    slash : Lacks b' ' (codes "HTTP/")
    slash = ground arith

    dot : Lacks b' ' (codes ".")
    dot = ground arith

pub read_status_line_lem :
    (version status : ℕ) (reason : List ℕ)
    → read_status_line (http_version version ++ (b' ' ∷ (decimal status ++ (b' ' ∷ reason))))
      ≡ record { version = http_version version; status = status; reason = reason }
unfolding read_status_line
read_status_line_lem version status reason =
    ap behind_version (
      cut-append b' ' (http_version version) (decimal status ++ (b' ' ∷ reason))
        (version_word version))
    ∙ ap (behind_status (http_version version))
        (cut-append b' ' (decimal status) reason (decimal_word status))
    ∙ ap (λ n. record { version = http_version version; status = n; reason = reason })
        (read_digits-decimal status)
