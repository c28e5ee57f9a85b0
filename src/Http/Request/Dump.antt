-- ===== src/Http/Request/Dump.antt =====
-- The text that HttpRequest::dump of mingfwq/http/http.cpp writes, as its receiver reads it.
use mathlib.Core.Option
use mathlib.Core.Path.{ap₂}
use mingfwq.Prelude.{
  is_empty, ℕ, ◌≡◌, refl, ap, ◌∙◌, some, List, [], ◌∷◌, ◌++◌, if◌then◌else◌, take, drop,
  take-length_append, drop-length_append, All,
}
use mingfwq.Http.Method.{http_method_to_string}
use mingfwq.Http.Printing.{crlf, version_text}
use mingfwq.Http.Reading.{Lacks, Received, receive, announced, take_body}
use mingfwq.Http.Reading.Firsts.{
  RequestLine, read_request_line, IsTarget, read_request_line_lem, http_version,
}
use mingfwq.Http.Reading.Lines.{
  IsField, Reads, Reads-end, Reads-print_headers, colon, kept, read_message-Reads,
}
use mingfwq.Http.Reading.Sent.{
  connection_field, length_fields, GivesNoLength, Reads-length, Reads-connection, announced-kept,
  announced-connection_field, announced-length_field,
}
use mingfwq.Http.Request.{HttpRequest, request_line, request_end, request_dump}

-- A request whose parts do not end its lines or one another, with no length of its own among its
-- headers.
pub record IsSendable (r : HttpRequest) : Type 0 where
  pub first_line : Lacks 13 (request_line r)
  pub method_word : Lacks b' ' (http_method_to_string r.method)
  pub target : IsTarget r.path r.query r.fragment
  pub header_lines : All IsField r.headers
  pub own_length : GivesNoLength r.headers

-- The first line: the name of the method, the parts of the target and the version.
pub sent_line : HttpRequest → RequestLine
sent_line r = record {
  method = http_method_to_string r.method;
  path = r.path;
  query = r.query;
  fragment = r.fragment;
  version = http_version r.version;
}

read_request_line-request_line :
    (r : HttpRequest) → IsSendable r → read_request_line (request_line r) ≡ sent_line r
unfolding request_line version_text sent_line
read_request_line-request_line r h =
    read_request_line_lem (http_method_to_string r.method) r.path r.query r.fragment
      (http_version r.version) h.method_word h.target

-- What a receiver has of a request: the connection first, then its other headers in their order.
abbrev pub sent_request : HttpRequest → List ℕ → Received
sent_request r first = record {
  first = first;
  fields = connection_field r.close ∷ (kept r.headers ++ length_fields r.body);
  body = r.body;
  left = if is_empty r.body then [] else crlf;
}

after_request : List ℕ → List ℕ
after_request body = if is_empty body then [] else body ++ crlf

Reads-request_end :
    (body : List ℕ) → Reads (request_end body) (length_fields body) (after_request body)
unfolding request_end length_fields after_request
Reads-request_end [] = Reads-end []
Reads-request_end (b ∷ bs) = Reads-length (b ∷ bs) (b ∷ bs ++ crlf)

-- The length of the body cuts it off from the line end that follows it.
body_apart :
    (body : List ℕ)
    → (take (announced (length_fields body)) (after_request body) ≡ body)
      × (drop (announced (length_fields body)) (after_request body)
          ≡ (if is_empty body then [] else crlf))
unfolding length_fields after_request
body_apart [] = (refl, refl)
body_apart (b ∷ bs) =
    rw (announced-length_field (b ∷ bs))
      (take-length_append (b ∷ bs) crlf, drop-length_append (b ∷ bs) crlf)

announced_request :
    (r : HttpRequest)
    → IsSendable r
    → announced (sent_request r []).fields ≡ announced (length_fields r.body)
announced_request r h =
    announced-connection_field r.close (kept r.headers ++ length_fields r.body)
    ∙ announced-kept r.headers (length_fields r.body) h.own_length

received_dump :
    (r : HttpRequest)
    → IsSendable r
    → receive (request_dump r) ≡ some (sent_request r (request_line r))
unfolding request_dump receive
received_dump r h =
    ap (Option.map take_body) (
      read_message-Reads (request_line r) h.first_line (
        Reads-connection r.close
          (Reads-print_headers r.headers colon h.header_lines (Reads-request_end r.body))))
    ∙ ap (λ n. some (received n)) (announced_request r h)
    ∙ ap₂ (λ body left. some (filled body left)) (body_apart r.body).0 (body_apart r.body).1
  where
    filled : List ℕ → List ℕ → Received
    filled body left = record {
      first = request_line r;
      fields = connection_field r.close ∷ (kept r.headers ++ length_fields r.body);
      body = body;
      left = left;
    }

    received : ℕ → Received
    received n = filled (take n (after_request r.body)) (drop n (after_request r.body))

-- A request is received as it was sent, if its method's name has no space, its path no space, "?"
-- and "#", its query no space and "#", its fragment no space, its first line no carriage return,
-- its headers names without colon and carriage return and values without carriage return and
-- without a space in front, and none of them is a content-length. The first line reads as the name
-- of the method, the path, the query, the fragment and the version; behind it come the connection
-- field, "close" or "keep-alive" as the request says, the headers but those named connection in any
-- case, the length field when there is a body, and the body. With a body, the two bytes of a line
-- end are left over behind the message.
pub receive-request_dump :
    (r : HttpRequest)
    → IsSendable r
    → (first : List ℕ) × (receive (request_dump r) ≡ some (sent_request r first))
      × (read_request_line first ≡ sent_line r)
receive-request_dump r h = (request_line r, received_dump r h, read_request_line-request_line r h)
