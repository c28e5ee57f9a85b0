-- ===== src/Http/Response/Dump.antt =====
-- The text that HttpResponse::dump of mingfwq/http/http.cpp writes, as its receiver reads it.
use mathlib.Core.Option
use mathlib.Core.Path.{ap₂}
use mingfwq.Prelude.{
  is_empty, if◌then◌else◌, ℕ, ◌≡◌, refl, ap, ◌∙◌, some, List, [], ◌∷◌, ◌++◌, length, take, drop,
  take-all, drop-all, All, arith,
}
use mingfwq.Http.Method.{http_status_to_string}
use mingfwq.Http.Printing.{version_text}
use mingfwq.Http.Reading.{Lacks, Received, receive, announced, take_body}
use mingfwq.Http.Reading.Firsts.{StatusLine, read_status_line, read_status_line_lem, http_version}
use mingfwq.Http.Reading.Lines.{
  IsField, Reads, Reads-end, Reads-print_headers, colon_space, kept, read_message-Reads,
}
use mingfwq.Http.Reading.Sent.{
  connection_field, length_fields, GivesNoLength, Reads-length, Reads-connection, announced-kept,
  announced-connection_field, announced-length_field,
}
use mingfwq.Http.Response.{HttpResponse, status_line, response_end, response_dump}

-- A response whose parts do not end its lines, with no length of its own among its headers.
pub record IsSendable (r : HttpResponse) : Type 0 where
  pub first_line : Lacks 13 (status_line r)
  pub header_lines : All IsField r.headers
  pub own_length : GivesNoLength r.headers

-- The first line: the version, the status, and the reason, which is the description of the status
-- if the response gives none.
pub sent_line : HttpResponse → StatusLine
sent_line r = record {
  version = http_version r.version;
  status = r.status;
  reason = reason_of r.reason;
}
  where
    reason_of : List ℕ → List ℕ
    reason_of [] = http_status_to_string r.status
    reason_of (b ∷ bs) = b ∷ bs

read_status_line-status_line : (r : HttpResponse) → read_status_line (status_line r) ≡ sent_line r
unfolding status_line version_text sent_line
read_status_line-status_line r =
    read_status_line_lem r.version r.status
      (if is_empty r.reason then http_status_to_string r.status else r.reason)
    ∙ ap (λ t. record { version = http_version r.version; status = r.status; reason = t })
        (same r.reason)
  where
    same :
        (t : List ℕ)
        → (if is_empty t then http_status_to_string r.status else t)
          ≡ (sent_line (record r { reason = t })).reason
    same [] = refl
    same (b ∷ bs) = refl

-- What a receiver has of a response: its headers in their order, then the connection.
abbrev pub sent_response : HttpResponse → List ℕ → Received
sent_response r first = record {
  first = first;
  fields = kept r.headers ++ (connection_field r.close ∷ length_fields r.body);
  body = r.body;
  left = [];
}

Reads-response_end : (body : List ℕ) → Reads (response_end body) (length_fields body) body
unfolding response_end length_fields
Reads-response_end [] = Reads-end []
Reads-response_end (b ∷ bs) = Reads-length (b ∷ bs) (b ∷ bs)

announced_body : (body : List ℕ) → announced (length_fields body) ≡ length body
unfolding length_fields
announced_body [] = refl
announced_body (b ∷ bs) = announced-length_field (b ∷ bs)

announced_response :
    (r : HttpResponse) → IsSendable r → announced (sent_response r []).fields ≡ length r.body
announced_response r h =
    announced-kept r.headers (connection_field r.close ∷ length_fields r.body) h.own_length
    ∙ announced-connection_field r.close (length_fields r.body)
    ∙ announced_body r.body

received_dump :
    (r : HttpResponse)
    → IsSendable r
    → receive (response_dump r) ≡ some (sent_response r (status_line r))
unfolding response_dump receive
received_dump r h =
    ap (Option.map take_body) (
      read_message-Reads (status_line r) h.first_line (
        Reads-print_headers r.headers colon_space h.header_lines
          (Reads-connection r.close (Reads-response_end r.body))))
    ∙ ap (λ n. some (filled (take n r.body) (drop n r.body))) (announced_response r h)
    ∙ ap₂ (λ body left. some (filled body left)) (take-all (length r.body) r.body (omega arith))
        (drop-all (length r.body) r.body (omega arith))
  where
    filled : List ℕ → List ℕ → Received
    filled body left = record {
      first = status_line r;
      fields = kept r.headers ++ (connection_field r.close ∷ length_fields r.body);
      body = body;
      left = left;
    }

-- A response is received as it was sent, if its first line has no carriage return, its headers names
-- without colon and carriage return and values without carriage return and without a space in
-- front, and none of them is a content-length. The first line reads as the version, the status and
-- the reason, which is the description of the status if the response has none; behind it come
-- the headers but those named connection in any case, the connection field, "close" or
-- "keep-alive" as the response says, the length field when there is a body, and the body, with
-- nothing left over behind the message.
pub receive-response_dump :
    (r : HttpResponse)
    → IsSendable r
    → (first : List ℕ) × (receive (response_dump r) ≡ some (sent_response r first))
      × (read_status_line first ≡ sent_line r)
receive-response_dump r h = (status_line r, received_dump r h, read_status_line-status_line r)
