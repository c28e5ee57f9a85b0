-- ===== src/Http/Examples.antt =====
-- Runs of the maps, the method names and the printing of messages.
use mingfwq.Prelude.{
  bytes_order, ℕ, ◌≡◌, refl, true, false, some, List, [], ◌∷◌, ◌++◌, if◌then◌else◌, codes, arith,
}
use mingfwq.Prelude.Decimal.{decimal}
use mingfwq.Http.{case_insensitive_less, strcasecmp, folded, c_str, to_lower}
use mingfwq.Http.Method.{
  http_method_to_string, chars_to_http_method, http_status_to_string, status_case, match_chars,
}
use mingfwq.Http.Method.Naming.{chars_to_http_method-append}
use mingfwq.Http.Fields.{same_name}
use mingfwq.Http.Printing.{
  version_text, connection_text, print_headers, print_length, print_field, is_connection,
}
use mingfwq.Http.Reading.{Lacks, receive, IsUnspaced}
use mingfwq.Http.Reading.Sent.{GivesNoLength}
use mingfwq.Http.Request.{
  HttpRequest, request_line, request_end, request_dump, set_header, get_header, get_param,
  get_cookie,
}
use mingfwq.Http.Request.Maps.{IsValid, set_header-IsValid}
use mingfwq.Http.Request.Dump.{IsSendable, sent_line, sent_request, receive-request_dump}
use mingfwq.Http.Reading.Firsts.{read_request_line, read_status_line}
use mingfwq.Http.Response.{HttpResponse, make_http_response, status_line, response_dump}
use mingfwq.Http.Response
use mingfwq.Http.Response.Dump.{sent_response, receive-response_dump}

-- A POST of two bytes with two headers.
abbrev post : HttpRequest
post = record {
  method = 3;
  version = 17;
  close = true;
  path = codes "/a";
  query = codes "b=1";
  fragment = [];
  body = codes "hi";
  headers =
      record { name = codes "Connection"; value = codes "upgrade" }
      ∷ record { name = codes "Host"; value = codes "x" }
      ∷ [];
  params = [];
  cookies = [];
}

abbrev reply : HttpResponse
reply = record {
  status = 404;
  version = 17;
  close = false;
  body = codes "gone";
  reason = [];
  headers = record { name = codes "Server"; value = codes "s" } ∷ [];
}

abbrev post_text : List ℕ
post_text =
    codes "POST /a?b=1 HTTP/1.1"
    ++ (13 ∷ 10 ∷ codes "connection: close")
    ++ (13 ∷ 10 ∷ codes "Host:x")
    ++ (13 ∷ 10 ∷ codes "content-length: 2")
    ++ (13 ∷ 10 ∷ 13 ∷ 10 ∷ codes "hi")
    ++ (13 ∷ 10 ∷ [])

post_printed : request_dump post ≡ post_text
unfolding request_dump http_method_to_string version_text connection_text print_headers print_length
    print_field decimal is_connection strcasecmp bytes_order folded c_str to_lower request_end
    request_line
post_printed = refl

reply_first : status_line reply ≡ codes "HTTP/1.1 404 Not Found"
unfolding status_line version_text decimal http_status_to_string status_case
reply_first = refl

getx_is_get : chars_to_http_method (codes "GETX / HTTP/1.1") ≡ 1
unfolding chars_to_http_method match_chars c_str
getx_is_get = refl

chars_to_http_method-append_example :
    chars_to_http_method (http_method_to_string 7 ++ codes " / HTTP/1.1") ≡ 7
chars_to_http_method-append_example =
    chars_to_http_method-append 7 (codes " / HTTP/1.1") (omega arith)

post-IsValid : IsValid post
unfolding case_insensitive_less strcasecmp bytes_order folded c_str to_lower
post-IsValid = record { headers = ((refl, tt), (tt, tt)); params = tt; cookies = tt }

set_header-IsValid_example :
    IsValid (set_header (codes "HOST") (codes "y") post)
    × ((q def : List ℕ)
        → (get_header q def (set_header (codes "HOST") (codes "y") post)
            ≡ (if same_name q (codes "HOST") then codes "y" else get_header q def post))
          × (get_param q def (set_header (codes "HOST") (codes "y") post) ≡ get_param q def post)
          × (get_cookie q def (set_header (codes "HOST") (codes "y") post) ≡ get_cookie q def post))
set_header-IsValid_example = set_header-IsValid (codes "HOST") (codes "y") post post-IsValid

post-IsSendable : IsSendable post
unfolding Lacks IsUnspaced GivesNoLength request_line http_method_to_string version_text decimal
    strcasecmp bytes_order folded c_str to_lower
post-IsSendable = record {
  first_line = ground arith;
  method_word = ground arith;
  target = record {
    path_word = ground arith;
    path_mark = ground arith;
    path_hash = ground arith;
    query_word = ground arith;
    query_hash = ground arith;
    fragment_word = ground arith;
  };
  header_lines = (
    record {
      name_line = ground arith;
      name_colon = ground arith;
      value_line = ground arith;
      value_space = refl;
    },
    (
      record {
        name_line = ground arith;
        name_colon = ground arith;
        value_line = ground arith;
        value_space = refl;
      },
      tt,
    ),
  );
  own_length = (refl, (refl, tt));
}

receive-request_dump_example :
    (first : List ℕ) × (receive (request_dump post) ≡ some (sent_request post first))
    × (read_request_line first ≡ sent_line post)
receive-request_dump_example = receive-request_dump post post-IsSendable

reply-IsSendable : Response.Dump.IsSendable reply
unfolding Lacks IsUnspaced GivesNoLength status_line http_status_to_string status_case version_text
    decimal strcasecmp bytes_order folded c_str to_lower
reply-IsSendable = record {
  first_line = ground arith;
  header_lines = (
    record {
      name_line = ground arith;
      name_colon = ground arith;
      value_line = ground arith;
      value_space = refl;
    },
    tt,
  );
  own_length = (refl, tt);
}

receive-response_dump_example :
    (first : List ℕ) × (receive (response_dump reply) ≡ some (sent_response reply first))
    × (read_status_line first ≡ Response.Dump.sent_line reply)
receive-response_dump_example = receive-response_dump reply reply-IsSendable
