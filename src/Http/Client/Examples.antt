-- ===== src/Http/Client/Examples.antt =====
-- Requests of the client, and a stream that takes a byte at a time.
use mingfwq.Prelude.{
  bytes_order, ℕ, ◌≡◌, refl, sym, append-nil, arith, true, Option, none, some, List, [], ◌∷◌, ◌++◌,
  codes, if◌then◌else◌,
}
use mingfwq.Uri.{Uri}
use mingfwq.Stream.Writing.{IsSink}
use mingfwq.Http.{Field, find, strcasecmp, folded, c_str, to_lower}
use mingfwq.Http.Printing.{version_text, connection_text, print_headers, print_field}
use mingfwq.Http.Method.{http_method_to_string}
use mingfwq.Prelude.Decimal.{decimal}
use mingfwq.Http.Request.{HttpRequest, request_line, request_end, request_dump}
use mingfwq.Http.Response.{HttpResponse, make_http_response}
use mingfwq.Http.Client.{is_host, make_request, Dial, do_request}
use mingfwq.Http.Client.Making.{any_value, NamesNoHost, make_request-close, make_request-host}
use mingfwq.Http.Client.Exchange.{Exchanged, do_request-Exchanged}

abbrev home : Uri
home = record {
  scheme = codes "http";
  userinfo = [];
  host = codes "h";
  path = [];
  query = [];
  fragment = [];
  port = 0;
}

abbrev asked : List Field
asked =
    record { name = codes "Connection"; value = codes "keep-alive" }
    ∷ record { name = codes "Accept"; value = codes "a" }
    ∷ []

make_request-close_example : (make_request 1 home asked []).close ≡ true
make_request-close_example = make_request-close 1 home asked []

asked-NamesNoHost : NamesNoHost asked
unfolding NamesNoHost is_host strcasecmp bytes_order folded c_str to_lower
asked-NamesNoHost = (refl, (refl, tt))

make_request-host_example :
    find (codes "host") (make_request 1 home asked []).headers
    ≡ (if any_value asked then none else some (codes "h"))
make_request-host_example = make_request-host 1 home asked [] asked-NamesNoHost

abbrev accept_one : List ℕ → List ℕ → Option ℕ × List ℕ
accept_one s [] = (some 0, s)
accept_one s (b ∷ bs) = (some 1, s ++ b ∷ [])

accept_one-IsSink : IsSink accept_one (λ s. s)
accept_one-IsSink s [] = (0, refl, omega arith, sym (append-nil s))
accept_one-IsSink s (b ∷ bs) = (1, refl, omega arith, refl)

abbrev reply : List ℕ → Option HttpResponse × List ℕ
reply s = (some (make_http_response 17 true), s)

abbrev dialled : Dial (List ℕ)
dialled = record { address = true; created = true; connected = true; stream = [] }

abbrev wanted : HttpRequest
wanted = record {
  method = 1;
  version = 17;
  close = true;
  path = codes "/";
  query = [];
  fragment = [];
  body = [];
  headers = [];
  params = [];
  cookies = [];
}

do_request-Exchanged_example :
    Exchanged accept_one reply (λ s. s) wanted [] (do_request accept_one reply 99 dialled wanted)
unfolding request_dump request_line request_end http_method_to_string version_text connection_text
    print_headers print_field decimal
do_request-Exchanged_example =
    do_request-Exchanged accept_one reply (λ s. s) 99 dialled wanted accept_one-IsSink refl refl
      refl (omega arith) (omega arith)
