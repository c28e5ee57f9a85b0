-- ===== src/Http/Client.antt =====
-- The requests of mingfwq/http/http_connection.cpp: how HttpConnection and HttpConnectionPool make a
-- request of a URI and a map of headers, send it and wait for the response.
--
-- The stream's `write` and the method recvResponse, which answers a null pointer with `none`, are
-- parameters. The text of an error is left out of a result. A result is `none` where the fuel of
-- writeFixSize is used up.
mod Examples
pub mod Making
pub mod Exchange
use mingfwq.Prelude.{
  is_empty, ℕ, ◌^◌, Bool, true, false, not, ◌||◌, Option, none, some, List, [], ◌∷◌, leb, ◌==◌,
  if◌then◌else◌, length, codes,
}
use mingfwq.Uri.{Uri, get_path, target}
use mingfwq.Stream.{Outcome, returned, overrun, unfinished, write_fix_size}
use mingfwq.Http.{Field, strcasecmp}
use mingfwq.Http.Printing.{is_eq, is_connection}
use mingfwq.Http.Request.{HttpRequest, make_http_request, set_header, request_dump}
use mingfwq.Http.Response.{HttpResponse}

-- HttpResult::Error
pub data Error : Type 0 where
  ok invalid_url invalid_host connect_fail send_close_by_peer send_socket_error timeout : Error
  create_socket_error pool_get_connection pool_invalid_connection : Error

pub record HttpResult : Type 0 where
  pub result : Error
  pub response : Option HttpResponse

abbrev pub failed : Error → HttpResult
failed e = record { result = e; response = none }

-- strcasecmp(name, "keep-alive") == 0 and strcasecmp(name, "host") == 0
pub is_keep_alive : List ℕ → Bool
is_keep_alive name = is_eq (strcasecmp name (codes "keep-alive"))

pub is_host : List ℕ → Bool
is_host name = is_eq (strcasecmp name (codes "host"))

-- A round of the loop over the headers, from has_host and the request.
unfoldable pub add_header : Field → Bool × HttpRequest → Bool × HttpRequest
unfolding is_keep_alive is_host
add_header i (has_host, req) =
    if is_connection i.name
    then (if is_keep_alive i.name
        then (has_host, record req { close = false })
        else (has_host, req))
    else (
      if not has_host || is_host i.name then not (is_empty i.value) else has_host,
      set_header i.name i.value req,
    )

pub add_headers : List Field → Bool × HttpRequest → Bool × HttpRequest
unfolding add_header
add_headers [] state = state
add_headers (i ∷ headers) state = add_headers headers (add_header i state)

-- The request before the loop over the headers.
pub uri_request : ℕ → Uri → HttpRequest
uri_request method uri = record {
  method = method;
  version = 17;
  close = true;
  path = get_path uri;
  query = uri.query;
  fragment = uri.fragment;
  body = [];
  headers = [];
  params = [];
  cookies = [];
}

-- What follows the loop: the host, where no has_host was found, and the body.
pub add_host : List ℕ → List ℕ → List ℕ → Bool × HttpRequest → HttpRequest
add_host name host body (has_host, req) =
    record (if has_host then req else set_header name host req) { body = body }

-- The request that HttpConnection::DoRequest makes of a method and a URI.
pub make_request : ℕ → Uri → List Field → List ℕ → HttpRequest
unfolding add_headers uri_request add_host
make_request method uri headers body =
    add_host (codes "Host") uri.host body (add_headers headers (false, uri_request method uri))

-- The request that HttpConnectionPool::doRequest makes of a method and a path.
pub make_pool_request : List ℕ → List ℕ → ℕ → List ℕ → List Field → List ℕ → HttpRequest
unfolding add_headers add_host
make_pool_request host vhost method url headers body =
    add_host (codes "host") (if is_empty vhost then host else vhost) body (
      add_headers headers
        (false, record (make_http_request 17 true) { path = url; method = method; close = false }))

-- The request that HttpConnectionPool::doRequest makes of a URI: its path is the whole target.
pub make_pool_uri_request : List ℕ → List ℕ → ℕ → Uri → List Field → List ℕ → HttpRequest
unfolding make_pool_request
make_pool_uri_request host vhost method uri headers body =
    make_pool_request host vhost method (target uri) headers body

-- How the address, the socket and the connection come about.
pub record Dial (S : Type 0) : Type 0 where
  pub address : Bool
  pub created : Bool
  pub connected : Bool
  pub stream : S

module _ {S : Type 0} (write : S → List ℕ → Option ℕ × S)
    (recv_response : S → Option HttpResponse × S) where
  -- sendRequest
  pub send_request : ℕ → HttpRequest → S → Outcome S
  send_request fuel req s =
      let text = request_dump req in write_fix_size write fuel (length text) text s

  -- What follows sendRequest in both functions: its int as its bits.
  pub finish_request : Outcome S → Option (HttpResult × S)
  finish_request (returned rt text s) =
      if rt == 0
      then some (failed send_close_by_peer, s)
      else if leb (2 ^ 31) rt
      then some (failed send_socket_error, s)
      else let r = recv_response s in
        elim r.0 [
          | none ↦ some (failed timeout, r.1)
          | some res ↦ some (record { result = ok; response = some res }, r.1)
        ]
  finish_request overrun = none
  finish_request unfinished = none

  -- HttpConnection::DoRequest of a request.
  pub do_request : ℕ → Dial S → HttpRequest → Option (HttpResult × S)
  unfolding send_request finish_request
  do_request fuel dial req =
      if not dial.address
      then some (failed invalid_host, dial.stream)
      else if not dial.created
      then some (failed create_socket_error, dial.stream)
      else if not dial.connected
      then some (failed connect_fail, dial.stream)
      else finish_request (send_request fuel req dial.stream)

  -- HttpConnection::DoRequest of a URL, which DoGet and DoPost call; `create` is Uri::Create.
  pub do_url_request :
      (List ℕ → Option Uri)
      → ℕ
      → Dial S
      → ℕ
      → List ℕ
      → List Field
      → List ℕ
      → Option (HttpResult × S)
  unfolding do_request
  do_url_request create fuel dial method url headers body = elim (create url) [
    | none ↦ some (failed invalid_url, dial.stream)
    | some uri ↦ do_request fuel dial (make_request method uri headers body)
  ]

  -- HttpConnectionPool::doRequest of a request, over the stream of the connection that
  -- getConnection lends, with whether its socket is there.
  pub pool_do_request : ℕ → Option (Bool × S) → S → HttpRequest → Option (HttpResult × S)
  unfolding send_request finish_request
  pool_do_request fuel none s req = some (failed pool_get_connection, s)
  pool_do_request fuel (some (sock, conn)) s req =
      if not sock
      then some (failed pool_invalid_connection, conn)
      else finish_request (send_request fuel req conn)
