-- ===== src/Http/Server/Serving.antt =====
-- handleClient of mingfwq/http/http_server.cpp over recvRequest and sendResponse.
use mathlib.Core.Option
use mingfwq.Prelude.{
  ℕ, ◌+◌, ◌^◌, ◌<◌, ◌≡◌, true, false, not, ◌||◌, Option, none, some, List, [], ◌∷◌, ◌++◌, length,
  codes,
}
use mingfwq.Stream.{Outcome}
use mingfwq.Stream.Reading.{IsSource}
use mingfwq.Stream.Whole.{IsOpen}
use mingfwq.Servlet.{get_matched_servlet}
use mingfwq.Http.Request.{HttpRequest}
use mingfwq.Http.Response.{HttpResponse, response_dump}
use mingfwq.Http.Incoming.{Reply, message, closed}
use mingfwq.Http.Session.{Parser, recv_request, send_response}
use mingfwq.Http.Session.Shrinking.{Misparses}
use mingfwq.Http.Server.{HttpServer}

-- What a servlet, if there is one, makes of the response.
abbrev pub served : (ℕ → HttpResponse → HttpResponse) → Option ℕ → HttpResponse → HttpResponse
served serve none res = res
served serve (some s) res = serve s res

-- The answer to a request: OK in the version of the request, from this server, as the servlet of
-- its path completes it; to be closed if the request says so or the server keeps no connections.
abbrev pub answer : HttpServer → HttpRequest → HttpResponse
answer server req =
    served (server.serve req) (get_matched_servlet req.path server.dispath) (record {
      status = 200;
      version = req.version;
      close = req.close || not server.is_keepalive;
      body = [];
      reason = [];
      headers = record { name = codes "Server"; value = server.name } ∷ [];
    })

module _ {S : Type 0} (recv : S → Reply HttpRequest S) (sent pending : S → List ℕ) where
  -- The bytes that go out between `s` and the end: each request is received and answered in full
  -- before the next one is received; the last one is the first where the server keeps no
  -- connections, and otherwise that behind which recvRequest gives a null pointer.
  pub data Served (server : HttpServer) : S → S → Type 0 where
    ended : (s s' : S) → recv s ≡ closed s' → Served server s s'
    last :
        (s s1 s2 : S) (req : HttpRequest)
        → recv s ≡ message req s1
        → sent s2 ≡ sent s1 ++ response_dump (answer server req)
        → pending s2 ≡ pending s1
        → server.is_keepalive ≡ false
        → Served server s s2
    next :
        (s s1 s2 s' : S) (req : HttpRequest)
        → recv s ≡ message req s1
        → sent s2 ≡ sent s1 ++ response_dump (answer server req)
        → pending s2 ≡ pending s1
        → server.is_keepalive ≡ true
        → Served server s2 s'
        → Served server s s'

module _ {P S : Type 0} (parser : Parser P) (start : P) (read : S → ℕ → Option (List ℕ) × S)
    (write : S → List ℕ → Option ℕ × S) (sent pending : S → List ℕ) (source : IsSource read pending)
    (takes : IsOpen write sent pending) (parses : Misparses parser start → ⊥) (bound buff_size : ℕ)
    (server : HttpServer)
    (small : (req : HttpRequest) → length (response_dump (answer server req)) < 2 ^ 63) where
  recv : S → Reply HttpRequest S
  recv s = recv_request parser read (bound + 1) buff_size start s

  send : HttpResponse → S → Outcome S
  send res s = send_response write (2 ^ 63) res s
