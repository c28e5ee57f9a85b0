-- ===== src/Http/Server.antt =====
-- HttpServer::handleClient of mingfwq/http/http_server.cpp: the requests of one client, one after the
-- other, over recvRequest, the dispatcher and sendResponse.
--
-- `recv` is recvRequest of the session, `send` sendResponse and `close` its close; what a servlet
-- does to the response of a request is a parameter. The result `none` is a call that leaves its
-- buffer or the fuel used up. The fuel is a round for each request.
pub mod Serving
mod Examples
use mingfwq.Prelude.{ℕ, zero, suc, Bool, true, false, not, ◌||◌, Option, none, some, List, codes}
use mathlib.Core.Option
use mingfwq.Stream.{Outcome, returned, overrun, unfinished}
use mingfwq.Servlet.{ServletDispath, handle}
use mingfwq.Http.Request.{HttpRequest}
use mingfwq.Http.Response.{HttpResponse, make_http_response, set_response_header}
use mingfwq.Http.Incoming.{Reply, message, closed}

pub record HttpServer : Type 0 where
  pub is_keepalive : Bool
  pub name : List ℕ
  pub dispath : ServletDispath
  pub serve : HttpRequest → ℕ → HttpResponse → HttpResponse

-- The response to a request.
unfoldable pub respond : HttpServer → HttpRequest → HttpResponse
respond server req = handle (server.serve req) req.path server.dispath (
    set_response_header (codes "Server") server.name
      (make_http_response req.version (req.close || not server.is_keepalive)))

-- while (m_isKeepalive), behind a response that was sent.
abbrev pub go_on : {S : Type 0} → Bool → S → Option S → Option S
go_on true s rest = rest
go_on false s rest = some s

module _ {S : Type 0} (recv : S → Reply HttpRequest S) (send : HttpResponse → S → Outcome S) where
  -- The loop of handleClient, up to its break or the end of its condition.
  pub client_loop : ℕ → HttpServer → S → Option S
  unfolding respond
  client_loop zero server s = none
  client_loop (suc fuel) server s = elim (recv s) [
    | closed s' ↦ some s'
    | Reply.overrun ↦ none
    | Reply.unfinished ↦ none
    | message req s' ↦ elim (send (respond server req) s') [
      | overrun ↦ none
      | unfinished ↦ none
      | returned rt text s'' ↦ go_on server.is_keepalive s'' (client_loop fuel server s'')
    ]
  ]

  -- handleClient
  pub handle_client : (S → S) → ℕ → HttpServer → S → Option S
  unfolding client_loop
  handle_client close fuel server s = Option.map close (client_loop fuel server s)
