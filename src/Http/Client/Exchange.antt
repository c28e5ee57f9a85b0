-- ===== src/Http/Client/Exchange.antt =====
-- A request over a stream that does not fail: what mingfwq/http/http_connection.cpp makes of it.
use mingfwq.Prelude.{
  ℕ, ◌^◌, ◌<◌, ◌≡◌, ap, ◌∙◌, inl, inr, true, Option, none, some, List, ◌++◌, length, length-append,
  take, take-all, arith,
}
use mingfwq.Stream.{Outcome, returned, write_fix_size}
use mingfwq.Stream.Writing.{IsSink, Emptied, write_fix_size-Emptied}
use mingfwq.Http.Printing.{crlf}
use mingfwq.Http.Request.{HttpRequest, request_line, request_dump}
use mingfwq.Http.Response.{HttpResponse}
use mingfwq.Http.Client.{
  ok, send_close_by_peer, timeout, HttpResult, failed, send_request, finish_request, do_request,
  Dial,
}

-- What a response, or its absence, makes of a request that is sent.
abbrev pub answer : Option HttpResponse → HttpResult
answer none = failed timeout
answer (some res) = record { result = ok; response = some res }

line_pos : (l rest : List ℕ) → 0 < length (l ++ (crlf ++ rest))
line_pos l rest = omega (arith, length-append l (crlf ++ rest))

request_dump_pos : (r : HttpRequest) → 0 < length (request_dump r)
unfolding request_dump
request_dump_pos r = line_pos (request_line r) _

module _ {S : Type 0} (write : S → List ℕ → Option ℕ × S)
    (recv_response : S → Option HttpResponse × S) (sent : S → List ℕ) where
  -- The request went out whole and its response decides, or the peer closed before its end.
  pub data Exchanged (req : HttpRequest) (s : S) : Option (HttpResult × S) → Type 0 where
    answered :
        (whole : S)
        → sent whole ≡ sent s ++ request_dump req
        → Exchanged req s (some (answer (recv_response whole).0, (recv_response whole).1))
    cut :
        (part : S) (k : ℕ)
        → k < length (request_dump req)
        → sent part ≡ sent s ++ take k (request_dump req)
        → Exchanged req s (some (failed send_close_by_peer, part))

  finish_request-answer :
      (rt : ℕ) (buffer : List ℕ) (s : S)
      → 0 < rt
      → rt < 2 ^ 31
      → finish_request write recv_response (returned rt buffer s)
        ≡ some (answer (recv_response s).0, (recv_response s).1)
  unfolding finish_request
  finish_request-answer rt buffer s p q = ground (arith, p, q)

  finish_request-Exchanged :
      (req : HttpRequest) (s : S) (o : Outcome S)
      → Emptied sent (length (request_dump req)) 0 (request_dump req) s o
      → length (request_dump req) < 2 ^ 31
      → Exchanged req s (finish_request write recv_response o)
  unfolding finish_request
  finish_request-Exchanged req s o e l = rw e.outcome (elim e.complete [
    | inl (all, whole) ↦
        rw
          (finish_request-answer e.count (request_dump req) e.after
            (omega (arith, all, request_dump_pos req)) (omega (arith, all, l)))
          (answered e.after (
            e.given
            ∙ ap (λ bs. sent s ++ bs) (take-all e.moved (request_dump req) (omega (arith, whole)))))
    | inr (none_left, part) ↦ rw none_left (cut e.after e.moved (omega (arith, part)) e.given)
  ])

  -- A request of less than 2^31 bytes, and less than the fuel, over a connected stream that does
  -- not fail: the call returns; the request went out whole and the result is OK with the response
  -- or a timeout without one, or the peer took only a part of it and the result says so.
  pub do_request-Exchanged :
      (fuel : ℕ) (dial : Dial S) (req : HttpRequest)
      → IsSink write sent
      → dial.address ≡ true
      → dial.created ≡ true
      → dial.connected ≡ true
      → length (request_dump req) < fuel
      → length (request_dump req) < 2 ^ 31
      → Exchanged req dial.stream (do_request write recv_response fuel dial req)
  unfolding do_request send_request
  do_request-Exchanged fuel dial req sink a c d f l =
      rw (a, c, d)
        (finish_request-Exchanged req dial.stream
          (write_fix_size write fuel (length (request_dump req)) (request_dump req) dial.stream)
          (write_fix_size-Emptied write sent fuel (length (request_dump req)) (request_dump req)
            dial.stream sink f (omega arith) l)
          l)
