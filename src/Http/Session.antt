-- ===== src/Http/Session.antt =====
-- HttpSession of mingfwq/http/http_session.cpp over HttpRequestParser of mingfwq/http/http_parser.cpp.
--
-- The state `P` of a parser is that of the generated machine with the request that its callbacks
-- fill: `step` is http_parser_execute, from the buffer, the length and the offset to the number of
-- bytes, `finished` http_parser_finish, `broken` hasError and `request` getData.
mod Examples
pub mod Heads
pub mod Shrinking
pub mod Requests
use mingfwq.Prelude.{
  ℕ, zero, suc, ◌+◌, ◌-◌, Bool, true, false, Option, none, some, List, [], ◌∷◌, ltb, leb, ◌==◌,
  if◌then◌else◌, length, replicate, codes,
}
use mingfwq.ByteArray.{overwrite}
use mingfwq.Stream.{Outcome, write_fix_size}
use mingfwq.Http.{get_as}
use mingfwq.Http.Request.{HttpRequest}
use mingfwq.Http.Response.{HttpResponse, response_dump}
use mingfwq.Http.Incoming.{
  Reply, message, closed, overrun, unfinished, on_bytes, memmove, receive_body,
}

pub record Parser (P : Type 0) : Type 0 where
  pub step : P → List ℕ → ℕ → ℕ → ℕ × P
  pub finished : P → Bool
  pub broken : P → Bool
  pub request : P → HttpRequest
  pub lexical_cast : List ℕ → Option ℕ

-- A parsed head, what is left in the buffer and how much, or the end of the loop without one.
pub data Head (P S : Type 0) : Type 0 where
  parsed : P → List ℕ → ℕ → S → Head P S
  stopped : Reply HttpRequest S → Head P S

-- setBody
abbrev pub set_body : List ℕ → HttpRequest → HttpRequest
set_body body r = record r { body = body }

module _ {P S : Type 0} (parser : Parser P) (read : S → ℕ → Option (List ℕ) × S) where
  -- HttpRequestParser::execute: the number of bytes, the buffer and the parser.
  pub execute : P → List ℕ → ℕ → ℕ → Option (ℕ × List ℕ × P)
  unfolding memmove
  execute p buffer len off =
      let r = parser.step p buffer len off in
      if ltb (len + off) r.0 then none else elim (memmove buffer (off + r.0) (len + off - r.0)) [
        | none ↦ none
        | some moved ↦ some (r.0, moved, r.1)
      ]

  -- HttpRequestParser::getContentLength
  pub get_content_length : P → ℕ
  unfolding get_as
  get_content_length p =
      get_as parser.lexical_cast (parser.request p).headers (codes "content-length") 0

  -- A round of the loop of recvRequest after its read, which goes on with `again`. A parser that
  -- takes more than was read leaves a negative offset, which is outside the buffer.
  pub parse_head : ℕ → P → List ℕ → ℕ → List ℕ → S → (P → List ℕ → ℕ → Head P S) → Head P S
  unfolding execute
  parse_head buff_size p buffer offset bs s again =
      elim (ltb (length buffer) (offset + length bs)) [
        | true ↦ stopped overrun
        | false ↦ elim (execute p (overwrite buffer offset bs) (length bs) offset) [
          | none ↦ stopped overrun
          | some e ↦
              if parser.broken e.2
              then stopped (closed s)
              else if ltb (length bs) e.0
              then stopped overrun
              else if length bs - e.0 == buff_size
              then stopped (closed s)
              else if parser.finished e.2
              then parsed e.2 e.1 (length bs - e.0) s
              else again e.2 e.1 (length bs - e.0)
        ]
      ]

  -- The loop of recvRequest over the head.
  pub receive_head : ℕ → ℕ → P → List ℕ → ℕ → S → Head P S
  unfolding parse_head
  receive_head zero buff_size p buffer offset s = stopped unfinished
  receive_head (suc fuel) buff_size p buffer offset s =
      let r = read s (buff_size - offset) in
      on_bytes r.0 (stopped (closed r.1)) (λ bs.
        parse_head buff_size p buffer offset bs r.1
          (λ p' buffer' offset'. receive_head fuel buff_size p' buffer' offset' r.1))

  -- What follows the loop.
  pub finish_head : ℕ → Head P S → Reply HttpRequest S
  unfolding get_content_length
  finish_head fuel (stopped r) = r
  finish_head fuel (parsed p buffer offset s) =
      receive_body read set_body fuel (get_content_length p) buffer offset (parser.request p) s

  -- recvRequest, from a new parser.
  pub recv_request : ℕ → ℕ → P → S → Reply HttpRequest S
  unfolding receive_head finish_head
  recv_request fuel buff_size p s =
      finish_head fuel (receive_head fuel buff_size p (replicate buff_size 0) 0 s)

module _ {S : Type 0} (write : S → List ℕ → Option ℕ × S) where
  -- sendResponse
  unfoldable pub send_response : ℕ → HttpResponse → S → Outcome S
  send_response fuel r s =
      let text = response_dump r in write_fix_size write fuel (length text) text s
