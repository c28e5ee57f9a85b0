-- ===== src/Http/Connection.antt =====
-- HttpConnection::recvResponse of mingfwq/http/http_connection.cpp over HttpResponseParser of
-- mingfwq/http/http_parser.cpp.
--
-- The state `P` of a parser is that of the generated machine with the response that its callbacks
-- fill: `init` is httpclient_parser_init, `step` httpclient_parser_execute, from the buffer and the
-- length to the number of bytes, `finished` httpclient_parser_finish, `broken` hasError and
-- `response` getData. The int members and offsets are not negative. The buffer has a byte more
-- than `buff_size`.
mod Examples
pub mod Chunks
use mingfwq.Prelude.{
  ℕ, zero, suc, ◌+◌, ◌-◌, Bool, true, false, Option, none, some, List, [], ◌∷◌, ◌++◌, ltb, leb, min,
  ◌==◌, if◌then◌else◌, length, take, replicate, codes,
}
use mingfwq.ByteArray.{overwrite}
use mingfwq.Http.{get_as}
use mingfwq.Http.Response.{HttpResponse}
use mingfwq.Http.Incoming.{
  Reply, message, closed, overrun, unfinished, on_bytes, memmove, receive_body,
}

pub record Parser (P : Type 0) : Type 0 where
  pub init : P → P
  pub step : P → List ℕ → ℕ → ℕ × P
  pub finished : P → Bool
  pub broken : P → Bool
  pub response : P → HttpResponse
  pub chunked : P → Bool
  pub chunks_done : P → Bool
  pub content_len : P → ℕ
  pub lexical_cast : List ℕ → Option ℕ

-- A parsed head with what is left in the buffer and how much, or the end of the loop without one.
pub data Head (P S : Type 0) : Type 0 where
  parsed : P → List ℕ → ℕ → S → Head P S
  stopped : Reply HttpResponse S → Head P S

-- The bytes of a chunk so far, with the buffer and how much is left in it.
pub data Chunk (S : Type 0) : Type 0 where
  taken : List ℕ → List ℕ → ℕ → S → Chunk S
  failed : Reply HttpResponse S → Chunk S

-- setBody
abbrev pub set_body : List ℕ → HttpResponse → HttpResponse
set_body body r = record r { body = body }

module _ {P S : Type 0} (parser : Parser P) (read : S → ℕ → Option (List ℕ) × S) where
  -- HttpResponseParser::execute with chunck set: the machine starts anew.
  pub execute : P → List ℕ → ℕ → Option (ℕ × List ℕ × P)
  unfolding memmove
  execute p buffer len =
      let r = parser.step (parser.init p) buffer len in
      if ltb len r.0 then none else elim (memmove buffer r.0 (len - r.0)) [
        | none ↦ none
        | some moved ↦ some (r.0, moved, r.1)
      ]

  -- A round of the loops over a head after its read, which goes on with `again`: `len` bytes are
  -- in the buffer before it.
  pub parse_head : ℕ → P → List ℕ → ℕ → List ℕ → S → (P → List ℕ → ℕ → Head P S) → Head P S
  unfolding execute
  parse_head buff_size p buffer before bs s again =
      let len = before + length bs in
      elim (ltb buff_size len) [
        | true ↦ stopped overrun
        | false ↦ elim (execute p (overwrite (overwrite buffer before bs) len (0 ∷ [])) len) [
          | none ↦ stopped overrun
          | some e ↦
              if parser.broken e.2
              then stopped (closed s)
              else if len - e.0 == buff_size
              then stopped (closed s)
              else if parser.finished e.2
              then parsed e.2 e.1 (len - e.0) s
              else again e.2 e.1 (len - e.0)
        ]
      ]

  -- The loop over the head, and that over the head of a chunk.
  pub receive_head : ℕ → ℕ → P → List ℕ → ℕ → S → Head P S
  unfolding parse_head
  receive_head zero buff_size p buffer len s = stopped unfinished
  receive_head (suc fuel) buff_size p buffer len s =
      let r = read s (buff_size - len) in
      on_bytes r.0 (stopped (closed r.1)) (λ bs.
        parse_head buff_size p buffer len bs r.1
          (λ p' buffer' len'. receive_head fuel buff_size p' buffer' len' r.1))

  -- The loop that reads what is left of a chunk behind the buffer.
  pub read_left : ℕ → ℕ → ℕ → List ℕ → List ℕ → S → Chunk S
  read_left zero buff_size left buffer body s = failed unfinished
  read_left (suc fuel) buff_size left buffer body s = elim (left == 0) [
    | true ↦ taken body buffer 0 s
    | false ↦
        let r = read s (min left buff_size) in
        on_bytes r.0 (failed (closed r.1)) (λ bs.
          read_left fuel buff_size (left - length bs) (overwrite buffer 0 bs) (body ++ bs) r.1)
  ]

  -- A chunk of which `len` bytes are in the buffer.
  pub take_chunk : ℕ → ℕ → P → List ℕ → ℕ → List ℕ → S → Chunk S
  unfolding memmove read_left
  take_chunk fuel buff_size p buffer len body s =
      let size = parser.content_len p in
      elim (leb size len) [
        | true ↦ elim (memmove buffer size (len - size)) [
          | none ↦ failed overrun
          | some moved ↦ taken (body ++ take size buffer) moved (len - size) s
        ]
        | false ↦ read_left fuel buff_size (size - len) buffer (body ++ take len buffer) s
      ]

  -- The loop over the chunks, a round for each. Fewer than the two bytes that are passed over
  -- leave a negative length, which is outside the buffer.
  pub receive_chunks : ℕ → ℕ → P → List ℕ → ℕ → List ℕ → S → Reply HttpResponse S
  unfolding receive_head take_chunk
  receive_chunks zero buff_size p buffer len body s = unfinished
  receive_chunks (suc fuel) buff_size p buffer len body s =
      elim (receive_head (suc fuel) buff_size p buffer len s) [
        | stopped r ↦ r
        | parsed p' buffer' len' s' ↦ elim (ltb len' 2) [
          | true ↦ overrun
          | false ↦ elim (take_chunk (suc fuel) buff_size p' buffer' (len' - 2) body s') [
            | failed r ↦ r
            | taken body' buffer'' left s'' ↦ elim (parser.chunks_done p') [
              | true ↦ receive_chunks fuel buff_size p' buffer'' left body' s''
              | false ↦ message (set_body body' (parser.response p')) s''
            ]
          ]
        ]
      ]

  -- HttpResponseParser::getContentLength
  pub get_content_length : P → ℕ
  unfolding get_as
  get_content_length p =
      get_as parser.lexical_cast (parser.response p).headers (codes "content-length") 0

  -- What follows the loop over the head.
  pub finish_head : ℕ → ℕ → Head P S → Reply HttpResponse S
  unfolding receive_chunks get_content_length
  finish_head fuel buff_size (stopped r) = r
  finish_head fuel buff_size (parsed p buffer offset s) =
      if parser.chunked p
      then receive_chunks fuel buff_size p buffer offset [] s
      else receive_body read set_body fuel (get_content_length p) buffer offset (parser.response p)
          s

  -- recvResponse, from a new parser.
  pub recv_response : ℕ → ℕ → P → S → Reply HttpResponse S
  unfolding receive_head finish_head
  recv_response fuel buff_size p s =
      finish_head fuel buff_size (receive_head fuel buff_size p (replicate (suc buff_size) 0) 0 s)
