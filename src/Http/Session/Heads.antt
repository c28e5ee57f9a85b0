-- ===== src/Http/Session/Heads.antt =====
-- recvRequest of mingfwq/http/http_session.cpp over a stream that does not fail.
use mingfwq.Prelude.{ℕ, ◌^◌, ◌<◌, ◌≡◌, Option, List, replicate}
use mingfwq.Stream.Reading.{IsSource}
use mingfwq.Http.Incoming.Bodies.{BodyReply, receive_body-BodyReply}
use mingfwq.Http.Session.{
  Parser, parsed, set_body, get_content_length, receive_head, finish_head, recv_request,
}

module _ {P S : Type 0} (parser : Parser P) (read : S → ℕ → Option (List ℕ) × S)
    (pending : S → List ℕ) (source : IsSource read pending) where
  -- Over a stream that does not fail, where the loop over the head parses one with a
  -- content-length below 2^31 and the fuel: recvRequest returns the request of the parser as it is
  -- if the buffer already has as many bytes as the content-length says; else the request with the
  -- buffered bytes and the next ones of the stream as its body, as many as the content-length in
  -- all, or a null pointer if the stream ends first.
  pub recv_request-BodyReply :
      (fuel buff_size : ℕ) (p p' : P) (buffer : List ℕ) (offset : ℕ) (s s' : S)
      → receive_head parser read fuel buff_size p (replicate buff_size 0) 0 s
        ≡ parsed p' buffer offset s'
      → get_content_length parser read p' < 2 ^ 31
      → get_content_length parser read p' < fuel
      → BodyReply set_body pending
          (get_content_length parser read p')
          buffer
          offset
          (parser.request p')
          s'
          (recv_request parser read fuel buff_size p s)
  unfolding recv_request finish_head
  recv_request-BodyReply fuel buff_size p p' buffer offset s s' e b f = rw e (
      receive_body-BodyReply set_body pending read fuel (get_content_length parser read p') buffer
        offset (parser.request p') s' source b f)
