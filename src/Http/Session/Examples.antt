-- ===== src/Http/Session/Examples.antt =====
-- A session over a parser that takes a head of one byte and over a stream of three.
use mingfwq.Prelude.{
  bytes_order, ℕ, refl, sym, arith, true, false, Option, some, List, [], ◌∷◌, take, drop,
  length-take, take-append-drop, codes,
}
use mingfwq.Stream.Reading.{IsSource}
use mingfwq.Http.{case_insensitive_less, strcasecmp, folded, c_str, to_lower}
use mingfwq.Http.Request.{HttpRequest, make_http_request}
use mingfwq.Http.Incoming.{memmove}
use mingfwq.Http.Incoming.Bodies.{BodyReply}
use mingfwq.Http.Session.{
  Parser, set_body, execute, parse_head, receive_head, recv_request, get_content_length,
}
use mingfwq.Http.Session.Heads.{recv_request-BodyReply}

abbrev feed : List ℕ → ℕ → Option (List ℕ) × List ℕ
feed s n = (some (take n s), drop n s)

feed-IsSource : IsSource feed (λ s. s)
feed-IsSource s n = (take n s, refl, omega (arith, length-take n s), sym (take-append-drop n s))

abbrev two_bytes : HttpRequest
two_bytes = record (make_http_request 17 true) {
  headers = record { name = codes "content-length"; value = codes "2" } ∷ [];
}

abbrev one_byte_head : Parser HttpRequest
one_byte_head = record {
  step = λ p buffer len off. (1, two_bytes);
  finished = λ p. true;
  broken = λ p. false;
  request = λ p. p;
  lexical_cast = λ v. some 2;
}

abbrev fresh : HttpRequest
fresh = make_http_request 17 true

recv_request-BodyReply_example :
    BodyReply set_body
      (λ s. s)
      (get_content_length one_byte_head feed two_bytes)
      (8 ∷ 8 ∷ [])
      1
      two_bytes
      (9 ∷ [])
      (recv_request one_byte_head feed 9 2 fresh (7 ∷ 8 ∷ 9 ∷ []))
unfolding receive_head parse_head execute memmove get_content_length case_insensitive_less
    strcasecmp bytes_order folded c_str to_lower
recv_request-BodyReply_example =
    recv_request-BodyReply one_byte_head feed (λ s. s) feed-IsSource 9 2 fresh two_bytes
      (8 ∷ 8 ∷ []) 1 (7 ∷ 8 ∷ 9 ∷ []) (9 ∷ []) refl (omega arith) (omega arith)
