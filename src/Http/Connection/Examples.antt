-- ===== src/Http/Connection/Examples.antt =====
-- A chunk of three bytes, one of them in the buffer.
use mingfwq.Prelude.{
  ℕ, refl, sym, arith, true, false, Option, none, some, List, [], ◌∷◌, take, drop, length-take,
  take-append-drop,
}
use mingfwq.Stream.Reading.{IsSource}
use mingfwq.Http.Response.{make_http_response}
use mingfwq.Http.Connection.{Parser, take_chunk}
use mingfwq.Http.Connection.Chunks.{Cut, take_chunk-Cut}

abbrev feed : List ℕ → ℕ → Option (List ℕ) × List ℕ
feed s n = (some (take n s), drop n s)

feed-IsSource : IsSource feed (λ s. s)
feed-IsSource s n = (take n s, refl, omega (arith, length-take n s), sym (take-append-drop n s))

abbrev three_bytes : Parser ℕ
three_bytes = record {
  init = λ p. 0;
  step = λ p buffer len. (0, p);
  finished = λ p. true;
  broken = λ p. false;
  response = λ p. make_http_response 17 true;
  chunked = λ p. true;
  chunks_done = λ p. false;
  content_len = λ p. 3;
  lexical_cast = λ v. none;
}

take_chunk-Cut_example :
    Cut
      (λ s. s)
      3
      (5 ∷ [])
      (1 ∷ [])
      (6 ∷ 7 ∷ 8 ∷ [])
      (take_chunk three_bytes feed 4 2 0 (5 ∷ 0 ∷ 0 ∷ []) 1 (1 ∷ []) (6 ∷ 7 ∷ 8 ∷ []))
take_chunk-Cut_example =
    take_chunk-Cut three_bytes feed (λ s. s) feed-IsSource 4 2 0 (5 ∷ 0 ∷ 0 ∷ []) 1 (1 ∷ [])
      (6 ∷ 7 ∷ 8 ∷ []) (omega arith) (omega arith)
