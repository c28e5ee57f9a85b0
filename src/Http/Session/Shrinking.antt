-- ===== src/Http/Session/Shrinking.antt =====
-- What recvRequest of mingfwq/http/http_session.cpp leaves to come, and what its parser may not do.
use mingfwq.Prelude.{
  ℕ, ◌+◌, ◌-◌, ◌^◌, ◌≤◌, ◌<◌, ◌≡◌, ◌||◌, inl, inr, false, Option, some, List, ltb, leb, ◌==◌,
  length, length-take, length-drop, length-replicate, take, drop, replicate, arith, Bool-cases,
}
use mingfwq.ByteArray.{overwrite}
use mingfwq.ByteArray.Chain.{length-overwrite}
use mingfwq.Stream.{Outcome, returned}
use mingfwq.Stream.Ending.{Ends, read_fix_size-Ends}
use mingfwq.Stream.Reading.{IsSource}
use mingfwq.Http.Request.{HttpRequest}
use mingfwq.Http.Incoming.{
  Reply, message, closed, overrun, unfinished, is_positive, memmove, fill_body, receive_body,
}
use mingfwq.Http.Session.{Parser, Head, parsed, stopped, set_body}

-- A parser on the successive reads of a head, from the state `start` on: it takes all bytes of each
-- while it is neither finished nor broken.
pub data Met {P : Type 0} (parser : Parser P) (start : P) : P → Type 0 where
  first : Met parser start start
  took :
      (p : P) (buffer : List ℕ) (len : ℕ)
      → Met parser start p
      → (parser.step p buffer len 0).0 ≡ len
      → Met parser start (parser.step p buffer len 0).1

-- On one of these reads it takes more bytes than there are, or leaves some although it is neither
-- finished nor broken.
pub data Misparses {P : Type 0} (parser : Parser P) (start : P) : Type 0 where
  takes_more :
      (p : P) (buffer : List ℕ) (len : ℕ)
      → Met parser start p
      → len < (parser.step p buffer len 0).0
      → Misparses parser start
  leaves_some :
      (p : P) (buffer : List ℕ) (len : ℕ)
      → Met parser start p
      → (parser.step p buffer len 0).0 < len
      → parser.broken (parser.step p buffer len 0).1 ≡ false
      → parser.finished (parser.step p buffer len 0).1 ≡ false
      → Misparses parser start

module _ {S : Type 0} (pending : S → List ℕ) (Excuse : Type 0) where
  -- The reply came, and a message left fewer than `n` bytes to come; a call leaves the buffer only
  -- with an excuse.
  abbrev pub Shrinks : ℕ → Reply HttpRequest S → Type 0
  Shrinks n (message m s) = length (pending s) < n
  Shrinks n (closed s) = Unit
  Shrinks n overrun = Excuse
  Shrinks n unfinished = ⊥

  abbrev pub HeadShrinks : {P : Type 0} → ℕ → Head P S → Type 0
  HeadShrinks n (parsed p buffer offset s) = length (pending s) < n
  HeadShrinks n (stopped r) = Shrinks n r

  fill_body-Shrinks :
      (n k : ℕ) (front : List ℕ) (m : HttpRequest) (o : Outcome S)
      → Ends pending k o
      → k < n
      → Shrinks n (fill_body set_body front m o)
  unfolding fill_body
  fill_body-Shrinks n k front m (returned rt back s) e l =
      elim (Bool-cases ((rt == 0) || leb (2 ^ 31) rt)) [
        | inl q ↦ rw (fill_body, q) tt
        | inr q ↦ rw (fill_body, q) (omega (arith, e, l))
      ]
  fill_body-Shrinks n k front m Outcome.overrun e l = absurd e
  fill_body-Shrinks n k front m Outcome.unfinished e l = absurd e

  pub receive_body-Shrinks :
      (read : S → ℕ → Option (List ℕ) × S) (n fuel total : ℕ) (buffer : List ℕ) (offset : ℕ)
      (m : HttpRequest) (s : S)
      → IsSource read pending
      → length (pending s) < fuel
      → length (pending s) < n
      → Shrinks n (receive_body read set_body fuel total buffer offset m s)
  unfolding receive_body
  receive_body-Shrinks read n fuel total buffer offset m s source f l =
      elim (Bool-cases (is_positive total)) [
        | inr p ↦ rw (receive_body, p) l
        | inl p ↦ elim (Bool-cases (ltb offset total)) [
          | inr q ↦ rw (receive_body, p, q) l
          | inl q ↦
              rw (receive_body, p, q)
                (fill_body-Shrinks n (length (pending s)) (take offset buffer) m _
                  (read_fix_size-Ends read pending source fuel (total - offset)
                    (replicate (total - offset) 0) s f
                    (omega (arith, length-replicate {A = ℕ} (total - offset) 0))
                    (ground (arith, p)))
                  l)
        ]
      ]

pub memmove_inside :
    (buffer : List ℕ) (from count : ℕ)
    → from + count ≤ length buffer
    → (moved : List ℕ) × (memmove buffer from count ≡ some moved) × (length moved ≡ length buffer)
unfolding memmove
memmove_inside buffer from count h = (
  overwrite buffer 0 (take count (drop from buffer)),
  ground (arith, h),
  length-overwrite buffer (take count (drop from buffer)) 0
      (omega (arith, length-take count (drop from buffer), length-drop from buffer, h)),
)
