-- ===== src/Http/Incoming/Bodies.antt =====
-- The body that is received behind a head, over a stream that does not fail.
use mingfwq.Prelude.{
  ℕ, ◌+◌, ◌-◌, ◌^◌, ◌≤◌, ◌<◌, ◌≡◌, ap, ◌∙◌, inl, inr, true, Option, List, [], ◌++◌, ltb→lt, ltb,
  length, take, drop, drop-all, replicate, length-replicate, append-nil, arith, Bool-cases,
}
use mingfwq.Stream.{Outcome, returned, read_fix_size}
use mingfwq.Stream.Reading.{IsSource, Filled, read_fix_size-Filled}
use mingfwq.Http.Incoming.{Reply, message, closed, is_positive, fill_body, receive_body}

module _ {M S : Type 0} (set_body : List ℕ → M → M) (pending : S → List ℕ) where
  -- What becomes of a body of `total` bytes, the first `offset` of them in the buffer: without any
  -- to come, and only then, the message is as it was; else they are read and make up the body, or
  -- the stream ends first.
  pub data BodyReply (total : ℕ) (buffer : List ℕ) (offset : ℕ) (m : M) (s : S)
      : Reply M S → Type 0 where
    kept : total ≤ offset → BodyReply total buffer offset m s (message m s)
    filled :
        (back : List ℕ) (after : S)
        → offset < total
        → offset + length back ≡ total
        → pending s ≡ back ++ pending after
        → BodyReply total buffer offset m s
            (message (set_body (take offset buffer ++ back) m) after)
    short :
        (got : List ℕ) (after : S)
        → offset + length got < total
        → pending s ≡ got ++ pending after
        → BodyReply total buffer offset m s (closed after)

  filled_back :
      (n : ℕ) (more : List ℕ) → length more ≡ n → more ++ drop (length more) (replicate n 0) ≡ more
  filled_back n more e =
      ap (λ l. more ++ l)
        (drop-all (length more) (replicate n 0) (omega (arith, e, length-replicate {A = ℕ} n 0)))
      ∙ append-nil more

  fill_body-message :
      (front back : List ℕ) (rt : ℕ) (m : M) (s : S)
      → 0 < rt
      → rt < 2 ^ 31
      → fill_body set_body front m (returned rt back s) ≡ message (set_body (front ++ back) m) s
  unfolding fill_body
  fill_body-message front back rt m s p q = ground (arith, p, q)

  fill_body-BodyReply :
      (total : ℕ) (buffer : List ℕ) (offset : ℕ) (m : M) (s : S) (o : Outcome S)
      → offset < total
      → total < 2 ^ 31
      → Filled pending (total - offset) [] (replicate (total - offset) 0) s o
      → BodyReply total buffer offset m s (fill_body set_body (take offset buffer) m o)
  unfolding fill_body
  fill_body-BodyReply total buffer offset m s o l b e = rw e.outcome (elim e.complete [
    | inl (count, all) ↦ rw (filled_back (total - offset) e.more (omega (arith, all))) (
        rw
          (fill_body-message (take offset buffer) e.more e.count m e.after (omega (arith, count, l))
            (omega (arith, count, b)))
          (filled e.more e.after l (omega (arith, all, l)) e.taken))
    | inr (count, some_left) ↦ rw count (short e.more e.after (omega (arith, some_left, l)) e.taken)
  ])

  pub receive_body-BodyReply :
      (read : S → ℕ → Option (List ℕ) × S) (fuel total : ℕ) (buffer : List ℕ) (offset : ℕ) (m : M)
      (s : S)
      → IsSource read pending
      → total < 2 ^ 31
      → total < fuel
      → BodyReply total buffer offset m s (receive_body read set_body fuel total buffer offset m s)
  unfolding receive_body
  receive_body-BodyReply read fuel total buffer offset m s source b f =
      elim (Bool-cases (ltb offset total)) [
        | inl l ↦
            let left : ℕ = total - offset in
            let positive : is_positive total ≡ true = ground (arith, l, b) in
            rw (positive, l)
              (fill_body-BodyReply total buffer offset m s
                (read_fix_size read fuel left (replicate left 0) s) (ltb→lt offset total l) b
                (read_fix_size-Filled read pending fuel left (replicate left 0) s source
                  (omega (arith, f)) (omega (arith, length-replicate {A = ℕ} left 0))
                  (omega (arith, b))))
        | inr l ↦ elim (Bool-cases (is_positive total)) [
          | inl p ↦ rw (p, l) (kept (ground (arith, l)))
          | inr p ↦ rw p (kept (ground (arith, l)))
        ]
      ]
