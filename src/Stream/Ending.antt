-- ===== src/Stream/Ending.antt =====
-- readFixSize of mingfwq/stream.cpp ends over a stream that does not fail, whatever its length.
use mingfwq.Prelude.{
  ℕ, zero, suc, ◌+◌, ◌-◌, ◌^◌, ◌≤◌, ◌<◌, ◌≡◌, ap, arith, false, inl, inr, Option, List, ltb, ◌==◌,
  length, length-append, Bool-cases,
}
use mingfwq.ByteArray.{overwrite}
use mingfwq.ByteArray.Chain.{length-overwrite}
use mingfwq.Stream.{Outcome, returned, overrun, unfinished, add64, sub64, read_loop, read_fix_size}
use mingfwq.Stream.Reading.{IsSource}

-- The loop returned, with at most `n` bytes to come.
abbrev pub Ends : {S : Type 0} → (S → List ℕ) → ℕ → Outcome S → Type 0
Ends pending n (returned rt buffer s) = length (pending s) ≤ n
Ends pending n overrun = ⊥
Ends pending n unfinished = ⊥

module _ {S : Type 0} (read : S → ℕ → Option (List ℕ) × S) (pending : S → List ℕ)
    (source : IsSource read pending) where
  read_loop-Ends :
      (fuel n total left offset : ℕ) (buffer : List ℕ) (s : S)
      → length (pending s) < fuel
      → length (pending s) ≤ n
      → offset + left ≤ length buffer
      → offset + left < 2 ^ 63
      → Ends pending n (read_loop read fuel total offset left buffer s)
  unfolding read_loop
  read_loop-Ends zero n total left offset buffer s f l r b = absurd (omega (arith, f))
  read_loop-Ends (suc fuel) n total left offset buffer s f l r b = elim (Bool-cases (left == 0)) [
    | inl z ↦ rw (read_loop, z) l
    | inr z ↦
        let (bs, p, short, next) = source s left in
        let s' = (read s left).1 in
        let parts : length (pending s) ≡ length bs + length (pending s') =
          omega (arith, ap length next, length-append bs (pending s')) in
        elim (Bool-cases (length bs == 0)) [
          | inl y ↦ rw (read_loop, z, p, y) (omega (arith, parts, l))
          | inr y ↦
              let some_bytes : 0 < length bs = ground (arith, y) in
              let fits : ltb (length buffer) (offset + length bs) ≡ false =
                ground (arith, short, r) in
              let at : add64 offset (length bs) ≡ offset + length bs = omega (arith, short, b) in
              let fewer : sub64 left (length bs) ≡ left - length bs = omega (arith, short, b) in
              rw (read_loop, z, p, y, fits, at, fewer)
                (read_loop-Ends fuel n total (left - length bs) (offset + length bs)
                  (overwrite buffer offset bs) s' (omega (arith, f, parts, some_bytes))
                  (omega (arith, l, parts))
                  (omega
                    (arith, length-overwrite buffer bs offset (omega (arith, short, r)), short, r))
                  (omega (arith, b, short)))
        ]
  ]

  pub read_fix_size-Ends :
      (fuel total : ℕ) (buffer : List ℕ) (s : S)
      → length (pending s) < fuel
      → total ≤ length buffer
      → total < 2 ^ 63
      → Ends pending (length (pending s)) (read_fix_size read fuel total buffer s)
  unfolding read_fix_size
  read_fix_size-Ends fuel total buffer s f l b =
      read_loop-Ends fuel (length (pending s)) total total 0 buffer s f (omega arith)
        (omega (arith, l)) (omega (arith, b))
