-- ===== src/Stream/Writing.antt =====
-- writeFixSize of mingfwq/stream.cpp over a stream that does not fail.
use mingfwq.Prelude.{
  ℕ, zero, suc, ◌+◌, ◌-◌, ◌^◌, ◌≤◌, ◌<◌, ◌≡◌, refl, sym, ap, ◌∙◌, arith, ◌⊎◌, inl, inr, Option,
  some, List, [], ◌∷◌, ◌++◌, ◌==◌, length, take, drop, length-take, take-take, append_assoc,
  append-nil, drop-drop, Bool-cases,
}
use mingfwq.Stream.{Outcome, returned, add64, sub64, write_loop, write_fix_size}

take_nil : {A : Type 0} (n : ℕ) → take {A = A} n [] ≡ []
take_nil zero = refl
take_nil (suc n) = refl

take-append_next :
    {A : Type 0} (n m : ℕ) (xs : List A) → take n xs ++ take m (drop n xs) ≡ take (n + m) xs
take-append_next zero m xs = ap (λ k. take k xs) {y = 0 + m} (omega arith)
take-append_next (suc n) m [] = take_nil m ∙ sym (take_nil (suc n + m))
take-append_next (suc n) m (x ∷ xs) =
    ap (λ l. x ∷ l) (take-append_next n m xs)
    ∙ ap (λ k. take k (x ∷ xs)) {x = suc (n + m)} (omega arith)

-- `write` takes a part of the bytes that it is offered, from the front.
abbrev pub IsSink : {S : Type 0} → (S → List ℕ → Option ℕ × S) → (S → List ℕ) → Type 0
IsSink {S} write sent =
    (s : S) (bs : List ℕ)
    → (n : ℕ) × ((write s bs).0 ≡ some n)
      × (n ≤ length bs)
      × (sent (write s bs).1 ≡ sent s ++ take n bs)

-- The loop returned `count` with `moved` bytes of the buffer sent, from `offset` on.
pub record Emptied {S : Type 0} (sent : S → List ℕ) (total offset : ℕ) (buffer : List ℕ) (s : S)
    (o : Outcome S) : Type 0 where
  pub count : ℕ
  pub moved : ℕ
  pub after : S
  pub outcome : o ≡ returned count buffer after
  pub given : sent after ≡ sent s ++ take moved (drop offset buffer)
  pub complete :
      ((count ≡ total) × (offset + moved ≡ total)) ⊎ ((count ≡ 0) × (offset + moved < total))

counted :
    {count total : ℕ} (offset n m : ℕ)
    → ((count ≡ total) × (offset + n + m ≡ total)) ⊎ ((count ≡ 0) × (offset + n + m < total))
    → ((count ≡ total) × (offset + (n + m) ≡ total)) ⊎ ((count ≡ 0) × (offset + (n + m) < total))
counted offset n m (inl (p, q)) = inl (p, omega (arith, q))
counted offset n m (inr (p, q)) = inr (p, omega (arith, q))

module _ {S : Type 0} (write : S → List ℕ → Option ℕ × S) (sent : S → List ℕ)
    (sink : IsSink write sent) where
  write_loop-Emptied :
      (fuel total left offset : ℕ) (buffer : List ℕ) (s : S)
      → left < fuel
      → offset + left ≡ total
      → total ≤ length buffer
      → total < 2 ^ 31
      → Emptied sent total offset buffer s (write_loop write fuel total offset left buffer s)
  unfolding write_loop
  write_loop-Emptied zero total left offset buffer s f e l b = absurd (omega (arith, f))
  write_loop-Emptied (suc fuel) total left offset buffer s f e l b = elim (Bool-cases (left == 0)) [
    | inl z ↦ record {
      count = total;
      moved = 0;
      after = s;
      outcome = rw (write_loop, z) (ap (λ k. returned k buffer s) {y = total} (omega (arith, b)));
      given = sym (append-nil (sent s));
      complete = inl (refl, ground (arith, z, e));
    }
    | inr z ↦
        let part = take left (drop offset buffer) in
        let (n, p, short, next) = sink s part in
        let s' = (write s part).1 in
        let size : n ≤ left = omega (arith, short, length-take left (drop offset buffer)) in
        let some_part : sent s' ≡ sent s ++ take n (drop offset buffer) =
          next ∙ ap (λ k. sent s ++ k) (take-take n left (drop offset buffer) size) in
        elim (Bool-cases (n == 0)) [
          | inl y ↦ record {
            count = 0;
            moved = n;
            after = s';
            outcome = rw (write_loop, z, p, y) refl;
            given = some_part;
            complete = inr (refl, ground (arith, y, z, e));
          }
          | inr y ↦
              let w =
                write_loop-Emptied fuel total (left - n) (offset + n) buffer s'
                  (ground (arith, f, y)) (omega (arith, e, size)) l b in
              let at : add64 offset n ≡ offset + n = omega (arith, e, size, b) in
              let fewer : sub64 left n ≡ left - n = omega (arith, size, e, b) in
              record {
                count = w.count;
                moved = n + w.moved;
                after = w.after;
                outcome = rw (write_loop, z, p, y, at, fewer) w.outcome;
                given =
                    w.given
                    ∙ rw (some_part, ← drop-drop n offset buffer)
                        (append_assoc (sent s) (take n (drop offset buffer))
                            (take w.moved (drop n (drop offset buffer)))
                          ∙ ap (λ k. sent s ++ k)
                              (take-append_next n w.moved (drop offset buffer)));
                complete = counted offset n w.moved w.complete;
              }
        ]
  ]

-- writeFixSize over a stream that does not fail ends after at most `total` writes. It gives back
-- `total` with the first `total` bytes of the buffer sent, in order, or, where the stream takes no
-- more, 0 with a part of them sent.
pub write_fix_size-Emptied :
    {S : Type 0} (write : S → List ℕ → Option ℕ × S) (sent : S → List ℕ) (fuel total : ℕ)
    (buffer : List ℕ) (s : S)
    → IsSink write sent
    → total < fuel
    → total ≤ length buffer
    → total < 2 ^ 31
    → Emptied sent total 0 buffer s (write_fix_size write fuel total buffer s)
unfolding write_fix_size
write_fix_size-Emptied write sent fuel total buffer s sink f l b =
    write_loop-Emptied write sent sink fuel total total 0 buffer s f (omega arith) l b
