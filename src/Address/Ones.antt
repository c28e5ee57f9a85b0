-- ===== src/Address/Ones.antt =====
-- CountBytes of mingfwq/address.cpp counts the ones of a number.
use mingfwq.Prelude.{
  ℕ, zero, suc, ◌+◌, ◌-◌, ◌*◌, ◌/◌, ◌%◌, ◌^◌, ◌≤◌, ◌<◌, ◌≡◌, refl, sym, ap, ◌∙◌, inl, inr, bit_and,
  some, arith, ◌==◌, Bool-cases,
}
use native.Mathlib.Nat.{pow-suc}
use mingfwq.Prelude.Bits.{bit_and_digit}
use mingfwq.Address.{count_loop, count_bytes}

-- The ones among the lowest binary digits of a number.
abbrev pub ones : ℕ → ℕ → ℕ
ones zero v = 0
ones (suc w) v = v % 2 + ones w (v / 2)

bit_and_self : (w v : ℕ) → v < 2 ^ w → bit_and v v ≡ v
bit_and_self zero v h =
    let none_left : v ≡ 0 = omega (arith, h) in ap (λ n. bit_and n n) none_left ∙ sym none_left
bit_and_self (suc w) v h =
    omega (arith, bit_and_digit v v, bit_and_self w (v / 2) (omega (arith, h, pow-suc 2 w)))

-- Twice a number has the ones of the number.
ones_twice : (w m u : ℕ) → m ≡ u * 2 → ones (suc w) m ≡ ones w u
ones_twice w m u e =
    let low : m % 2 ≡ 0 = omega (arith, e) in
    let high : m / 2 ≡ u = omega (arith, e) in rw (low, high) (omega arith)

-- value & (value - 1) of an odd value, and of an even one.
clear_odd : (w v : ℕ) → v % 2 ≡ 1 → v < 2 ^ suc w → bit_and v (v - 1) ≡ v / 2 * 2
clear_odd w v o h =
    let half : (v - 1) / 2 ≡ v / 2 = omega (arith, o) in
    let itself : bit_and (v / 2) ((v - 1) / 2) ≡ v / 2 =
      ap (bit_and (v / 2)) half ∙ bit_and_self w (v / 2) (omega (arith, h, pow-suc 2 w)) in
    omega (arith, o, bit_and_digit v (v - 1), itself)

clear_even : (v : ℕ) → v % 2 ≡ 0 → 0 < v → bit_and v (v - 1) ≡ bit_and (v / 2) (v / 2 - 1) * 2
clear_even v o p =
    let half : (v - 1) / 2 ≡ v / 2 - 1 = omega (arith, o) in
    let below : bit_and (v / 2) ((v - 1) / 2) ≡ bit_and (v / 2) (v / 2 - 1) =
      ap (bit_and (v / 2)) half in
    omega (arith, o, bit_and_digit v (v - 1), below)

-- value & (value - 1) has a one less.
ones-bit_and :
    (w v : ℕ)
    → 0 < v
    → v < 2 ^ w
    → (suc (ones w (bit_and v (v - 1))) ≡ ones w v) × (bit_and v (v - 1) < v)
ones-bit_and zero v p h = absurd (omega (arith, p, h))
ones-bit_and (suc w) v p h = elim (Bool-cases (v % 2 == 0)) [
  | inl even ↦
      let o : v % 2 ≡ 0 = ground (arith, even) in
      let rest = ones-bit_and w (v / 2) (omega (arith, o, p)) (omega (arith, h, pow-suc 2 w)) in
      let e = clear_even v o p in
      (
        omega (arith, o, rest.0, ones_twice w (bit_and v (v - 1)) (bit_and (v / 2) (v / 2 - 1)) e),
        omega (arith, o, rest.1, e),
      )
  | inr odd ↦
      let o : v % 2 ≡ 1 = ground (arith, odd) in
      let e = clear_odd w v o h in
      (omega (arith, o, ones_twice w (bit_and v (v - 1)) (v / 2) e), omega (arith, o, e))
]

ones-zero : (w : ℕ) → ones w 0 ≡ 0
ones-zero zero = refl
ones-zero (suc w) = omega (arith, ones-zero w)

ones-le : (w v : ℕ) → ones w v ≤ w
ones-le zero v = omega arith
ones-le (suc w) v = omega (arith, ones-le w (v / 2))

count_loop-ones :
    (w fuel v result : ℕ)
    → v < 2 ^ w
    → ones w v < fuel
    → count_loop fuel v result ≡ some (result + ones w v)
unfolding count_loop
count_loop-ones w zero v result h f = absurd (omega (arith, f))
count_loop-ones w (suc fuel) v result h f = elim (Bool-cases (v == 0)) [
  | inl z ↦
      let none_left : v ≡ 0 = ground (arith, z) in
      rw (count_loop, z) (ap some (omega (arith, ap (ones w) none_left, ones-zero w)))
  | inr n ↦
      let one_less = ones-bit_and w v (ground (arith, n)) h in
      rw (count_loop, n)
        (count_loop-ones w fuel (bit_and v (v - 1)) (result + 1) (omega (arith, h, one_less.1))
            (omega (arith, f, one_less.0))
          ∙ ap some (omega (arith, one_less.0)))
]

-- CountBytes counts the ones of a value of w bits, in a round for each, and returns.
pub count_bytes-ones : (w v fuel : ℕ) → v < 2 ^ w → w < fuel → count_bytes fuel v ≡ some (ones w v)
unfolding count_bytes
count_bytes-ones w v fuel h f =
    count_loop-ones w fuel v 0 h (omega (arith, f, ones-le w v)) ∙ ap some (omega arith)
