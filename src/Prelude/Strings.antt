-- ===== src/Prelude/Strings.antt =====
-- Strings as lists of bytes, and their comparison.
use Prim.Native.Char.{code}
use Prim.Native.String.{String}
use Prim.Native.Nat.{ℕ, compare, Ordering}
use mathlib.Core.Logic.{◌↔◌}
use mathlib.Core.Path.{◌≡◌, refl, ap}
use mathlib.Core.Path.{ap₂}
use mathlib.Core.Bool.{Bool, true, false, ◌&&◌}
use mathlib.Core.List.{List, [], ◌∷◌}
use native.Mathlib.Omega.{arith}
use mingfwq.Prelude.Tests.{◌==◌}

-- The bytes of a literal.
abbrev pub codes : String → List ℕ
codes String.[] = []
codes (String.◌∷◌ c s) = code c ∷ codes s

-- s.empty()
abbrev pub is_empty : List ℕ → Bool
is_empty [] = true
is_empty (a ∷ s) = false

-- What stands before a part of a URI that is not empty.
abbrev pub mark : List ℕ → List ℕ → List ℕ
mark sign [] = []
mark sign (a ∷ s) = sign

-- a == b on std::string
abbrev pub same : List ℕ → List ℕ → Bool
same [] [] = true
same [] (b ∷ bs) = false
same (a ∷ s) [] = false
same (a ∷ s) (b ∷ bs) = (a == b) && same s bs

pub same_refl : (a : List ℕ) → same a a ≡ true
same_refl [] = refl
same_refl (a ∷ s) = ground (arith, same_refl s)

pub same→≡ : (a b : List ℕ) → same a b ≡ true → a ≡ b
same→≡ [] [] e = refl
same→≡ [] (b ∷ bs) e = absurd (ground (arith, e))
same→≡ (a ∷ s) [] e = absurd (ground (arith, e))
same→≡ (a ∷ s) (b ∷ bs) e =
    let heads : a ≡ b = ground (arith, e) in
    let tails : same s bs ≡ true = ground (arith, e) in
    ap₂ (λ x xs. x ∷ xs) heads (same→≡ s bs tails)

-- A string that is the same as `b` compares to others as `b` does.
pub same_trans : (a b c : List ℕ) → same a b ≡ true → same a c ≡ same b c
same_trans a b c e = ap (λ t. same t c) (same→≡ a b e)

abbrev pub or_next : Ordering → Ordering → Ordering
or_next Ordering.lt later = Ordering.lt
or_next Ordering.eq later = later
or_next Ordering.gt later = Ordering.gt

-- Bytes compared one by one, a string before the longer ones that it begins.
unfoldable pub bytes_order : List ℕ → List ℕ → Ordering
bytes_order [] [] = Ordering.eq
bytes_order [] (b ∷ bs) = Ordering.lt
bytes_order (a ∷ s) [] = Ordering.gt
bytes_order (a ∷ s) (b ∷ bs) = or_next (compare a b) (bytes_order s bs)

abbrev pub is_lt : Ordering → Bool
is_lt Ordering.lt = true
is_lt Ordering.eq = false
is_lt Ordering.gt = false

pub bytes_order_refl : (a : List ℕ) → bytes_order a a ≡ Ordering.eq
unfolding bytes_order
bytes_order_refl [] = ground arith
bytes_order_refl (x ∷ a) = ground (arith, bytes_order_refl a)

pub bytes_order→≡ : (a b : List ℕ) → bytes_order a b ≡ Ordering.eq → a ≡ b
unfolding bytes_order
bytes_order→≡ [] [] e = refl
bytes_order→≡ [] (y ∷ b) e = absurd (ground (arith, e))
bytes_order→≡ (x ∷ a) [] e = absurd (ground (arith, e))
bytes_order→≡ (x ∷ a) (y ∷ b) e = ground (arith, e, bytes_order→≡ a b)

pub bytes_order_gt :
    (a b : List ℕ) → (bytes_order a b ≡ Ordering.gt) ↔ (bytes_order b a ≡ Ordering.lt)
unfolding bytes_order
bytes_order_gt [] [] = ground arith
bytes_order_gt [] (y ∷ b) = ground arith
bytes_order_gt (x ∷ a) [] = ground arith
bytes_order_gt (x ∷ a) (y ∷ b) = ground (arith, bytes_order_gt a b)

pub bytes_order_trans :
    (a b c : List ℕ)
    → bytes_order a b ≡ Ordering.lt
    → bytes_order b c ≡ Ordering.lt
    → bytes_order a c ≡ Ordering.lt
unfolding bytes_order
bytes_order_trans [] [] c p q = absurd (ground (arith, p))
bytes_order_trans [] (y ∷ b) [] p q = absurd (ground (arith, q))
bytes_order_trans [] (y ∷ b) (z ∷ c) p q = refl
bytes_order_trans (x ∷ a) [] c p q = absurd (ground (arith, p))
bytes_order_trans (x ∷ a) (y ∷ b) [] p q = absurd (ground (arith, q))
bytes_order_trans (x ∷ a) (y ∷ b) (z ∷ c) p q = ground (arith, p, q, bytes_order_trans a b c)
