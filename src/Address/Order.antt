-- ===== src/Address/Order.antt =====
-- The comparison of addresses in mingfwq/address.cpp.
use mingfwq.Prelude.{
  ℕ, suc, Ordering, ◌≡◌, ◌≢◌, ap, subst, ◌∙◌, ◌↔◌, true, false, List, [], ◌∷◌, arith, ltb, min,
  length, take, take-all, bytes_order, bytes_order_refl, bytes_order→≡, bytes_order_gt,
  bytes_order_trans, is_lt,
}
use mingfwq.Address.{decide, memcmp, address_less, address_equal}

-- operator< is the order of the bytes, an address before the longer ones that it begins, though
-- it compares with memcmp the bytes that both have and then the lengths.
pub address_less_lem : (a b : List ℕ) → address_less a b ≡ is_lt (bytes_order a b)
unfolding address_less memcmp bytes_order
address_less_lem [] [] = ground arith
address_less_lem [] (y ∷ b) = ground arith
address_less_lem (x ∷ a) [] = ground arith
address_less_lem (x ∷ a) (y ∷ b) =
    let one_more : min (suc (length a)) (suc (length b)) ≡ suc (min (length a) (length b)) =
      omega arith in
    ap
      (λ n.
        decide (bytes_order (take n (x ∷ a)) (take n (y ∷ b)))
          (ltb (suc (length a)) (suc (length b))))
      one_more
    ∙ ground (arith, address_less_lem a b)

-- operator< is a strict order of all addresses: of two addresses not both are less, neither is
-- less only if they have the same bytes, and what is less than a lesser address is less.
pub address_less_strict :
    (a b c : List ℕ)
    → (address_less a b ≡ true → address_less b a ≡ false)
      × ((address_less a b ≡ false → address_less b a ≡ false → a ≡ b)
          × (address_less a b ≡ true → address_less b c ≡ true → address_less a c ≡ true))
address_less_strict a b c = (
  ground (arith, address_less_lem a b, address_less_lem b a, bytes_order_gt a b),
  (
    ground
        (arith, address_less_lem a b, address_less_lem b a, bytes_order_gt a b, bytes_order→≡ a b),
    ground (
      arith,
      address_less_lem a b,
      address_less_lem b c,
      address_less_lem a c,
      bytes_order_trans a b c,
    ),
  ),
)

memcmp-all : (a b : List ℕ) → length a ≡ length b → memcmp a b (length a) ≡ bytes_order a b
unfolding memcmp
memcmp-all a b e =
    ap (λ s. bytes_order s (take (length a) b)) (take-all (length a) a (omega arith))
    ∙ ap (bytes_order a) (take-all (length a) b (omega (arith, e)))

bytes_order_iff : (a b : List ℕ) → (bytes_order a b ≡ Ordering.eq) ↔ (a ≡ b)
bytes_order_iff a b =
    (bytes_order→≡ a b, λ e. subst (λ s. bytes_order a s ≡ Ordering.eq) e (bytes_order_refl a))

-- operator== holds of two addresses exactly if they have the same length and are not the same:
-- the int of memcmp, which is 0 for the same bytes, is taken for a truth value.
pub address_equal_iff :
    (a b : List ℕ) → (address_equal a b ≡ true) ↔ ((length a ≡ length b) × (a ≢ b))
unfolding address_equal
address_equal_iff a b = ground (arith, memcmp-all a b, bytes_order_iff a b)
