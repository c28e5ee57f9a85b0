-- ===== src/Http/Names.antt =====
-- The comparator of the maps of mingfwq/http/http.h orders names as their lower-case bytes.
use mingfwq.Prelude.{
  bytes_order, is_lt, bytes_order_refl, bytes_order→≡, bytes_order_gt, bytes_order_trans, ℕ,
  Ordering, true, false, ◌≡◌, refl, ◌↔◌, List, arith,
}
use mathlib.Core.Path.{ap₂}
use mingfwq.Http.{folded, strcasecmp, case_insensitive_less}

module _ (a b : List ℕ) where
  pub less_folded :
      (case_insensitive_less a b ≡ true) ↔ (bytes_order (folded a) (folded b) ≡ Ordering.lt)
  unfolding case_insensitive_less strcasecmp
  less_folded = ground arith

  -- Names that neither of which is less are the same but for case.
  pub less_neither :
      case_insensitive_less a b ≡ false → case_insensitive_less b a ≡ false → folded a ≡ folded b
  unfolding case_insensitive_less strcasecmp
  less_neither p q =
      ground
        (arith, p, q, bytes_order→≡ (folded a) (folded b), bytes_order_gt (folded a) (folded b))

pub less_irrefl : (a : List ℕ) → case_insensitive_less a a ≡ false
unfolding case_insensitive_less strcasecmp
less_irrefl a = ground (arith, bytes_order_refl (folded a))

pub less_trans :
    (a b c : List ℕ)
    → case_insensitive_less a b ≡ true
    → case_insensitive_less b c ≡ true
    → case_insensitive_less a c ≡ true
unfolding case_insensitive_less strcasecmp
less_trans a b c p q = ground (arith, p, q, bytes_order_trans (folded a) (folded b) (folded c))

-- Only what strcasecmp compares of the names matters.
pub less_congr :
    (a b c d : List ℕ)
    → folded a ≡ folded b
    → folded c ≡ folded d
    → case_insensitive_less a c ≡ case_insensitive_less b d
unfolding case_insensitive_less strcasecmp
less_congr a b c d p q = ap₂ (λ s t. is_lt (bytes_order s t)) p q

-- The comparator is a strict order of the names: no name is less than itself, what is less than
-- a lesser name is less, and two names of which neither is less have the same lower-case bytes
-- up to the first zero, and then every third name compares with both alike.
pub case_insensitive_less_strict :
    (a b c : List ℕ)
    → (case_insensitive_less a a ≡ false)
      × (case_insensitive_less a b ≡ true
          → case_insensitive_less b c ≡ true
          → case_insensitive_less a c ≡ true)
      × (case_insensitive_less a b ≡ false
          → case_insensitive_less b a ≡ false
          → folded a ≡ folded b
            × (case_insensitive_less a c ≡ case_insensitive_less b c)
            × (case_insensitive_less c a ≡ case_insensitive_less c b))
case_insensitive_less_strict a b c = (
  less_irrefl a,
  less_trans a b c,
  λ p q. let e = less_neither a b p q in (e, less_congr a b c c e refl, less_congr c c a b refl e),
)
