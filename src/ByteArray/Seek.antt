-- ===== src/ByteArray/Seek.antt =====
-- ByteArray::setPosition and ByteArray::clear of mingfwq/bytearray.cpp.
use mingfwq.Prelude.{
  ℕ, zero, suc, ◌+◌, ◌-◌, ◌*◌, max, ◌≤◌, ◌<◌, ◌≡◌, refl, ap, ◌∙◌, arith, inl, inr, List, [], ◌∷◌,
  ltb, if◌then◌else◌, length, take, All-take, length-take, Bool-cases, ltb→lt, lt→ltb, le→not_ltb,
}
use native.Mathlib.Nat.{div-eq_of_lt}
use mingfwq.ByteArray.{ByteArray, Node, ok, fault, out_of_range, seek, set_position, clear}
use mingfwq.ByteArray.Chain.{AllLong}
use mingfwq.ByteArray.Invariant.{IsValid, cur_at, cur_from, contents}
use mingfwq.ByteArray.Write.Loop.{advance-cur_from, cur_from-suc}

more_blocks : (b v k : ℕ) → b < v → v ≤ suc k * b → 0 < k
more_blocks b v zero p h = absurd (omega arith)
more_blocks b v (suc k) p h = omega arith

-- The two tests of setPosition find the block of the position.
seek_lem :
    (b i v : ℕ) (chain : List Node)
    → 0 < b
    → AllLong b chain
    → 0 < length chain
    → v ≤ length chain * b
    → seek chain i v ≡ ok (cur_from b i (length chain) v)
unfolding seek
seek_lem b i v [] hb hc hl h = absurd (omega arith)
seek_lem b i v (node ∷ rest) hb hc hl h = elim (Bool-cases (ltb (length node) v)) [
  | inl e ↦
      let past : length node < v = ltb→lt _ _ e in
      rw
        (
          e,
          seek_lem b (i + 1) (v - length node) rest hb hc.1
              (more_blocks b v (length rest) (omega (arith, hc.0)) h) (omega (arith, hc.0)),
        )
        (ap ok (
          cur_from-suc b i (length rest) _ hb
          ∙ ap (cur_from b i (suc (length rest))) (omega (arith, hc.0))))
  | inr e ↦ rw e (ground (arith, hc.0, advance-cur_from b i v rest hb))
]

-- setPosition of a well-formed array to a position up to the capacity moves there and raises the
-- size to it: the array stays well formed, with its blocks and byte order untouched.
pub set_position-IsValid :
    (ba : ByteArray) (p : ℕ)
    → IsValid ba
    → p ≤ ba.capacity
    → (ba' : ByteArray) × (set_position ba p ≡ ok ba')
      × IsValid ba'
      × (ba'.position ≡ p)
      × (ba'.nodes ≡ ba.nodes)
      × (ba'.size ≡ max ba.size p)
      × (ba'.endian ≡ ba.endian)
unfolding set_position
set_position-IsValid ba p v h = (
  record ba {
    position = p;
    size = if ltb ba.size p then p else ba.size;
    cur = cur_at ba.base_size (length ba.nodes) p;
  },
  rw
      (
        le→not_ltb p ba.capacity h,
        seek_lem ba.base_size 0 p ba.nodes v.base_pos v.blocks v.rooted (omega (arith, v.whole)),
      )
      (ground arith),
  record {
    base_pos = v.base_pos;
    blocks = v.blocks;
    rooted = v.rooted;
    whole = v.whole;
    within = ground arith;
    filled = ground (arith, v.filled);
    at = refl;
  },
  refl,
  refl,
  ground arith,
  refl,
)

-- A position beyond the capacity throws.
pub set_position_out_of_range :
    (ba : ByteArray) (p : ℕ) → ba.capacity < p → set_position ba p ≡ fault out_of_range
unfolding set_position
set_position_out_of_range ba p h = rw (lt→ltb ba.capacity p h)

-- clear leaves a well-formed array well formed and empty.
pub clear-IsValid : (ba : ByteArray) → IsValid ba → IsValid (clear ba) × (contents (clear ba) ≡ [])
unfolding clear
clear-IsValid ba v = (
  record {
    base_pos = v.base_pos;
    blocks = All-take _ 1 ba.nodes v.blocks;
    rooted = omega (arith, one_left, v.rooted);
    whole = rw one_left (omega arith);
    within = omega arith;
    filled = omega arith;
    at = rw one_left (ground (arith, div-eq_of_lt v.base_pos));
  },
  refl,
)
  where
    one_left : length (take 1 ba.nodes) ≡ 1
    one_left = omega (arith, length-take 1 ba.nodes, v.rooted)
