-- ===== src/ByteArray/Invariant.antt =====
-- What holds of a `ByteArray` of mingfwq/bytearray.h between two calls, and the bytes that a
-- caller sees.
use mingfwq.Prelude.{
  ℕ, ◌+◌, ◌*◌, ◌/◌, ◌%◌, ◌≤◌, ◌<◌, ◌≡◌, sym, ap, ◌∙◌, arith, Option, none, some, List, ◌++◌, ◌==◌,
  if◌then◌else◌, length, take, drop, length-append, length-take, length-drop, length-replicate,
  take-append-drop, All-take,
}
use mathlib.Core.Path.{ap₂}
use native.Mathlib.Nat.{
  div-add-mod', mod-lt, div-lt_iff_lt-mul, mul-div_cancel, div-eq_of_lt, mul-add-div_right,
}
use mingfwq.ByteArray.{ByteArray, make}
use mingfwq.ByteArray.Chain.{concat, AllLong, length-concat, concat-append, drop_behind}

-- Where `m_cur` stands for position `p` in a chain of `n` blocks of `b` bytes: at the block that
-- holds the byte at `p`, and null at the end of the chain.
abbrev pub cur_at : ℕ → ℕ → ℕ → Option ℕ
cur_at b n p = if p / b == n then none else some (p / b)

-- `m_cur` after a walk of `e` bytes from the start of block `i`, over `k` blocks to the end.
abbrev pub cur_from : ℕ → ℕ → ℕ → ℕ → Option ℕ
cur_from b i k e = if e / b == k then none else some (i + e / b)

pub record IsValid (ba : ByteArray) : Type 0 where
  pub base_pos : 0 < ba.base_size
  pub blocks : AllLong ba.base_size ba.nodes
  pub rooted : 0 < length ba.nodes
  pub whole : ba.capacity ≡ length ba.nodes * ba.base_size
  pub within : ba.position ≤ ba.size
  pub filled : ba.size ≤ ba.capacity
  pub at : ba.cur ≡ cur_at ba.base_size (length ba.nodes) ba.position

-- The bytes up to `m_size`, in order.
abbrev pub contents : ByteArray → List ℕ
contents ba = take ba.size (concat ba.nodes)

-- A new array is well formed and empty.
pub make-IsValid : (base fill : ℕ) → 0 < base → IsValid (make base fill)
unfolding make
make-IsValid base fill h = record {
  base_pos = h;
  blocks = (length-replicate base fill, tt);
  rooted = omega arith;
  whole = omega arith;
  within = omega arith;
  filled = omega arith;
  at = ground (arith, div-eq_of_lt h);
}

module _ {ba : ByteArray} (v : IsValid ba) where
  pub length-chain : length (concat ba.nodes) ≡ ba.capacity
  length-chain = omega (arith, length-concat ba.base_size ba.nodes v.blocks, v.whole)

  pub length-contents : length (contents ba) ≡ ba.size
  length-contents = omega (arith, length-take ba.size (concat ba.nodes), length-chain, v.filled)

  -- The block of a position inside the chain, and the offset there.
  pub block_in_chain :
      (p : ℕ)
      → p < ba.capacity
      → (p / ba.base_size < length ba.nodes)
        × (p / ba.base_size * ba.base_size + p % ba.base_size ≡ p)
        × (p % ba.base_size < ba.base_size)
  block_in_chain p h = (
    (div-lt_iff_lt-mul v.base_pos).1 (omega (arith, v.whole)),
    div-add-mod' p ba.base_size,
    mod-lt p v.base_pos,
  )

  -- The chain cut before that block.
  pub split_at_block :
      (p : ℕ)
      → p < ba.capacity
      → (concat (take (p / ba.base_size) ba.nodes) ++ concat (drop (p / ba.base_size) ba.nodes)
          ≡ concat ba.nodes)
        × (length (concat (take (p / ba.base_size) ba.nodes)) ≡ p / ba.base_size * ba.base_size)
  split_at_block p h = (
    sym (concat-append (take (p / ba.base_size) ba.nodes) (drop (p / ba.base_size) ba.nodes))
        ∙ ap concat (take-append-drop (p / ba.base_size) ba.nodes),
    length-concat ba.base_size (take (p / ba.base_size) ba.nodes)
          (All-take _ (p / ba.base_size) ba.nodes v.blocks)
        ∙ ap (λ k. k * ba.base_size)
            (omega (arith, length-take (p / ba.base_size) ba.nodes, block_in_chain p h)),
  )

  pub length_behind :
      (p : ℕ)
      → p < ba.capacity
      → length (concat (drop (p / ba.base_size) ba.nodes)) + p / ba.base_size * ba.base_size
        ≡ ba.capacity
  length_behind p h = omega (
    arith,
    (split_at_block p h).1,
    ap length (split_at_block p h).0,
    length-append (concat (take (p / ba.base_size) ba.nodes))
        (concat (drop (p / ba.base_size) ba.nodes)),
    length-chain,
  )

  pub drop_at_block :
      (p : ℕ)
      → p < ba.capacity
      → drop (p % ba.base_size) (concat (drop (p / ba.base_size) ba.nodes))
        ≡ drop p (concat ba.nodes)
  drop_at_block p h =
      sym (drop_behind (concat (take (p / ba.base_size) ba.nodes)) _ (p % ba.base_size))
      ∙ ap₂ drop (omega (arith, (split_at_block p h).1, block_in_chain p h)) (split_at_block p h).0

  pub cur_inside : ba.position < ba.capacity → ba.cur ≡ some (ba.position / ba.base_size)
  cur_inside h = ground (arith, v.at, (block_in_chain ba.position h).0)

  pub cur_at_end : ba.position ≡ ba.capacity → ba.cur ≡ none
  cur_at_end h = rw (v.at, h, v.whole, mul-div_cancel (length ba.nodes) v.base_pos) (ground arith)

  -- The walk of `n` bytes from the block of a position ends where position `p + n` stands.
  pub cur_from_block :
      (p n : ℕ)
      → p < ba.capacity
      → cur_from ba.base_size
          (p / ba.base_size)
          (length (drop (p / ba.base_size) ba.nodes))
          (p % ba.base_size + n)
        ≡ cur_at ba.base_size (length ba.nodes) (p + n)
  cur_from_block p n h =
      let e : p + n ≡ p / ba.base_size * ba.base_size + (p % ba.base_size + n) =
        omega (arith, block_in_chain p h) in
      rw (e, mul-add-div_right v.base_pos (p / ba.base_size) (p % ba.base_size + n))
        (ground (arith, length-drop (p / ba.base_size) ba.nodes, block_in_chain p h))
