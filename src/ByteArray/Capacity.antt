-- ===== src/ByteArray/Capacity.antt =====
-- ByteArray::addCapacity of mingfwq/bytearray.cpp: when it makes room, and when it falls short.
use mingfwq.Prelude.{
  ℕ, zero, suc, ◌+◌, ◌-◌, ◌*◌, ◌/◌, ◌%◌, ◌≤◌, ◌<◌, ◌≡◌, refl, sym, ap, ◌∙◌, arith, Option, some,
  inl, inr, List, [], ◌∷◌, ◌++◌, append_assoc, append-nil, ltb, ◌==◌, if◌then◌else◌, length,
  replicate, All-append, All-replicate, length-append, length-replicate, Bool-cases, false, ==_iff,
}
use native.Mathlib.Nat.{div-add-mod', mod-lt, mul-div_cancel}
use mingfwq.ByteArray.{
  ByteArray, Node, append_nodes, add_capacity, blocks_needed, free_capacity, first_added,
}
use mingfwq.ByteArray.Invariant.{IsValid, cur_at, block_in_chain, cur_inside}

-- The requests that addCapacity serves too little: the bytes that are missing reach into a
-- block more, but no further than the free bytes that it compares that remainder with.
pub record FallsShort (ba : ByteArray) (n : ℕ) : Type 0 where
  pub more : free_capacity ba < n
  pub partial : 0 < (n - free_capacity ba) % ba.base_size
  pub hidden : (n - free_capacity ba) % ba.base_size ≤ free_capacity ba

abbrev fresh : ByteArray → ℕ → List Node
fresh ba count = replicate count (replicate ba.base_size ba.fill)

pub append_nodes_lem :
    (count : ℕ) (ba : ByteArray)
    → append_nodes count ba ≡ record ba {
      nodes = ba.nodes ++ fresh ba count;
      capacity = ba.capacity + count * ba.base_size;
    }
unfolding append_nodes
append_nodes_lem zero ba = ground (arith, append-nil ba.nodes)
append_nodes_lem (suc count) ba =
    append_nodes_lem count _
    ∙ ground (arith, append_assoc ba.nodes (replicate ba.base_size ba.fill ∷ []) (fresh ba count))

-- `ba'` is `ba` with blocks put at the end of its chain.
pub record Extends (ba ba' : ByteArray) : Type 0 where
  pub same_base : ba'.base_size ≡ ba.base_size
  pub same_position : ba'.position ≡ ba.position
  pub same_size : ba'.size ≡ ba.size
  pub same_endian : ba'.endian ≡ ba.endian
  pub grown : ba.capacity ≤ ba'.capacity
  pub chain : (extra : List Node) × (ba'.nodes ≡ ba.nodes ++ extra)

Extends-refl : (ba : ByteArray) → Extends ba ba
Extends-refl ba = record {
  same_base = refl;
  same_position = refl;
  same_size = refl;
  same_endian = refl;
  grown = omega arith;
  chain = ([], sym (append-nil ba.nodes));
}

-- The count of blocks is enough unless the remainder `r` hides behind the `f` free bytes.
enough :
    (f n b q r : ℕ)
    → q * b + r ≡ n - f
    → r < b
    → (f < n → 0 < r → r ≤ f → ⊥)
    → n ≤ f + (if ltb n f then 0 else q + (if ltb f r then 1 else 0)) * b
enough f n b q r e h k = elim (Bool-cases (ltb n f)) [
  | inl p ↦ rw p (ground arith)
  | inr p ↦ elim (Bool-cases (ltb f r)) [
    | inl t ↦ rw (p, t) (omega (arith, e, h))
    | inr t ↦ rw (p, t) (grind (arith, k))
  ]
]

module _ {ba : ByteArray} (v : IsValid ba) where
  abbrev extended : ℕ → Option ℕ → ByteArray
  extended count c = record ba {
    nodes = ba.nodes ++ fresh ba count;
    capacity = ba.capacity + count * ba.base_size;
    cur = c;
  }

  extended-IsValid :
      (count : ℕ) (c : Option ℕ)
      → c ≡ cur_at ba.base_size (length ba.nodes + count) ba.position
      → IsValid (extended count c)
  extended-IsValid count c e =
      let grows : length (ba.nodes ++ fresh ba count) ≡ length ba.nodes + count =
        length-append ba.nodes (fresh ba count)
        ∙ ap (λ k. length ba.nodes + k) (length-replicate count _) in
      record {
        base_pos = v.base_pos;
        blocks =
            All-append _ ba.nodes _ v.blocks
              (All-replicate _ count _ (length-replicate ba.base_size ba.fill));
        rooted = omega (arith, grows, v.rooted);
        whole = rw grows (omega (arith, v.whole));
        within = v.within;
        filled = omega (arith, v.filled);
        at = rw grows e;
      }

  extended-Extends : (count : ℕ) (c : Option ℕ) → Extends ba (extended count c)
  extended-Extends count c = record {
    same_base = refl;
    same_position = refl;
    same_size = refl;
    same_endian = refl;
    grown = omega arith;
    chain = (fresh ba count, refl);
  }

  -- A position before the end keeps its block when the chain grows.
  cur_kept :
      (count : ℕ)
      → 0 < free_capacity ba
      → ba.cur ≡ cur_at ba.base_size (length ba.nodes + count) ba.position
  cur_kept count h = ground (arith, cur_inside v, block_in_chain v ba.position (omega arith))

  cur_first :
      (count : ℕ)
      → free_capacity ba ≡ 0
      → some (length ba.nodes) ≡ cur_at ba.base_size (length ba.nodes + suc count) ba.position
  cur_first count h = ground (arith, at_last)
    where
      at_last : ba.position / ba.base_size ≡ length ba.nodes
      at_last =
          let e : ba.position ≡ length ba.nodes * ba.base_size =
            omega (arith, v.whole, v.within, v.filled) in
          rw e (mul-div_cancel (length ba.nodes) v.base_pos)

  abbrev blocks_added : ℕ → ℕ
  blocks_added n = if ltb n (free_capacity ba) then 0 else blocks_needed ba (n - free_capacity ba)

  IsExtension : ℕ → ByteArray → Type 0
  IsExtension n ba' =
      (c : Option ℕ) × (ba' ≡ extended (blocks_added n) c)
      × (c ≡ cur_at ba.base_size (length ba.nodes + blocks_added n) ba.position)

  unchanged_IsExtension : (n : ℕ) → blocks_added n ≡ 0 → 0 < free_capacity ba → IsExtension n ba
  unfolding IsExtension
  unchanged_IsExtension n e h =
      (ba.cur, rw e (ground (arith, append-nil ba.nodes)), cur_kept (blocks_added n) h)

  -- With no free byte at least one block is added.
  some_added : (n : ℕ) → 0 < n → free_capacity ba ≡ 0 → blocks_added n ≡ suc (blocks_added n - 1)
  some_added n h e = ground (arith, div-add-mod' n ba.base_size)

  grown_IsExtension :
      (n count : ℕ)
      → 0 < n
      → blocks_added n ≡ count
      → IsExtension n (
          if free_capacity ba == 0
          then record (append_nodes count ba) { cur = first_added ba count }
          else append_nodes count ba)
  unfolding IsExtension
  grown_IsExtension n count h e = elim (Bool-cases (free_capacity ba == 0)) [
    | inl z ↦
        let z' : free_capacity ba ≡ 0 = (==_iff (free_capacity ba) 0).0 z in
        let e' : count ≡ suc (count - 1) = omega (arith, some_added n h z', e) in
        rw (z, e)
          (
            first_added ba count,
            rw (append_nodes_lem count ba) refl,
            rw e' (cur_first (count - 1) z'),
          )
    | inr p ↦ rw (p, e) (ba.cur, append_nodes_lem count ba, cur_kept count (ground arith))
  ]

  add_capacity-IsExtension : (n : ℕ) → 0 < n → IsExtension n (add_capacity ba n)
  unfolding add_capacity
  add_capacity-IsExtension n h = elim (Bool-cases (ltb n (free_capacity ba))) [
    | inl e ↦ rw (lt→not_eq n h, e) (unchanged_IsExtension n (rw e) (ground arith))
    | inr e ↦
        rw (lt→not_eq n h, e)
          (grown_IsExtension n (blocks_needed ba (n - free_capacity ba)) h (rw e))
  ]
    where
      lt→not_eq : (k : ℕ) → 0 < k → (k == 0) ≡ false
      lt→not_eq k p = ground arith

  -- addCapacity keeps the array well formed and only lengthens its chain.
  pub add_capacity-IsValid : (n : ℕ) → IsValid (add_capacity ba n)
  unfolding IsExtension
  add_capacity-IsValid zero = unfold add_capacity in v
  add_capacity-IsValid (suc n) =
      let (c, e, at) = add_capacity-IsExtension (suc n) (omega arith) in
      rw e (extended-IsValid (blocks_added (suc n)) c at)

  pub add_capacity-Extends : (n : ℕ) → Extends ba (add_capacity ba n)
  unfolding IsExtension
  add_capacity-Extends zero = unfold add_capacity in Extends-refl ba
  add_capacity-Extends (suc n) =
      let (c, e, at) = add_capacity-IsExtension (suc n) (omega arith) in
      rw e (extended-Extends (blocks_added (suc n)) c)

  capacity_added :
      (n : ℕ) → 0 < n → (add_capacity ba n).capacity ≡ ba.capacity + blocks_added n * ba.base_size
  unfolding IsExtension
  capacity_added n h = rw (add_capacity-IsExtension n h).1 refl

  -- On a well-formed array the capacity after addCapacity has room for the request behind the
  -- position, unless it exceeds the free bytes by an excess that is no multiple of the block
  -- size and whose remainder by the block size is at most the free bytes.
  pub add_capacity_room :
      (n : ℕ) → ¬ FallsShort ba n → ba.position + n ≤ (add_capacity ba n).capacity
  add_capacity_room zero h = unfold add_capacity in omega (arith, v.within, v.filled)
  add_capacity_room (suc n) h = rw (capacity_added (suc n) (omega arith)) (
      omega (
        arith,
        v.within,
        v.filled,
        enough (free_capacity ba) (suc n) ba.base_size _ _
            (div-add-mod' (suc n - free_capacity ba) ba.base_size)
            (mod-lt (suc n - free_capacity ba) v.base_pos)
            (λ more partial hidden. h (record { more = more; partial = partial; hidden = hidden })),
      ))

  -- On a well-formed array, where the request exceeds the free bytes by an excess that is no
  -- multiple of the block size and whose remainder is at most the free bytes, the capacity after
  -- addCapacity has no room for the request behind the position.
  pub add_capacity_short :
      (n : ℕ) → FallsShort ba n → (add_capacity ba n).capacity < ba.position + n
  add_capacity_short n h = rw (capacity_added n (omega (arith, h.more))) (
      ground (
        arith,
        h.more,
        h.hidden,
        h.partial,
        v.within,
        v.filled,
        div-add-mod' (n - free_capacity ba) ba.base_size,
      ))
