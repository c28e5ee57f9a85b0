-- ===== src/ByteArray/Write.antt =====
-- ByteArray::write of mingfwq/bytearray.cpp: where its bytes go, and when it runs off the chain.
pub mod Loop
use mingfwq.Prelude.{
  ℕ, zero, suc, ◌+◌, ◌-◌, ◌*◌, ◌/◌, ◌%◌, ◌≤◌, ◌<◌, ◌≡◌, refl, sym, ap, ◌∙◌, arith, Option, none,
  some, inl, inr, ◌⊎◌, List, [], ◌∷◌, ◌++◌, append_assoc, append-nil, ltb, leb, ◌==◌, if◌then◌else◌,
  length, take, drop, All, All-append, All-take, All-drop, length-append, length-take, length-drop,
  take-append-drop, take-append_left, Bool-cases, suc-not_zero, false, true, leb→le, lt→not_leb,
  min,
}
use native.Mathlib.Nat.{div-eq_of_lt, div_self, add-div_left, div-add-mod', mul-add-div_right}
use mathlib.Core.Path.{ap₂}
use native.Mathlib.Decide.{dec_lt}
use mingfwq.ByteArray.{
  ByteArray, Node, Fault, Result, ok, fault, null_node, write_loop, write, write_grown, written,
  overwrite, add_capacity, free_capacity, next_index, advance,
}
use mingfwq.ByteArray.Chain.{
  concat, concat-append, AllLong, length-concat, length-overwrite, overwrite-append_left,
  overwrite-append_right, overwrite_split, take-overwrite,
}
use mingfwq.ByteArray.Invariant.{
  IsValid, cur_at, contents, block_in_chain, cur_inside, cur_at_end, length-chain, split_at_block,
  length_behind, cur_from_block,
}
use mingfwq.ByteArray.Capacity.{
  FallsShort, Extends, add_capacity-IsValid, add_capacity-Extends, add_capacity_room,
  add_capacity_short,
}
use Loop.{Wrote, write_loop-Wrote, write_loop_short}

contents-Extends : {ba ba' : ByteArray} → IsValid ba → Extends ba ba' → contents ba' ≡ contents ba
contents-Extends {ba} {ba'} v x =
    let (extra, e) = x.chain in
    rw (x.same_size, e, concat-append ba.nodes extra)
      (take-append_left ba.size (concat ba.nodes) (concat extra)
        (omega (arith, length-chain v, v.filled)))

-- A copy into an array with room for it: the loop runs from the block of the position.
module _ {ba : ByteArray} (v : IsValid ba) (buf : List ℕ) (some_bytes : 0 < length buf) where
  block : ℕ
  block = ba.position / ba.base_size

  offset : ℕ
  offset = ba.position % ba.base_size

  module _ (inside : ba.position < ba.capacity) where
    loop_returns :
        ba.position + length buf ≤ ba.capacity
        → (r : List Node × Option ℕ) × (write_loop (drop block ba.nodes) block offset buf ≡ ok r)
          × Wrote ba.base_size block offset (drop block ba.nodes) buf r
    unfolding block offset
    loop_returns room =
        write_loop-Wrote ba.base_size block offset (drop block ba.nodes) buf v.base_pos
          (All-drop _ block ba.nodes v.blocks) (block_in_chain v ba.position inside).2 some_bytes
          (omega (arith, length_behind v ba.position inside, block_in_chain v ba.position inside))

    loop_faults :
        ba.capacity < ba.position + length buf
        → write_loop (drop block ba.nodes) block offset buf ≡ fault null_node
    unfolding block offset
    loop_faults short =
        write_loop_short ba.base_size block offset (drop block ba.nodes) buf
          (All-drop _ block ba.nodes v.blocks) (block_in_chain v ba.position inside).2
          (omega (arith, length_behind v ba.position inside, block_in_chain v ba.position inside))

    module _ (r : List Node × Option ℕ)
        (w : Wrote ba.base_size block offset (drop block ba.nodes) buf r)
        (room : ba.position + length buf ≤ ba.capacity) where
      written-bytes :
          concat (take block ba.nodes ++ r.0) ≡ overwrite (concat ba.nodes) ba.position buf
      unfolding block offset
      written-bytes =
          rw (concat-append (take block ba.nodes) r.0, w.bytes)
            (sym (overwrite-append_right (concat (take block ba.nodes)) _ buf offset)
              ∙ ap₂ (λ xs k. overwrite xs k buf) (split_at_block v ba.position inside).0
                  (omega (
                    arith,
                    (split_at_block v ba.position inside).1,
                    block_in_chain v ba.position inside,
                  )))

      written_chain : length (take block ba.nodes ++ r.0) ≡ length ba.nodes
      unfolding block
      written_chain = omega (
        arith,
        length-append (take block ba.nodes) r.0,
        length-take block ba.nodes,
        length-drop block ba.nodes,
        w.same_length,
        block_in_chain v ba.position inside,
      )

      written-contents :
          contents (written ba block (length buf) r) ≡ overwrite (contents ba) ba.position buf
      written-contents = rw written-bytes (
          take-overwrite (concat ba.nodes) buf ba.position ba.size v.within
            (omega (arith, length-chain v, v.filled)))

      written-IsValid : IsValid (written ba block (length buf) r)
      unfolding block offset
      written-IsValid = record {
        base_pos = v.base_pos;
        blocks = All-append _ _ _ (All-take _ block ba.nodes v.blocks) w.blocks;
        rooted = omega (arith, written_chain, v.rooted);
        whole = rw written_chain v.whole;
        within = ground arith;
        filled = ground (arith, v.filled);
        at = w.cursor ∙ rw written_chain (cur_from_block v ba.position (length buf) inside);
      }

-- What a caller sees of `write`: the bytes stand at the old position, which moves behind them.
pub record Writes (ba : ByteArray) (buf : List ℕ) (ba' : ByteArray) : Type 0 where
  pub valid : IsValid ba'
  pub moved : ba'.position ≡ ba.position + length buf
  pub bytes : contents ba' ≡ overwrite (contents ba) ba.position buf
  pub same_endian : ba'.endian ≡ ba.endian
  pub same_base : ba'.base_size ≡ ba.base_size
  pub grown : ba.capacity ≤ ba'.capacity

module _ {ba : ByteArray} (v : IsValid ba) (buf : List ℕ) (some_bytes : 0 < length buf) where
  write_grown-Writes :
      ba.position + length buf ≤ ba.capacity
      → (ba' : ByteArray) × (write_grown ba buf ≡ ok ba') × Writes ba buf ba'
  unfolding write_grown block offset
  write_grown-Writes room =
      let inside : ba.position < ba.capacity = omega arith in
      let (r, returns, w) = loop_returns v buf some_bytes inside room in
      (
        written ba (ba.position / ba.base_size) (length buf) r,
        rw (cur_inside v inside, returns),
        record {
          valid = written-IsValid v buf some_bytes inside r w room;
          moved = refl;
          bytes = written-contents v buf some_bytes inside r w room;
          same_endian = refl;
          same_base = refl;
          grown = omega arith;
        },
      )

  write_grown_short : ba.capacity < ba.position + length buf → write_grown ba buf ≡ fault null_node
  unfolding write_grown block offset
  write_grown_short short = elim (dec_lt ba.position ba.capacity) [
    | yes inside ↦ rw (cur_inside v inside, loop_faults v buf some_bytes inside short)
    | no outside ↦ rw (cur_at_end v (omega (arith, v.within, v.filled)))
  ]

write-cons :
    (ba : ByteArray) (b : ℕ) (bs : List ℕ)
    → write ba (b ∷ bs) ≡ write_grown (add_capacity ba (suc (length bs))) (b ∷ bs)
unfolding write
write-cons ba b bs = rw (suc-not_zero (length bs))

overwrite-nil : (xs : List ℕ) (k : ℕ) → overwrite xs k [] ≡ xs
overwrite-nil xs k =
    ap (λ m. take k xs ++ drop m xs) {x = k + 0} (omega arith) ∙ take-append-drop k xs

-- On a well-formed array, unless addCapacity adds too few blocks for the request, `write`
-- succeeds: it puts its bytes at the position, over what stood there and past the end, moves
-- behind them, and keeps the array well formed.
pub write-Writes :
    (ba : ByteArray) (buf : List ℕ)
    → IsValid ba
    → ¬ FallsShort ba (length buf)
    → (ba' : ByteArray) × (write ba buf ≡ ok ba') × Writes ba buf ba'
unfolding write
write-Writes ba [] v f = (
  ba,
  refl,
  record {
    valid = v;
    moved = omega arith;
    bytes = sym (overwrite-nil (contents ba) ba.position);
    same_endian = refl;
    same_base = refl;
    grown = omega arith;
  },
)
write-Writes ba (b ∷ bs) v f =
    let x = add_capacity-Extends v (suc (length bs)) in
    let (ba', returns, w) =
      write_grown-Writes (add_capacity-IsValid v (suc (length bs))) (b ∷ bs) (omega arith)
        (omega (arith, x.same_position, add_capacity_room v (suc (length bs)) f)) in
    (
      ba',
      write-cons ba b bs ∙ returns,
      record {
        valid = w.valid;
        moved = omega (arith, w.moved, x.same_position);
        bytes =
            w.bytes ∙ ap₂ (λ xs k. overwrite xs k (b ∷ bs)) (contents-Extends v x) x.same_position;
        same_endian = w.same_endian ∙ x.same_endian;
        same_base = w.same_base ∙ x.same_base;
        grown = omega (arith, w.grown, x.grown);
      },
    )

-- On a well-formed array where addCapacity adds too few blocks for the request, `write`
-- dereferences the null pointer behind the last block.
pub write-FallsShort :
    (ba : ByteArray) (buf : List ℕ)
    → IsValid ba
    → FallsShort ba (length buf)
    → write ba buf ≡ fault null_node
write-FallsShort ba [] v f = absurd (omega (arith, f.more))
write-FallsShort ba (b ∷ bs) v f =
    write-cons ba b bs
    ∙ write_grown_short (add_capacity-IsValid v (suc (length bs))) (b ∷ bs) (omega arith) (
        omega (
          arith,
          (add_capacity-Extends v (suc (length bs))).same_position,
          add_capacity_short v (suc (length bs)) f,
        ))
