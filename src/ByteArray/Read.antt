-- ===== src/ByteArray/Read.antt =====
-- The two `read`s and toString of mingfwq/bytearray.cpp: which bytes they hand out, and when
-- they fail.
use mingfwq.Prelude.{
  ℕ, zero, suc, ◌+◌, ◌-◌, ◌/◌, ◌%◌, ◌≤◌, ◌<◌, ◌≡◌, refl, sym, ap, ◌∙◌, arith, inl, inr, List, [],
  ◌∷◌, ◌++◌, leb, ◌==◌, length, take, drop, All-drop, length-append, length-drop, take-append_left,
  take-append_right, take-take, take-drop, take-all, drop-all, ==_iff, drop-append_left, Bool-cases,
  leb→le, suc-not_zero, lt→ltb, le→not_ltb,
}
use mathlib.Core.Path.{ap₂}
use mingfwq.ByteArray.{
  ByteArray, Node, ok, fault, null_node, out_of_range, read_loop, read_from, read, read_at,
  to_string, read_size,
}
use mingfwq.ByteArray.Chain.{concat, AllLong}
use mingfwq.ByteArray.Invariant.{
  IsValid, cur_at, contents, block_in_chain, cur_inside, cur_at_end, drop_at_block, length_behind,
  cur_from, cur_from_block, length-contents,
}
use mingfwq.ByteArray.Write.Loop.{advance-cur_from, cur_from-suc}

take_before :
    (xs ys : List ℕ) (k n : ℕ) → k + n ≤ length xs → take n (drop k (xs ++ ys)) ≡ take n (drop k xs)
take_before xs ys k n h =
    rw (drop-append_left k xs ys (omega arith))
      (take-append_left n (drop k xs) ys (omega (arith, length-drop k xs)))

take_across :
    (xs ys : List ℕ) (k n : ℕ)
    → k ≤ length xs
    → length xs - k ≤ n
    → take n (drop k (xs ++ ys)) ≡ take (length xs - k) (drop k xs) ++ take (n - (length xs - k)) ys
take_across xs ys k n h j = rw (drop-append_left k xs ys h) (
    take-append_right n (drop k xs) ys (omega (arith, length-drop k xs))
    ∙ ap₂ ◌++◌ (sym (take-all (length xs - k) (drop k xs) (omega (arith, length-drop k xs))))
        (ap (λ m. take m ys) (omega (arith, length-drop k xs))))

-- The loop of `read` hands out the next `n` bytes of the chain.
read_loop_lem :
    (b i npos : ℕ) (chain : List Node) (n : ℕ)
    → 0 < b
    → AllLong b chain
    → npos < b
    → 0 < n
    → npos + n ≤ length (concat chain)
    → read_loop chain i npos n
      ≡ ok (take n (drop npos (concat chain)), cur_from b i (length chain) (npos + n))
unfolding read_loop
read_loop_lem b i npos [] n hb hc hn hl h = absurd (omega arith)
read_loop_lem b i npos (node ∷ rest) n hb hc hn hl h =
    elim (Bool-cases (leb n (length node - npos))) [
      | inl e ↦ rw e (
          ap₂ (λ xs c. ok (xs, c))
            (sym (take_before node (concat rest) npos n (omega (arith, leb→le _ _ e, hc.0))))
            (rw hc.0 (advance-cur_from b i (npos + n) rest hb (omega (arith, leb→le _ _ e, hc.0)))))
      | inr e ↦
          let past : length node - npos < n = ground arith in
          rw
            (
              e,
              read_loop_lem b (i + 1) 0 rest (n - (length node - npos)) hb hc.1 hb (omega arith)
                  (omega (arith, length-append node (concat rest))),
            )
            (ap₂ (λ xs c. ok (xs, c))
              (sym (take_across node (concat rest) npos n (omega (arith, hc.0)) (omega arith)))
              (cur_from-suc b i (length rest) _ hb
                ∙ ap (cur_from b i (suc (length rest))) (omega (arith, hc.0))))
    ]

module _ {ba : ByteArray} (v : IsValid ba) where
  visible :
      (n : ℕ)
      → ba.position + n ≤ ba.size
      → take n (drop ba.position (concat ba.nodes)) ≡ take n (drop ba.position (contents ba))
  visible n h =
      take-drop n ba.position (concat ba.nodes)
      ∙ ap (drop ba.position) (sym (take-take (ba.position + n) ba.size (concat ba.nodes) h))
      ∙ sym (take-drop n ba.position (contents ba))

  -- The walk of both `read`s from the position, in an array that holds the bytes asked for.
  read_from_lem :
      (n : ℕ)
      → ba.position + n ≤ ba.size
      → ba.position < ba.capacity
      → read_from ba n ba.position
        ≡ ok (
          take n (drop ba.position (contents ba)),
          cur_at ba.base_size (length ba.nodes) (ba.position + n),
        )
  unfolding read_from
  read_from_lem zero h inside =
      rw (cur_inside v inside) (ground (arith, block_in_chain v ba.position inside))
  read_from_lem (suc n) h inside =
      rw
        (
          cur_inside v inside,
          suc-not_zero n,
          read_loop_lem ba.base_size (ba.position / ba.base_size) (ba.position % ba.base_size)
              (drop (ba.position / ba.base_size) ba.nodes) (suc n) v.base_pos
              (All-drop _ (ba.position / ba.base_size) ba.nodes v.blocks)
              (block_in_chain v ba.position inside).2 (omega arith)
              (omega (
                arith,
                length_behind v ba.position inside,
                block_in_chain v ba.position inside,
                v.filled,
              )),
        )
        (ap₂ (λ xs c. ok (xs, c))
          (ap (take (suc n)) (drop_at_block v ba.position inside) ∙ visible (suc n) h)
          (cur_from_block v ba.position (suc n) inside))

-- What a caller sees of a `read` of `n` bytes: the bytes from the position on, which moves behind
-- them; the contents stay.
pub record Reads (ba : ByteArray) (n : ℕ) (bytes : List ℕ) (ba' : ByteArray) : Type 0 where
  pub valid : IsValid ba'
  pub moved : ba'.position ≡ ba.position + n
  pub same_contents : contents ba' ≡ contents ba
  pub handed : bytes ≡ take n (drop ba.position (contents ba))
  pub same_endian : ba'.endian ≡ ba.endian

-- On a well-formed array whose position is in a block, `read` of at most the bytes that are left
-- hands out the next bytes, moves behind them, and keeps the array well formed.
pub read-Reads :
    (ba : ByteArray) (n : ℕ)
    → IsValid ba
    → ba.position + n ≤ ba.size
    → ba.position < ba.capacity
    → (r : List ℕ × ByteArray) × (read ba n ≡ ok r) × Reads ba n r.0 r.1
unfolding read
read-Reads ba n v h inside = (
  (
    take n (drop ba.position (contents ba)),
    record ba {
      cur = cur_at ba.base_size (length ba.nodes) (ba.position + n);
      position = ba.position + n;
    },
  ),
  rw (le→not_ltb n (read_size ba) (omega arith), read_from_lem v n h inside),
  record {
    valid = record {
      base_pos = v.base_pos;
      blocks = v.blocks;
      rooted = v.rooted;
      whole = v.whole;
      within = h;
      filled = v.filled;
      at = refl;
    };
    moved = refl;
    same_contents = refl;
    handed = refl;
    same_endian = refl;
  },
)

-- It throws when fewer bytes are left, and nothing is read.
pub read_out_of_range :
    (ba : ByteArray) (n : ℕ) → ba.size - ba.position < n → read ba n ≡ fault out_of_range
unfolding read
read_out_of_range ba n h = rw (lt→ltb (read_size ba) n h)

-- On a well-formed array with the position at the end of the last block, a `read` of no bytes
-- dereferences a null pointer.
pub read_at_end :
    (ba : ByteArray) → IsValid ba → ba.position ≡ ba.capacity → read ba 0 ≡ fault null_node
unfolding read read_from
read_at_end ba v h = rw (le→not_ltb 0 (read_size ba) (omega arith), cur_at_end v h)

-- toString of a well-formed array succeeds and is what is left to read.
pub to_string_lem :
    (ba : ByteArray) → IsValid ba → to_string ba ≡ ok (drop ba.position (contents ba))
unfolding to_string read_at
to_string_lem ba v = elim (Bool-cases (read_size ba == 0)) [
  | inl e ↦ rw e (
      ap ok (
        sym (
          drop-all ba.position (contents ba)
            (omega (arith, length-contents v, (==_iff (read_size ba) 0).0 e, v.within)))))
  | inr e ↦
      let left : 0 < read_size ba = ground arith in
      rw
        (
          e,
          le→not_ltb (read_size ba) (read_size ba) (omega arith),
          read_from_lem v (read_size ba) (omega (arith, v.within)) (omega (arith, v.filled)),
        )
        (ap ok (
          take-all (read_size ba) (drop ba.position (contents ba))
            (omega (arith, length-drop ba.position (contents ba), length-contents v))))
]
