-- ===== src/ByteArray/Ahead.antt =====
-- The bytes of a `ByteArray` that are still to be read, and the reads and writes of
-- mingfwq/bytearray.cpp as steps on them.
use mingfwq.Prelude.{
  ℕ, ◌+◌, ◌-◌, ◌%◌, ◌≤◌, ◌<◌, ◌≡◌, sym, ap, ◌∙◌, arith, inl, inr, ◌⊎◌, List, ◌++◌, append_assoc,
  length, take, drop, length-append, length-take, length-drop, drop-drop, take-all,
  take-append_left, take-append_right, drop-append_right,
}
use mathlib.Core.Path.{ap₂}
use native.Mathlib.Nat.{mod-one}
use mingfwq.ByteArray.{ByteArray, Result, ok, ◌>>=◌, read, set_position, overwrite, free_capacity}
use mingfwq.ByteArray.Chain.{concat}
use mingfwq.ByteArray.Invariant.{IsValid, contents, length-contents}
use mingfwq.ByteArray.Capacity.{FallsShort}
use mingfwq.ByteArray.Write.{Writes}
use mingfwq.ByteArray.Read.{read-Reads}
use mingfwq.ByteArray.Seek.{set_position-IsValid}

abbrev pub ahead : ByteArray → List ℕ
ahead ba = drop ba.position (contents ba)

pub length-ahead : {ba : ByteArray} → IsValid ba → length (ahead ba) ≡ ba.size - ba.position
length-ahead {ba} v = omega (arith, length-drop ba.position (contents ba), length-contents v)

take_front : (xs rest : List ℕ) → take (length xs) (xs ++ rest) ≡ xs
take_front xs rest =
    take-append_left (length xs) xs rest (omega arith) ∙ take-all (length xs) xs (omega arith)

drop_front : (xs rest : List ℕ) → drop (length xs) (xs ++ rest) ≡ rest
drop_front xs rest =
    drop-append_right (length xs) xs rest (omega arith)
    ∙ ap (λ m. drop m rest) {x = length xs - length xs} {y = 0} (omega arith)

-- A read takes its bytes off the front of what is ahead.
pub read-ahead :
    (ba : ByteArray) (xs rest : List ℕ)
    → IsValid ba
    → ahead ba ≡ xs ++ rest
    → 0 < length (xs ++ rest)
    → (ba' : ByteArray) × (read ba (length xs) ≡ ok (xs, ba'))
      × IsValid ba'
      × (ahead ba' ≡ rest)
      × (ba'.position ≡ ba.position + length xs)
      × (ba'.endian ≡ ba.endian)
read-ahead ba xs rest v e h =
    let left : length (ahead ba) ≡ length xs + length rest = ap length e ∙ length-append xs rest in
    let (r, returns, s) =
      read-Reads ba (length xs) v (omega (arith, left, length-ahead v, v.within))
        (omega (arith, left, ap length e, length-ahead v, v.filled)) in
    (
      r.1,
      returns ∙ ap (λ b. ok (b, r.1)) (s.handed ∙ ap (take (length xs)) e ∙ take_front xs rest),
      s.valid,
      ap₂ drop s.moved s.same_contents
          ∙ sym (drop-drop (length xs) ba.position (contents ba))
          ∙ ap (drop (length xs)) e
          ∙ drop_front xs rest,
      s.moved,
      s.same_endian,
    )

-- Two copies one behind the other are one copy.
overwrite-append :
    (xs a b : List ℕ) (k : ℕ)
    → k ≤ length xs
    → overwrite (overwrite xs k a) (k + length a) b ≡ overwrite xs k (a ++ b)
overwrite-append xs a b k h =
    rw (kept, behind)
      (append_assoc (take k xs) a _ ∙ ap (◌++◌ (take k xs)) (sym (append_assoc a b _)))
  where
    start : length (take k xs) ≡ k
    start = omega (arith, length-take k xs)

    kept : take (k + length a) (overwrite xs k a) ≡ take k xs ++ a
    kept =
        take-append_right (k + length a) (take k xs) _ (omega (arith, start))
        ∙ ap (◌++◌ (take k xs)) (
            ap (λ m. take m (a ++ drop (k + length a) xs)) {x = k + length a - length (take k xs)}
              (omega (arith, start))
            ∙ take_front a (drop (k + length a) xs))

    behind : drop (k + length a + length b) (overwrite xs k a) ≡ drop (k + length (a ++ b)) xs
    behind =
        drop-append_right (k + length a + length b) (take k xs) _ (omega (arith, start))
        ∙ drop-append_right (k + length a + length b - length (take k xs)) a _
            (omega (arith, start))
        ∙ drop-drop _ (k + length a) xs
        ∙ ap (λ m. drop m xs)
            {x = k + length a + (k + length a + length b - length (take k xs) - length a)}
            (omega (arith, start, length-append a b))

drop-overwrite :
    (xs buf : List ℕ) (k : ℕ)
    → k ≤ length xs
    → drop k (overwrite xs k buf) ≡ buf ++ drop (k + length buf) xs
drop-overwrite xs buf k h =
    drop-append_right k (take k xs) _ (omega (arith, length-take k xs))
    ∙ ap (λ m. drop m (buf ++ drop (k + length buf) xs)) {x = k - length (take k xs)} {y = 0}
        (omega (arith, length-take k xs))

-- Room for `n` bytes more, however they are cut into requests.
abbrev pub HasRoom : ByteArray → ℕ → Type 0
HasRoom ba n = (ba.base_size ≡ 1) ⊎ (ba.position + n ≤ ba.capacity)

pub not_FallsShort : (ba : ByteArray) (m n : ℕ) → HasRoom ba n → m ≤ n → ¬ FallsShort ba m
not_FallsShort ba m n (inl e) h f =
    absurd (omega (arith, f.partial, one_long (m - free_capacity ba)))
  where
    one_long : (k : ℕ) → k % ba.base_size ≡ 0
    one_long k = rw e (mod-one k)
not_FallsShort ba m n (inr r) h f = omega (arith, f.more)

pub HasRoom-Writes :
    {ba ba' : ByteArray} (buf : List ℕ) (n : ℕ)
    → HasRoom ba (length buf + n)
    → Writes ba buf ba'
    → HasRoom ba' n
HasRoom-Writes buf n (inl e) w = inl (w.same_base ∙ e)
HasRoom-Writes buf n (inr r) w = inr (omega (arith, w.moved, w.grown))

-- One write behind another is the write of both.
pub Writes-append :
    {ba ba1 ba2 : ByteArray} (a b : List ℕ)
    → IsValid ba
    → Writes ba a ba1
    → Writes ba1 b ba2
    → Writes ba (a ++ b) ba2
Writes-append {ba} a b v w1 w2 = record {
  valid = w2.valid;
  moved = omega (arith, w1.moved, w2.moved, length-append a b);
  bytes =
      w2.bytes
      ∙ ap₂ (λ xs k. overwrite xs k b) w1.bytes w1.moved
      ∙ overwrite-append (contents ba) a b ba.position (omega (arith, length-contents v, v.within));
  same_endian = w2.same_endian ∙ w1.same_endian;
  same_base = w2.same_base ∙ w1.same_base;
  grown = omega (arith, w1.grown, w2.grown);
}

-- Back at the position where a write began, its bytes are ahead.
pub rewind :
    {ba ba' : ByteArray} (buf : List ℕ)
    → IsValid ba
    → Writes ba buf ba'
    → (ba2 : ByteArray) × (set_position ba' ba.position ≡ ok ba2)
      × IsValid ba2
      × (ahead ba2 ≡ buf ++ drop (ba.position + length buf) (contents ba))
      × (ba2.position ≡ ba.position)
      × (ba2.endian ≡ ba.endian)
rewind {ba} {ba'} buf v w =
    let back : ba.position ≤ ba'.size = omega (arith, w.moved, w.valid.within) in
    let (ba2, returns, valid, at, blocks, high, order) =
      set_position-IsValid ba' ba.position w.valid (omega (arith, w.valid.filled)) in
    (
      ba2,
      returns,
      valid,
      ap₂ drop at (ap₂ take (high ∙ omega arith) (ap concat blocks) ∙ w.bytes)
          ∙ drop-overwrite (contents ba) buf ba.position
              (omega (arith, length-contents v, v.within)),
      at,
      order ∙ w.same_endian,
    )

-- What was written, rewound and read.
pub rewound : ByteArray → Result ByteArray → Result ByteArray
rewound ba after = after >>= λ ba'. set_position ba' ba.position

pub rewound_lem :
    {ba ba' : ByteArray} (buf : List ℕ) {after : Result ByteArray}
    → IsValid ba
    → after ≡ ok ba'
    → Writes ba buf ba'
    → (ba2 : ByteArray) × (rewound ba after ≡ ok ba2)
      × IsValid ba2
      × (ahead ba2 ≡ buf ++ drop (ba.position + length buf) (contents ba))
      × (ba2.position ≡ ba.position)
      × (ba2.endian ≡ ba.endian)
unfolding rewound
rewound_lem buf v e w =
    let (ba2, returns, valid, front, at, order) = rewind buf v w in
    (ba2, rw e returns, valid, front, at, order)
