-- ===== src/ByteArray/Varint/Widths.antt =====
-- The compressed integers of mingfwq/bytearray.cpp at their two widths.
use mingfwq.Prelude.{
  ℕ, zero, suc, ◌+◌, ◌^◌, ◌≤◌, ◌<◌, ◌≡◌, ap, subst, ◌∙◌, arith, ltb, length, bit_or-lt, Bool-cases,
  inl, inr,
}
use mingfwq.Prelude.Int.{ℤ, IsSigned}
use native.Mathlib.Nat.{mod-lt, one-le-pow}
use mingfwq.ByteArray.{ByteArray, ok, ◌>>=◌, ok_of_bind, >>=-assoc, ok_value, write}
use mingfwq.ByteArray.Fixed.{read_fuint8}
use mingfwq.ByteArray.Varint.{
  varint_loop, write_uint32, write_uint64, write_int32, read_groups, read_uint32, read_uint64,
  read_int32, read_int64, encode_zigzag,
}
use mingfwq.ByteArray.Varint.Zigzag.{
  decode_zigzag-encode_zigzag, decode_zigzag-IsSigned, encode_zigzag-lt,
}
use mingfwq.ByteArray.Varint.RoundTrip.{groups, varint_loop_lem, read_groups_lem, length-groups}
use mingfwq.ByteArray.Invariant.{IsValid}
use mingfwq.ByteArray.Capacity.{FallsShort}
use mingfwq.ByteArray.Write.{write-Writes}
use mingfwq.ByteArray.Ahead.{rewound, rewound_lem}

-- Of `w` bits, in `slots` groups.
read_groups-varint_loop :
    (w slots v : ℕ) (ba : ByteArray)
    → 0 < slots
    → 2 ^ w ≤ 128 ^ slots
    → v < 2 ^ w
    → IsValid ba
    → ¬ FallsShort ba (length (groups slots v))
    → (ba' : ByteArray) × ((rewound ba (varint_loop slots v >>= λ tmp. write ba tmp)
          >>= read_groups w slots 0 0)
        ≡ ok (v, ba'))
      × IsValid ba'
      × (ba'.position ≡ ba.position + length (groups slots v))
read_groups-varint_loop w slots v ba hs hw hv valid room =
    let (ba1, wrote, w1) = write-Writes ba (groups slots v) valid room in
    let (ba2, sought, valid2, front, at, order) =
      rewound_lem (groups slots v) {after = varint_loop slots v >>= λ tmp. write ba tmp} valid
        (rw (varint_loop_lem slots v (omega arith) hs) wrote) w1 in
    let (ba3, returns, valid3, rest, moved, same) =
      read_groups_lem w slots 0 0 v ba2 _ (omega arith) hs (omega arith) (omega arith) valid2
        front in
    (
      ba3,
      rw sought (returns ∙ ap (λ u. ok (u, ba3)) (omega arith)),
      valid3,
      omega (arith, moved, at),
    )

-- On a well-formed array with capacity for it, writeUint32, setPosition back and readUint32 are a
-- round trip for every uint32_t, in at most 5 bytes.
pub read_uint32-write_uint32 :
    (v : ℕ) (ba : ByteArray)
    → v < 2 ^ 32
    → IsValid ba
    → ¬ FallsShort ba (length (groups 5 v))
    → (ba' : ByteArray) × ((rewound ba (write_uint32 ba v) >>= read_uint32) ≡ ok (v, ba'))
      × IsValid ba'
      × (ba'.position ≤ ba.position + 5)
unfolding write_uint32 read_uint32
read_uint32-write_uint32 v ba h valid room =
    let (ba', returns, valid', moved) =
      read_groups-varint_loop 32 5 v ba (omega arith) (omega arith) h valid room in
    (ba', returns, valid', omega (arith, moved, length-groups 5 v))

-- On a well-formed array with capacity for it, writeUint64, setPosition back and readUint64 are a
-- round trip for every uint64_t, in at most 10 bytes.
pub read_uint64-write_uint64 :
    (v : ℕ) (ba : ByteArray)
    → v < 2 ^ 64
    → IsValid ba
    → ¬ FallsShort ba (length (groups 10 v))
    → (ba' : ByteArray) × ((rewound ba (write_uint64 ba v) >>= read_uint64) ≡ ok (v, ba'))
      × IsValid ba'
      × (ba'.position ≤ ba.position + 10)
unfolding write_uint64 read_uint64
read_uint64-write_uint64 v ba h valid room =
    let (ba', returns, valid', moved) =
      read_groups-varint_loop 64 10 v ba (omega arith) (omega arith) h valid room in
    (ba', returns, valid', omega (arith, moved, length-groups 10 v))

-- On a well-formed array with capacity for it, writeInt32, setPosition back and readInt32 are a
-- round trip for every int32_t, in at most 5 bytes.
pub read_int32-write_int32 :
    (v : ℤ) (ba : ByteArray)
    → IsSigned 31 v
    → IsValid ba
    → ¬ FallsShort ba (length (groups 5 (encode_zigzag 32 v)))
    → (ba' : ByteArray) × ((rewound ba (write_int32 ba v) >>= read_int32) ≡ ok (v, ba'))
      × IsValid ba'
      × (ba'.position ≤ ba.position + 5)
unfolding write_int32 read_int32
read_int32-write_int32 v ba h valid room =
    let (ba', returns, valid', moved) =
      read_uint32-write_uint32 (encode_zigzag 32 v) ba (encode_zigzag-lt 31 v) valid room in
    (
      ba',
      >>=-assoc (rewound ba (write_uint32 ba (encode_zigzag 32 v))) read_uint32 _
          ∙ rw returns (ap (λ u. ok (u, ba')) (decode_zigzag-encode_zigzag 31 v h)),
      valid',
      moved,
    )

read_groups-lt :
    (w rounds i result v : ℕ) (ba ba' : ByteArray)
    → result < 2 ^ w
    → read_groups w rounds i result ba ≡ ok (v, ba')
    → v < 2 ^ w
unfolding read_groups
read_groups-lt w zero i result v ba ba' h e = ground arith
read_groups-lt w (suc rounds) i result v ba ba' h e =
    let ((b, ba1), first, then_) = ok_of_bind (read_fuint8 ba) _ e in
    elim (Bool-cases (ltb b 128)) [
      | inl t ↦
          subst (λ x. x < 2 ^ w) (ok_value (rw t at then_))
            (bit_or-lt w result _ h (mod-lt _ (one-le-pow w 2 (omega arith))))
      | inr t ↦
          read_groups-lt w rounds (i + 7) _ v ba1 ba'
            (bit_or-lt w result _ h (mod-lt _ (one-le-pow w 2 (omega arith)))) (rw t at then_)
    ]

-- readInt64 reads 32 bits only: an integer it returns is one of int32_t, whatever the bytes.
pub read_int64_narrow :
    (ba : ByteArray) (v : ℤ) (ba' : ByteArray) → read_int64 ba ≡ ok (v, ba') → IsSigned 31 v
unfolding read_int64
read_int64_narrow ba v ba' e =
    let ((u, ba1), first, then_) = ok_of_bind (read_uint32 ba) _ e in
    subst (IsSigned 31) (ok_value then_) (
      decode_zigzag-IsSigned 31 63 u (omega arith)
        (read_groups-lt 32 5 0 0 u ba ba1 (omega arith) (unfold read_uint32 in first)))
