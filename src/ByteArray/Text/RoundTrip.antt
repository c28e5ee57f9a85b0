-- ===== src/ByteArray/Text/RoundTrip.antt =====
-- The strings of mingfwq/bytearray.cpp: what a write stores is what the read gives back.
use mingfwq.Prelude.{
  ℕ, ◌+◌, ◌%◌, ◌^◌, ◌<◌, ◌≡◌, refl, sym, ap, ◌∙◌, arith, List, ◌++◌, append_assoc, length,
  length-append, drop,
}
use mingfwq.ByteArray.{ByteArray, Endian, ok, ◌>>=◌, write}
use mingfwq.ByteArray.Invariant.{IsValid, contents}
use mingfwq.ByteArray.Write.{write-Writes}
use mingfwq.ByteArray.Ahead.{
  ahead, read-ahead, HasRoom, HasRoom-Writes, not_FallsShort, Writes-append, rewound, rewound_lem,
}
use mingfwq.ByteArray.Fixed.{write_fuint}
use mingfwq.ByteArray.Fixed.RoundTrip.{wire, length-wire, write_fuint-wire, read_fuint-wire}
use mingfwq.ByteArray.Varint.{write_uint64, read_uint64}
use mingfwq.ByteArray.Varint.RoundTrip.{groups, varint_loop_lem, read_groups_lem}
use mingfwq.ByteArray.Text.{
  Prefix, f16, f32, f64, vint, write_length, read_length, write_string, read_string,
}

-- The lengths that a prefix can hold are below its limit.
abbrev pub limit : Prefix → ℕ
limit f16 = 2 ^ 16
limit f32 = 2 ^ 32
limit _ = 2 ^ 64

-- The bytes of the length.
abbrev pub prefix : Endian → Prefix → ℕ → List ℕ
prefix e f16 n = wire e 2 n
prefix e f32 n = wire e 4 n
prefix e f64 n = wire e 8 n
prefix e vint n = groups 10 n

write_length_lem :
    (host : Endian) (p : Prefix) (ba : ByteArray) (n : ℕ)
    → n < limit p
    → write_length host p ba n ≡ write ba (prefix ba.endian p n)
unfolding write_length write_uint64
write_length_lem host f16 ba n h =
    ap (write_fuint host 2 ba) {x = n % 2 ^ 16} {y = n} (omega (arith, h))
    ∙ write_fuint-wire host 2 ba n
write_length_lem host f32 ba n h =
    ap (write_fuint host 4 ba) {x = n % 2 ^ 32} {y = n} (omega (arith, h))
    ∙ write_fuint-wire host 4 ba n
write_length_lem host f64 ba n h = write_fuint-wire host 8 ba n
write_length_lem host vint ba n h = rw (varint_loop_lem 10 n (omega (arith, h)) (omega arith)) refl

read_length_lem :
    (host : Endian) (p : Prefix) (ba : ByteArray) (n : ℕ) (rest : List ℕ)
    → n < limit p
    → IsValid ba
    → ahead ba ≡ prefix ba.endian p n ++ rest
    → (ba' : ByteArray) × (read_length host p ba ≡ ok (n, ba'))
      × IsValid ba'
      × (ahead ba' ≡ rest)
      × (ba'.position ≡ ba.position + length (prefix ba.endian p n))
unfolding read_length read_uint64
read_length_lem host f16 ba n rest h v e =
    let (ba', q, v', a, m, o) =
      read_fuint-wire host 2 ba n rest v (omega arith) (omega (arith, h)) e in
    (ba', q, v', a, omega (arith, m, length-wire ba.endian 2 n))
read_length_lem host f32 ba n rest h v e =
    let (ba', q, v', a, m, o) =
      read_fuint-wire host 4 ba n rest v (omega arith) (omega (arith, h)) e in
    (ba', q, v', a, omega (arith, m, length-wire ba.endian 4 n))
read_length_lem host f64 ba n rest h v e =
    let (ba', q, v', a, m, o) =
      read_fuint-wire host 8 ba n rest v (omega arith) (omega (arith, h)) e in
    (ba', q, v', a, omega (arith, m, length-wire ba.endian 8 n))
read_length_lem host vint ba n rest h v e =
    let (ba', q, v', a, m, o) =
      read_groups_lem 64 10 0 0 n ba rest (omega (arith, h)) (omega arith) (omega arith)
        (omega (arith, h)) v e in
    (ba', q ∙ ap (λ u. ok (u, ba')) {y = n} (omega arith), v', a, m)

-- On a well-formed array with capacity for it, what writeStringF16, F32, F64 or FVint stores of a
-- string that is not empty, and of a length that the prefix holds, the read of the same kind gives
-- back after a setPosition to where the write began, and the position is then behind the string.
pub read_string-write_string :
    (host : Endian) (p : Prefix) (ba : ByteArray) (value : List ℕ)
    → IsValid ba
    → 0 < length value
    → length value < limit p
    → HasRoom ba (length (prefix ba.endian p (length value)) + length value)
    → (ba' : ByteArray) × ((rewound ba (write_string host p ba value) >>= read_string host p)
        ≡ ok (value, ba'))
      × IsValid ba'
      × (ba'.position ≡ ba.position + length (prefix ba.endian p (length value)) + length value)
unfolding write_string read_string
read_string-write_string host p ba value v some_bytes short room =
    let front = prefix ba.endian p (length value) in
    let (ba1, wrote, w1) =
      write-Writes ba front v (not_FallsShort ba (length front) _ room (omega arith)) in
    let (ba2, wrote', w2) = write-Writes ba1 value w1.valid (
      not_FallsShort ba1 (length value) (length value) (HasRoom-Writes front (length value) room w1)
        (omega arith)) in
    let both = Writes-append front value v w1 w2 in
    let (ba3, sought, v3, all, at, order) =
      rewound_lem (front ++ value) {after = write_string host p ba value} v
        (rw (write_length_lem host p ba (length value) short, wrote) wrote') both in
    let rest = drop (ba.position + length (front ++ value)) (contents ba) in
    let (ba4, counted, v4, next, moved) =
      read_length_lem host p ba3 (length value) (value ++ rest) short v3 (
        all
        ∙ append_assoc front value rest
        ∙ ap (λ e. prefix e p (length value) ++ (value ++ rest)) (sym order)) in
    let (ba5, handed, v5, behind, moved', order') =
      read-ahead ba4 value rest v4 next (omega (arith, some_bytes, length-append value rest)) in
    (
      ba5,
      rw (sought, counted) handed,
      v5,
      omega (arith, moved', moved, at, ap (λ e. length (prefix e p (length value))) order),
    )
