-- ===== src/ByteArray/Fixed/RoundTrip.antt =====
-- What the fixed-width writes of mingfwq/bytearray.cpp put on the wire, and that the reads of the
-- same width take it back, on a machine of either byte order.
use mingfwq.Prelude.{
  ℕ, zero, suc, ◌+◌, ◌*◌, ◌/◌, ◌%◌, ◌^◌, ◌<◌, ◌≡◌, refl, sym, ap, ◌∙◌, arith, List, [], ◌∷◌, ◌++◌,
  if◌then◌else◌, length, drop, All, All-append, length-append,
}
use mathlib.Core.List.{reverse, reverse-cons, reverse-reverse}
use native.Mathlib.Nat.{pow-suc}
use mingfwq.ByteArray.{ByteArray, Endian, little, big, ok, ◌>>=◌, write, read}
use mingfwq.ByteArray.Fixed.{
  bytes_of, of_bytes, to_memory, from_memory, byteswap, same_order, write_fuint, read_fuint,
  read_fuint8,
}
use mingfwq.ByteArray.Invariant.{IsValid, contents}
use mingfwq.ByteArray.Capacity.{FallsShort}
use mingfwq.ByteArray.Write.{write-Writes}
use mingfwq.ByteArray.Ahead.{ahead, read-ahead, rewound, rewound_lem}

abbrev pub IsByte : ℕ → Type 0
IsByte b = b < 256

-- An integer of k bytes in the byte order `e`.
abbrev pub wire : Endian → ℕ → ℕ → List ℕ
wire little k v = bytes_of k v
wire big k v = reverse (bytes_of k v)

pub length-bytes_of : (k v : ℕ) → length (bytes_of k v) ≡ k
unfolding bytes_of
length-bytes_of zero v = refl
length-bytes_of (suc k) v = ap suc (length-bytes_of k (v / 256))

bytes_of-IsByte : (k v : ℕ) → All IsByte (bytes_of k v)
unfolding bytes_of
bytes_of-IsByte zero v = tt
bytes_of-IsByte (suc k) v = (omega arith, bytes_of-IsByte k (v / 256))

of_bytes-bytes_of : (k v : ℕ) → v < 256 ^ k → of_bytes (bytes_of k v) ≡ v
unfolding bytes_of of_bytes
of_bytes-bytes_of zero v h = omega arith
of_bytes-bytes_of (suc k) v h =
    omega (arith, of_bytes-bytes_of k (v / 256) (omega (arith, pow-suc 256 k)))

bytes_of-of_bytes : (bs : List ℕ) → All IsByte bs → bytes_of (length bs) (of_bytes bs) ≡ bs
unfolding bytes_of of_bytes
bytes_of-of_bytes [] h = refl
bytes_of-of_bytes (b ∷ bs) h =
    let low : (b + 256 * of_bytes bs) % 256 ≡ b = omega (arith, h.0) in
    let high : (b + 256 * of_bytes bs) / 256 ≡ of_bytes bs = omega (arith, h.0) in
    rw (low, high, bytes_of-of_bytes bs h.1) refl

All-reverse : (bs : List ℕ) → All IsByte bs → All IsByte (reverse bs)
All-reverse [] h = tt
All-reverse (b ∷ bs) h =
    rw (reverse-cons b bs) (All-append IsByte (reverse bs) (b ∷ []) (All-reverse bs h.1) (h.0, tt))

length-reverse : (bs : List ℕ) → length (reverse bs) ≡ length bs
length-reverse [] = refl
length-reverse (b ∷ bs) =
    rw (reverse-cons b bs) (omega (arith, length-append (reverse bs) (b ∷ []), length-reverse bs))

pub length-wire : (e : Endian) (k v : ℕ) → length (wire e k v) ≡ k
length-wire little k v = length-bytes_of k v
length-wire big k v = length-reverse (bytes_of k v) ∙ length-bytes_of k v

swapped : (bs : List ℕ) → All IsByte bs → bytes_of (length bs) (of_bytes (reverse bs)) ≡ reverse bs
swapped bs h =
    ap (λ k. bytes_of k (of_bytes (reverse bs))) (sym (length-reverse bs))
    ∙ bytes_of-of_bytes (reverse bs) (All-reverse bs h)

bytes_of-byteswap : (k v : ℕ) → bytes_of k (byteswap k v) ≡ reverse (bytes_of k v)
unfolding byteswap
bytes_of-byteswap k v =
    ap (λ j. bytes_of j (of_bytes (reverse (bytes_of k v)))) (sym (length-bytes_of k v))
    ∙ swapped (bytes_of k v) (bytes_of-IsByte k v)

-- Swapping twice gives the integer back.
pub byteswap-byteswap : (k v : ℕ) → v < 256 ^ k → byteswap k (byteswap k v) ≡ v
unfolding byteswap
byteswap-byteswap k v h =
    ap (λ bs. of_bytes (reverse bs)) (unfold byteswap in bytes_of-byteswap k v)
    ∙ ap of_bytes (reverse-reverse (bytes_of k v))
    ∙ of_bytes-bytes_of k v h

on_wire :
    (host e : Endian) (k v : ℕ)
    → to_memory host k (if same_order e host then v else byteswap k v) ≡ wire e k v
unfolding to_memory
on_wire little little k v = refl
on_wire little big k v = bytes_of-byteswap k v
on_wire big little k v = ap reverse (bytes_of-byteswap k v) ∙ reverse-reverse (bytes_of k v)
on_wire big big k v = refl

off_wire :
    (host e : Endian) (k v : ℕ)
    → v < 256 ^ k
    → (if same_order e host
        then from_memory host (wire e k v)
        else byteswap k (from_memory host (wire e k v)))
      ≡ v
unfolding from_memory byteswap
off_wire little little k v h = of_bytes-bytes_of k v h
off_wire little big k v h = byteswap-byteswap k v h
off_wire big little k v h = byteswap-byteswap k v h
off_wire big big k v h = ap of_bytes (reverse-reverse (bytes_of k v)) ∙ of_bytes-bytes_of k v h

-- A fixed-width write puts the integer's bytes in the order of the array, whatever the order of
-- the machine.
pub write_fuint-wire :
    (host : Endian) (k : ℕ) (ba : ByteArray) (v : ℕ)
    → write_fuint host k ba v ≡ write ba (wire ba.endian k v)
unfolding write_fuint
write_fuint-wire host k ba v = ap (write ba) (on_wire host ba.endian k v)

-- A read of the same width takes the integer off the wire.
pub read_fuint-wire :
    (host : Endian) (k : ℕ) (ba : ByteArray) (v : ℕ) (rest : List ℕ)
    → IsValid ba
    → 0 < k
    → v < 256 ^ k
    → ahead ba ≡ wire ba.endian k v ++ rest
    → (ba' : ByteArray) × (read_fuint host k ba ≡ ok (v, ba'))
      × IsValid ba'
      × (ahead ba' ≡ rest)
      × (ba'.position ≡ ba.position + k)
      × (ba'.endian ≡ ba.endian)
unfolding read_fuint
read_fuint-wire host k ba v rest valid pos fits e =
    let long : length (wire ba.endian k v) ≡ k = length-wire ba.endian k v in
    let (ba', returns, valid', rest', moved, order) =
      read-ahead ba (wire ba.endian k v) rest valid e
        (omega (arith, length-append (wire ba.endian k v) rest, long)) in
    (
      ba',
      rw (ap (read ba) (sym long) ∙ returns)
          (ap (λ u. ok (u, ba')) (off_wire host ba.endian k v fits)),
      valid',
      rest',
      moved ∙ ap (λ n. ba.position + n) long,
      order,
    )

-- On a well-formed array with capacity for it, what a fixed-width write of at least one byte
-- stores, the read of that width gives back after a setPosition to where the write began, in
-- either byte order of array and machine, and the position is then behind the integer.
pub read_fuint-write_fuint :
    (host : Endian) (k : ℕ) (ba : ByteArray) (v : ℕ)
    → IsValid ba
    → 0 < k
    → v < 256 ^ k
    → ¬ FallsShort ba k
    → (ba' : ByteArray) × ((rewound ba (write_fuint host k ba v) >>= read_fuint host k)
        ≡ ok (v, ba'))
      × IsValid ba'
      × (ba'.position ≡ ba.position + k)
read_fuint-write_fuint host k ba v valid pos fits room =
    let long : length (wire ba.endian k v) ≡ k = length-wire ba.endian k v in
    let (ba1, wrote, w) = write-Writes ba (wire ba.endian k v) valid (rw long room) in
    let (ba2, sought, valid2, front, at, order) =
      rewound_lem (wire ba.endian k v) valid (write_fuint-wire host k ba v ∙ wrote) w in
    let (ba3, returns, valid3, rest, moved, same) =
      read_fuint-wire host k ba2 v (drop (ba.position + length (wire ba.endian k v)) (contents ba))
        valid2 pos fits (rw order front) in
    (ba3, rw sought returns, valid3, omega (arith, moved, at))

-- readFuint8 takes one byte off the front.
pub next_byte :
    (ba : ByteArray) (b : ℕ) (rest : List ℕ)
    → IsValid ba
    → ahead ba ≡ b ∷ rest
    → (ba' : ByteArray) × (read_fuint8 ba ≡ ok (b, ba'))
      × IsValid ba'
      × (ahead ba' ≡ rest)
      × (ba'.position ≡ ba.position + 1)
      × (ba'.endian ≡ ba.endian)
unfolding read_fuint8
next_byte ba b rest v e =
    let (ba', returns, valid, after, moved, order) =
      read-ahead ba (b ∷ []) rest v e (omega arith) in
    (ba', rw returns, valid, after, moved, order)
