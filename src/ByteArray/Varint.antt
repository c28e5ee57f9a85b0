-- ===== src/ByteArray/Varint.antt =====
-- The compressed integers of mingfwq/bytearray.cpp: zigzag, and groups of seven bits, lowest
-- group first, with the top bit set on every byte but the last.
--
-- The widths are those of the code, 32 and 64 bits, as `w` = `k + 1`. Where the code overflows a
-- signed integer (`-v` of the least value, `v * 2` of a large one) the model wraps around, as
-- compilers do.
pub mod Zigzag
pub mod RoundTrip
pub mod Widths
mod Examples
use mingfwq.Prelude.{
  ℕ, zero, suc, ◌+◌, ◌-◌, ◌*◌, ◌/◌, ◌%◌, ◌^◌, List, [], ◌∷◌, ltb, leb, if◌then◌else◌, bit_and,
  bit_or, bit_xor,
}
use mingfwq.Prelude.Int.{ℤ, pos, negsuc, to_signed}
use mingfwq.ByteArray.{ByteArray, Result, ok, fault, overrun, ◌>>=◌, write, read}
use mingfwq.ByteArray.Fixed.{read_fuint8}

-- EncodeZigzag32 and EncodeZigzag64, for `w` bits.
pub encode_zigzag : ℕ → ℤ → ℕ
encode_zigzag w (pos n) = n * 2 % 2 ^ w
encode_zigzag w (negsuc n) = (suc n % 2 ^ w * 2 + 2 ^ w - 1) % 2 ^ w

-- DecodeZigzag32 and DecodeZigzag64, for `k + 1` bits.
pub decode_zigzag : ℕ → ℕ → ℤ
decode_zigzag k v = to_signed k (bit_xor (v / 2) ((2 ^ suc k - bit_and v 1) % 2 ^ suc k))

-- The loop of writeUint32 and writeUint64 over the `slots` bytes that `tmp` has left.
pub varint_loop : ℕ → ℕ → Result (List ℕ)
varint_loop zero value = fault overrun
varint_loop (suc slots) value =
    let more = varint_loop slots (value / 2 ^ 7) in
    if leb 0x80 value
    then (more >>= λ bs. ok ((bit_or (bit_and value 0x7F) 0x80 % 256) ∷ bs))
    else ok ((value % 256) ∷ [])

pub write_uint32 : ByteArray → ℕ → Result ByteArray
write_uint32 ba value = varint_loop 5 value >>= λ tmp. write ba tmp

unfoldable pub write_uint64 : ByteArray → ℕ → Result ByteArray
write_uint64 ba value = varint_loop 10 value >>= λ tmp. write ba tmp

pub write_int32 : ByteArray → ℤ → Result ByteArray
write_int32 ba value = write_uint32 ba (encode_zigzag 32 value)

pub write_int64 : ByteArray → ℤ → Result ByteArray
write_int64 ba value = write_uint64 ba (encode_zigzag 64 value)

-- The loop of readUint32 and readUint64 with `rounds` left, `for(int i = 0; i < w; i += 7)`.
pub read_groups : ℕ → ℕ → ℕ → ℕ → ByteArray → Result (ℕ × ByteArray)
read_groups w zero i result ba = ok (result, ba)
read_groups w (suc rounds) i result ba = do
  (b, ba') ← read_fuint8 ba
  (let more = read_groups w rounds (i + 7) (bit_or result (bit_and b 0x7F * 2 ^ i % 2 ^ w)) ba' in
      if ltb b 0x80 then ok (bit_or result (b * 2 ^ i % 2 ^ w), ba') else more)

-- `i` takes the values 0, 7, 14, 21 and 28.
pub read_uint32 : ByteArray → Result (ℕ × ByteArray)
read_uint32 ba = read_groups 32 5 0 0 ba

-- `i` takes the values 0, 7, ..., 63.
unfoldable pub read_uint64 : ByteArray → Result (ℕ × ByteArray)
read_uint64 ba = read_groups 64 10 0 0 ba

pub read_int32 : ByteArray → Result (ℤ × ByteArray)
read_int32 ba = read_uint32 ba >>= λ r. ok (decode_zigzag 31 r.0, r.1)

-- The code calls readUint32 here.
pub read_int64 : ByteArray → Result (ℤ × ByteArray)
read_int64 ba = read_uint32 ba >>= λ r. ok (decode_zigzag 63 r.0, r.1)
