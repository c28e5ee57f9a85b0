-- ===== src/ByteArray/Fixed.antt =====
-- The fixed-width reads and writes of mingfwq/bytearray.cpp, over mingfwq/endian.h.
--
-- An integer of k bytes is its bit pattern, a number below 256 ^ k: intK_t and uintK_t are
-- written and read alike, and a cast between them keeps the pattern. `host` is the byte order of
-- the machine, MINGFWQ_BYTE_ORDER.
pub mod RoundTrip
mod Examples
use mingfwq.Prelude.{
  ℕ, zero, suc, ◌+◌, ◌*◌, ◌/◌, ◌%◌, Bool, true, false, List, [], ◌∷◌, ◌++◌, if◌then◌else◌,
}
use mathlib.Core.List.{reverse}
use mingfwq.ByteArray.{ByteArray, Endian, little, big, Result, ok, ◌>>=◌, write, read}

-- The k low bytes of a number, lowest first.
pub bytes_of : ℕ → ℕ → List ℕ
bytes_of zero v = []
bytes_of (suc k) v = (v % 256) ∷ bytes_of k (v / 256)

pub of_bytes : List ℕ → ℕ
of_bytes [] = 0
of_bytes (b ∷ bs) = b + 256 * of_bytes bs

-- An integer in memory, and back: memcpy of `&value` on a machine with this byte order.
pub to_memory : Endian → ℕ → ℕ → List ℕ
unfolding bytes_of
to_memory little k v = bytes_of k v
to_memory big k v = reverse (bytes_of k v)

pub from_memory : Endian → List ℕ → ℕ
unfolding of_bytes
from_memory little bs = of_bytes bs
from_memory big bs = of_bytes (reverse bs)

-- byteswap: bswap_16, bswap_32 and bswap_64 reverse the bytes.
pub byteswap : ℕ → ℕ → ℕ
unfolding bytes_of of_bytes
byteswap k v = of_bytes (reverse (bytes_of k v))

abbrev pub same_order : Endian → Endian → Bool
same_order little little = true
same_order little big = false
same_order big little = false
same_order big big = true

-- byteswapOnLittleEndian and byteswapOnBigEndian
unfoldable pub byteswap_on_little_endian : Endian → ℕ → ℕ → ℕ
byteswap_on_little_endian little k t = byteswap k t
byteswap_on_little_endian big k t = t

pub byteswap_on_big_endian : Endian → ℕ → ℕ → ℕ
byteswap_on_big_endian little k t = t
byteswap_on_big_endian big k t = byteswap k t

-- writeFint8 and writeFuint8
pub write_fuint8 : ByteArray → ℕ → Result ByteArray
write_fuint8 ba value = write ba (value ∷ [])

-- writeFint16, writeFuint16, writeFint32, writeFuint32, writeFint64 and writeFuint64: k is 2, 4
-- or 8.
pub write_fuint : Endian → ℕ → ByteArray → ℕ → Result ByteArray
unfolding to_memory byteswap
write_fuint host k ba value =
    write ba (to_memory host k (if same_order ba.endian host then value else byteswap k value))

-- readFint8 and readFuint8
abbrev pub first_byte : List ℕ → ℕ
first_byte [] = 0
first_byte (b ∷ bs) = b

unfoldable pub read_fuint8 : ByteArray → Result (ℕ × ByteArray)
read_fuint8 ba = read ba 1 >>= λ r. ok (first_byte r.0, r.1)

-- The macro XX behind readFint16 to readFuint64.
pub read_fuint : Endian → ℕ → ByteArray → Result (ℕ × ByteArray)
unfolding from_memory byteswap
read_fuint host k ba = do
  (bytes, ba') ← read ba k
  (let v = from_memory host bytes in
      ok (if same_order ba.endian host then v else byteswap k v, ba'))

-- writeFloat and writeDouble copy the bits of the value: a float is its IEEE pattern.
pub write_float : Endian → ByteArray → ℕ → Result ByteArray
write_float host ba value = write_fuint host 4 ba value

pub write_double : Endian → ByteArray → ℕ → Result ByteArray
write_double host ba value = write_fuint host 8 ba value

pub read_float : Endian → ByteArray → Result (ℕ × ByteArray)
read_float host ba = read_fuint host 4 ba

-- readBouble takes its 64 bits from readFuint32.
pub read_bouble : Endian → ByteArray → Result (ℕ × ByteArray)
read_bouble host ba = read_fuint host 4 ba
