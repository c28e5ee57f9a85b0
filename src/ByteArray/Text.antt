-- ===== src/ByteArray/Text.antt =====
-- The strings of mingfwq/bytearray.cpp: writeStringF16 to writeStringFWithoutLength, and
-- readStringF16 to readStringVint. A string is the list of its bytes.
pub mod RoundTrip
mod Examples
use mingfwq.Prelude.{ℕ, ◌+◌, ◌%◌, ◌^◌, List, length}
use mingfwq.ByteArray.{ByteArray, Endian, Result, ok, ◌>>=◌, write, read}
use mingfwq.ByteArray.Fixed.{write_fuint, read_fuint}
use mingfwq.ByteArray.Varint.{write_uint64, read_uint64}

-- How the length stands before the string: the functions whose names end in F16, F32, F64, Vint.
pub data Prefix : Type 0 where
  f16 f32 f64 vint : Prefix

-- writeFuint16, writeFuint32, writeFuint64 or writeUint64 of a size_t.
pub write_length : Endian → Prefix → ByteArray → ℕ → Result ByteArray
write_length host f16 ba n = write_fuint host 2 ba (n % 2 ^ 16)
write_length host f32 ba n = write_fuint host 4 ba (n % 2 ^ 32)
write_length host f64 ba n = write_fuint host 8 ba n
write_length host vint ba n = write_uint64 ba n

pub read_length : Endian → Prefix → ByteArray → Result (ℕ × ByteArray)
read_length host f16 ba = read_fuint host 2 ba
read_length host f32 ba = read_fuint host 4 ba
read_length host f64 ba = read_fuint host 8 ba
read_length host vint ba = read_uint64 ba

-- writeStringF16, writeStringF32, writeStringF64 and writeStringFVint
pub write_string : Endian → Prefix → ByteArray → List ℕ → Result ByteArray
write_string host p ba value = write_length host p ba (length value) >>= λ ba'. write ba' value

-- writeStringFWithoutLength
pub write_string_without_length : ByteArray → List ℕ → Result ByteArray
write_string_without_length ba value = write ba value

-- readStringF16, readStringF32, readStringF64 and readStringVint
pub read_string : Endian → Prefix → ByteArray → Result (List ℕ × ByteArray)
read_string host p ba = read_length host p ba >>= λ r. read r.1 r.0
