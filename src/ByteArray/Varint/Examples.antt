-- ===== src/ByteArray/Varint/Examples.antt =====
-- Runs of the compressed integers of mingfwq/bytearray.cpp, and their theorems at such inputs.
use mingfwq.Prelude.{◌+◌, ◌≤◌, ◌≡◌, refl, arith, none, [], ◌∷◌, length}
use mingfwq.Prelude.Int.{negsuc, IsSigned}
use mingfwq.ByteArray.{ByteArray, ok, ◌>>=◌, make, read, read_from, read_loop}
use mingfwq.ByteArray.Fixed.{read_fuint8}
use mingfwq.ByteArray.Invariant.{IsValid}
use mingfwq.ByteArray.Ahead.{rewound}
use mingfwq.ByteArray.Varint.{
  read_uint32, write_int32, read_int32, read_int64, read_groups, encode_zigzag, decode_zigzag,
  varint_loop,
}
use mingfwq.ByteArray.Varint.RoundTrip.{groups}
use mingfwq.ByteArray.Varint.Widths.{read_int32-write_int32, read_int64_narrow}
use mingfwq.ByteArray.Samples.{ones, ones-IsValid, ones_fit}

varint_300 : varint_loop 5 300 ≡ ok (0xac ∷ 0x02 ∷ [])
unfolding varint_loop
varint_300 = refl

zigzag_minus_one : encode_zigzag 32 (negsuc 0) ≡ 1
unfolding encode_zigzag
zigzag_minus_one = refl

read_int32-write_int32_example :
    (ba' : ByteArray) × ((rewound ones (write_int32 ones (negsuc 299)) >>= read_int32)
      ≡ ok (negsuc 299, ba'))
    × IsValid ba'
    × (ba'.position ≤ ones.position + 5)
read_int32-write_int32_example =
    read_int32-write_int32 (negsuc 299) ones (omega arith) ones-IsValid
      (ones_fit (length (groups 5 (encode_zigzag 32 (negsuc 299)))))

-- One byte, 5, which decodes to -3.
abbrev five : ByteArray
five = record ones { size = 1; nodes = (5 ∷ []) ∷ [] }

five_read : read_int64 five ≡ ok (negsuc 2, record five { position = 1; cur = none })
unfolding make read_int64 read_uint32 read_groups read_fuint8 read read_from read_loop decode_zigzag
five_read = refl

read_int64_narrow_example : IsSigned 31 (negsuc 2)
read_int64_narrow_example =
    read_int64_narrow five (negsuc 2) (record five { position = 1; cur = none }) five_read
