-- ===== src/ByteArray/Fixed/Examples.antt =====
-- Runs of the fixed-width operations of mingfwq/bytearray.cpp, and their theorems at such inputs.
use mingfwq.Prelude.{◌+◌, ◌≡◌, refl, arith, [], ◌∷◌}
use mingfwq.ByteArray.{ByteArray, ok, ◌>>=◌, little}
use mingfwq.ByteArray.Invariant.{IsValid}
use mingfwq.ByteArray.Ahead.{rewound}
use mingfwq.ByteArray.Fixed.{write_fuint, read_fuint, byteswap, to_memory}
use mingfwq.ByteArray.Fixed.RoundTrip.{read_fuint-write_fuint}
use mingfwq.ByteArray.Samples.{ones, ones-IsValid, ones_fit}

swapped_short : byteswap 2 0x1234 ≡ 0x3412
unfolding byteswap
swapped_short = refl

big_endian_int : to_memory little 4 (byteswap 4 0x01020304) ≡ 1 ∷ 2 ∷ 3 ∷ 4 ∷ []
unfolding byteswap to_memory
big_endian_int = refl

read_fuint-write_fuint_example :
    (ba' : ByteArray) × ((rewound ones (write_fuint little 4 ones 0x01020304)
        >>= read_fuint little 4)
      ≡ ok (0x01020304, ba'))
    × IsValid ba'
    × (ba'.position ≡ ones.position + 4)
read_fuint-write_fuint_example =
    read_fuint-write_fuint little 4 ones 0x01020304 ones-IsValid (omega arith) (omega arith)
      (ones_fit 4)
