-- ===== src/ByteArray/Text/Examples.antt =====
-- Runs of the strings of mingfwq/bytearray.cpp, and their theorem at such an input.
use mingfwq.Prelude.{ℕ, ◌+◌, ◌≡◌, refl, arith, inl, List, length, [], ◌∷◌}
use mingfwq.ByteArray.{ByteArray, ok, ◌>>=◌, little, make}
use mingfwq.ByteArray.Invariant.{IsValid}
use mingfwq.ByteArray.Ahead.{rewound}
use mingfwq.ByteArray.Samples.{ones, ones-IsValid}
use mingfwq.ByteArray.Text.{f16, write_string, read_string}
use mingfwq.ByteArray.Text.RoundTrip.{prefix, read_string-write_string}

abbrev word : List ℕ
word = 0x61 ∷ 0x62 ∷ 0x63 ∷ []

read_string-write_string_example :
    (ba' : ByteArray) × ((rewound ones (write_string little f16 ones word)
        >>= read_string little f16)
      ≡ ok (word, ba'))
    × IsValid ba'
    × (ba'.position ≡ ones.position + length (prefix ones.endian f16 (length word)) + length word)
unfolding make
read_string-write_string_example =
    read_string-write_string little f16 ones word ones-IsValid (omega arith) (omega arith)
      (inl refl)
