-- ===== src/Address/Ports.antt =====
-- The port and the text of an IPv4 address of mingfwq/address.cpp.
use mingfwq.Prelude.{
  bit_and, bit_and_255, ℕ, ◌+◌, ◌*◌, ◌/◌, ◌^◌, ◌<◌, ◌≡◌, refl, ◌∙◌, arith, ◌++◌, codes,
}
use mingfwq.Prelude.Decimal.{decimal}
use mingfwq.ByteArray.{Endian, little, big}
use mingfwq.ByteArray.Fixed.{byteswap_on_little_endian}
use mingfwq.ByteArray.Fixed.RoundTrip.{byteswap-byteswap}
use mingfwq.Address.{Ipv4Address, byte_at, make_ipv4_address, get_port, set_port, insert}

pub swapped_twice :
    (host : Endian) (k v : ℕ)
    → v < 256 ^ k
    → byteswap_on_little_endian host k (byteswap_on_little_endian host k v) ≡ v
unfolding byteswap_on_little_endian
swapped_twice little k v h = byteswap-byteswap k v h
swapped_twice big k v h = refl

-- setPort of a port below 2^16 makes getPort return it, on a machine of either byte order, and
-- leaves the family and the address as they were.
pub get_port-set_port :
    (host : Endian) (v : ℕ) (a : Ipv4Address)
    → v < 2 ^ 16
    → (get_port host (set_port host v a) ≡ v)
      × ((set_port host v a).family ≡ a.family)
      × ((set_port host v a).addr ≡ a.addr)
unfolding get_port set_port
get_port-set_port host v a h = (swapped_twice host 2 v h, refl, refl)

-- An address of four bytes and a port, made on a machine of either byte order, is printed as the
-- bytes in decimal, the highest first, with dots between them, a colon and the port.
pub insert-make_ipv4_address :
    (host : Endian) (a b c d port : ℕ)
    → a < 256
    → b < 256
    → c < 256
    → d < 256
    → port < 2 ^ 16
    → insert host (make_ipv4_address host (((a * 256 + b) * 256 + c) * 256 + d) port)
      ≡ decimal a
        ++ (codes "."
            ++ (decimal b
                ++ (codes "."
                    ++ (decimal c ++ (codes "." ++ (decimal d ++ (codes ":" ++ decimal port)))))))
unfolding insert make_ipv4_address
insert-make_ipv4_address host a b c d port ha hb hc hd hp =
    let n : ℕ = ((a * 256 + b) * 256 + c) * 256 + d in
    let first : byte_at n 24 ≡ a = bit_and_255 (n / 2 ^ 24) ∙ omega (arith, ha, hb, hc, hd) in
    let second : byte_at n 16 ≡ b = bit_and_255 (n / 2 ^ 16) ∙ omega (arith, ha, hb, hc, hd) in
    let third : byte_at n 8 ≡ c = bit_and_255 (n / 2 ^ 8) ∙ omega (arith, ha, hb, hc, hd) in
    let fourth : bit_and n 255 ≡ d = bit_and_255 n ∙ omega (arith, ha, hb, hc, hd) in
    rw
      (
        swapped_twice host 4 n (omega (arith, ha, hb, hc, hd)),
        swapped_twice host 2 port (omega (arith, hp)),
        first,
        second,
        third,
        fourth,
      )
      refl
