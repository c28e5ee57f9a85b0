-- ===== src/Address.antt =====
-- mingfwq/address.h and mingfwq/address.cpp: how addresses compare, the IPv4 addresses with their port,
-- masks and text, and how Lookup takes a host apart.
--
-- An address that is compared is the list of the bytes of its sockaddr, as many as getAddrLen
-- says. An IPv4 address has the members of sockaddr_in as they are in memory; `host` is the byte order of
-- the machine. A pointer into a string is the text from it on.
pub mod Order
pub mod Ports
pub mod Ones
pub mod Hosts
mod Examples
use mingfwq.Prelude.{
  ℕ, zero, suc, ◌+◌, ◌-◌, ◌/◌, ◌%◌, ◌^◌, Ordering, Bool, true, false, not, ◌&&◌, bit_and, bit_or,
  Option, none, some, List, [], ◌∷◌, ◌++◌, ltb, leb, min, ◌==◌, if◌then◌else◌, length, take, codes,
  bytes_order,
}
use mingfwq.Prelude.Decimal.{decimal}
use mingfwq.ByteArray.{Endian}
use mingfwq.ByteArray.Fixed.{byteswap_on_little_endian}

-- memcmp, its sign as an Ordering.
pub memcmp : List ℕ → List ℕ → ℕ → Ordering
memcmp a b n = bytes_order (take n a) (take n b)

-- The cascade on the result of memcmp, with whether the left address is shorter.
abbrev pub decide : Ordering → Bool → Bool
decide Ordering.lt shorter = true
decide Ordering.gt shorter = false
decide Ordering.eq shorter = shorter

-- Address::operator<
pub address_less : List ℕ → List ℕ → Bool
unfolding memcmp
address_less a b = decide (memcmp a b (min (length a) (length b))) (ltb (length a) (length b))

-- The int of memcmp as a condition.
abbrev pub is_not_zero : Ordering → Bool
is_not_zero Ordering.lt = true
is_not_zero Ordering.eq = false
is_not_zero Ordering.gt = true

-- Address::operator==
pub address_equal : List ℕ → List ℕ → Bool
unfolding memcmp
address_equal a b = (length a == length b) && is_not_zero (memcmp a b (length a))

-- Address::operator!=
pub address_differs : List ℕ → List ℕ → Bool
unfolding address_equal
address_differs a b = not (address_equal a b)

pub record Ipv4Address : Type 0 where
  pub family : ℕ
  pub port : ℕ
  pub addr : ℕ

-- AF_INET
abbrev pub af_inet : ℕ
af_inet = 2

-- The IPv4Address of an address and a port.
pub make_ipv4_address : Endian → ℕ → ℕ → Ipv4Address
make_ipv4_address host address port = record {
  family = af_inet;
  port = byteswap_on_little_endian host 2 port;
  addr = byteswap_on_little_endian host 4 address;
}

-- IPv4Address::getPort and setPort
pub get_port : Endian → Ipv4Address → ℕ
get_port host a = byteswap_on_little_endian host 2 a.port

pub set_port : Endian → ℕ → Ipv4Address → Ipv4Address
set_port host v a = record a { port = byteswap_on_little_endian host 2 v }

-- (addr >> k) & 0xff
abbrev pub byte_at : ℕ → ℕ → ℕ
byte_at addr k = bit_and (addr / 2 ^ k) 255

-- IPv4Address::insert
pub insert : Endian → Ipv4Address → List ℕ
insert host a =
    let addr = byteswap_on_little_endian host 4 a.addr in
    decimal (byte_at addr 24)
    ++ (codes "."
        ++ (decimal (byte_at addr 16)
            ++ (codes "."
                ++ (decimal (byte_at addr 8)
                    ++ (codes "."
                        ++ (decimal (bit_and addr 255)
                            ++ (codes ":"
                                ++ decimal (byteswap_on_little_endian host 2 a.port))))))))

-- CreateMask of an unsigned integer of `width` bits, at most 32: one bit. A shift by more bits
-- than an int has, which is undefined, is `none`.
pub create_mask : ℕ → ℕ → Option ℕ
create_mask width bits = if ltb bits width then some (2 ^ (width - bits - 1)) else none

-- The results of the three functions on a prefix: a null pointer is `none` within `some`.
-- IPv4Address::broadcastAddress
pub broadcast_address : Endian → ℕ → Ipv4Address → Option (Option Ipv4Address)
unfolding create_mask
broadcast_address host prefix_len a =
    if ltb 32 prefix_len then some none else elim (create_mask 32 prefix_len) [
      | none ↦ none
      | some mask ↦
          some (some (record a { addr = bit_or a.addr (byteswap_on_little_endian host 4 mask) }))
    ]

-- IPv4Address::networdAddress
pub netword_address : Endian → ℕ → Ipv4Address → Option (Option Ipv4Address)
unfolding create_mask
netword_address host prefix_len a =
    if ltb 32 prefix_len then some none else elim (create_mask 32 prefix_len) [
      | none ↦ none
      | some mask ↦
          some (some (record a { addr = bit_and a.addr (byteswap_on_little_endian host 4 mask) }))
    ]

-- IPv4Address::subnetMask
pub subnet_mask : Endian → ℕ → Option Ipv4Address
unfolding create_mask
subnet_mask host prefix_len = elim (create_mask 32 prefix_len) [
  | none ↦ none
  | some mask ↦ some (record {
    family = af_inet;
    port = 0;
    addr = 2 ^ 32 - 1 - byteswap_on_little_endian host 4 mask;
  })
]

-- The loop of CountBytes, with fuel for its rounds: `none` where it is used up.
pub count_loop : ℕ → ℕ → ℕ → Option ℕ
count_loop zero value result = none
count_loop (suc fuel) value result = elim (value == 0) [
  | true ↦ some result
  | false ↦ count_loop fuel (bit_and value (value - 1)) (result + 1)
]

-- CountBytes
pub count_bytes : ℕ → ℕ → Option ℕ
unfolding count_loop
count_bytes fuel value = count_loop fuel value 0

abbrev pub put_before : ℕ → Option (List ℕ × List ℕ) → Option (List ℕ × List ℕ)
put_before a none = none
put_before a (some (s, t)) = some (a ∷ s, t)

-- memchr: the text before the first byte that is `c`, and that behind it.
abbrev pub cut_at : ℕ → List ℕ → Option (List ℕ × List ℕ)
cut_at c [] = none
cut_at c (a ∷ s) = let later = put_before a (cut_at c s) in if a == c then some ([], s) else later

-- The service behind the bracket that ends an IPv6 address.
abbrev pub after_bracket : List ℕ → Option (List ℕ)
after_bracket [] = none
after_bracket (a ∷ s) = if a == b':' then some s else none

-- The node and the service of a host in brackets; the node is empty if there are none.
pub bracketed : List ℕ → List ℕ × Option (List ℕ)
bracketed [] = ([], none)
bracketed (a ∷ s) =
    if a == b'['
    then elim (cut_at b']' s) [ none ↦ ([], none) | some r ↦ (r.0, after_bracket r.1) ]
    else ([], none)

-- The node and the service at the first colon, if it is the only one.
pub at_colon : List ℕ → List ℕ × Option (List ℕ)
at_colon host = elim (cut_at b':' host) [
  | none ↦ ([], none)
  | some r ↦ elim (cut_at b':' r.1) [ none ↦ (r.0, some r.1) | some more ↦ ([], some (b':' ∷ r.1)) ]
]

-- The pair, or another one if its node is empty.
abbrev pub or_next_node :
    List ℕ × Option (List ℕ) → List ℕ × Option (List ℕ) → List ℕ × Option (List ℕ)
or_next_node ([], service) next = next
or_next_node (a ∷ node, service) next = (a ∷ node, service)

-- node = host, if it is empty.
abbrev pub or_host : List ℕ → List ℕ × Option (List ℕ) → List ℕ × Option (List ℕ)
or_host host ([], service) = (host, service)
or_host host (a ∷ node, service) = (a ∷ node, service)

-- What Lookup passes to getaddrinfo: the node and the service.
pub node_service : List ℕ → List ℕ × Option (List ℕ)
unfolding bracketed at_colon
node_service host = or_host host (or_next_node (bracketed host) (at_colon host))
