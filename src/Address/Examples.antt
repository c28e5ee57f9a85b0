-- ===== src/Address/Examples.antt =====
-- Addresses that are compared, printed and taken apart.
use mingfwq.Prelude.{
  bytes_order, ℕ, ◌+◌, ◌*◌, ◌≡◌, ◌≢◌, ◌↔◌, refl, arith, true, false, none, some, List, [], ◌∷◌,
  ◌++◌, length, codes,
}
use mingfwq.Prelude.Decimal.{decimal}
use mingfwq.ByteArray.{little}
use mingfwq.Address.{address_equal, make_ipv4_address, insert, count_bytes, node_service}
use mingfwq.Address.Order.{address_equal_iff}
use mingfwq.Address.Ports.{insert-make_ipv4_address}
use mingfwq.Address.Ones.{ones, count_bytes-ones}
use mingfwq.Address.Hosts.{Without, node_service_lem}

abbrev one : List ℕ
one = 2 ∷ 0 ∷ []

abbrev other : List ℕ
other = 2 ∷ 1 ∷ []

one_is_not_equal : address_equal one one ≡ false
unfolding address_equal bytes_order
one_is_not_equal = refl

address_equal_iff_example :
    (address_equal one other ≡ true) ↔ ((length one ≡ length other) × (one ≢ other))
address_equal_iff_example = address_equal_iff one other

insert-make_ipv4_address_example :
    insert little (make_ipv4_address little (((127 * 256 + 0) * 256 + 0) * 256 + 1) 80)
    ≡ decimal 127
      ++ (codes "."
          ++ (decimal 0
              ++ (codes "."
                  ++ (decimal 0 ++ (codes "." ++ (decimal 1 ++ (codes ":" ++ decimal 80)))))))
insert-make_ipv4_address_example =
    insert-make_ipv4_address little 127 0 0 1 80 (omega arith) (omega arith) (omega arith)
      (omega arith) (omega arith)

count_bytes-ones_example : count_bytes 33 0xffffff00 ≡ some (ones 32 0xffffff00)
count_bytes-ones_example = count_bytes-ones 32 0xffffff00 33 (omega arith) (omega arith)

node_service_lem_example :
    (node_service (codes "localhost") ≡ (codes "localhost", none))
    × ((Without b':' (codes "80")
          → node_service (codes "localhost:80") ≡ (codes "localhost", some (codes "80")))
        × ((node_service (codes "[fe80::1]:80") ≡ (codes "fe80::1", some (codes "80")))
            × ((more : List ℕ)
                → Without b':' (codes "80")
                → node_service (codes "localhost:80" ++ (b':' ∷ more))
                  ≡ (codes "localhost:80" ++ (b':' ∷ more), some (codes ":80" ++ (b':' ∷ more))))))
unfolding Without
node_service_lem_example =
    node_service_lem b'l' b'f' (codes "ocalhost") (codes "e80::1") (codes "80") (ground arith)
      (ground arith) (ground arith)
