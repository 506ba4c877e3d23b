-- ===== src/Util/Version.antt =====
-- MinUint32 and ParseNetAddress of util/util.go.
use passive_bitcoin.Prelude.{ℕ, ◌≤◌, ◌≡◌, ◌⊎◌, arith, length}
use passive_bitcoin.Net.{to16}
use passive_bitcoin.Util.{NetAddress, min_uint32, parse_net_address}

-- The result of MinUint32 is the larger of its arguments: it is one of them, and both are at most it.
pub min_uint32-max :
    (x y : ℕ)
    → (x ≤ min_uint32 x y) × (y ≤ min_uint32 x y) × ((min_uint32 x y ≡ x) ⊎ (min_uint32 x y ≡ y))
unfolding min_uint32
min_uint32-max x y = ground arith

-- ParseNetAddress returns an address of 16 bytes and the port of its argument.
pub length-parse_net_address :
    (na : NetAddress)
    → (length (parse_net_address na).ip ≡ 16) × ((parse_net_address na).port ≡ na.port)
unfolding parse_net_address to16
length-parse_net_address na = ground arith
