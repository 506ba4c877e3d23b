-- ===== src/Util.antt =====
-- util/util.go: the local addresses, the helper of the version negotiation, and wire addresses as
-- TCP addresses. The proofs are in the modules below.
pub mod LocalIps
pub mod Version
use passive_bitcoin.Prelude.{
  ℕ, String, Bool, true, false, ◌&&◌, ◌||◌, Option, none, some, List, [], ◌∷◌, ◌++◌, ltb, ◌==◌,
  if◌then◌else◌, length, replicate,
}
use passive_bitcoin.Net.{Ip, TcpAddr, ipv4, to4, to16, compare_bytes}
use Prim.Native.Nat.{Ordering}

-- wire.NetAddress, the fields that the program reads
pub record NetAddress : Type 0 where
  pub ip : Ip
  pub port : ℕ  -- uint16
  pub timestamp : ℕ
  pub services : ℕ

-- net.Addr of an interface, by its dynamic type
pub data IfaceAddr : Type 0 where
  ip_net ip_addr : Ip → IfaceAddr
  other_addr : IfaceAddr

-- net.Interface; `addrs` is what `Addrs()` returns, with its error.
pub record Interface : Type 0 where
  pub up : Bool
  pub loopback : Bool
  pub addrs : List IfaceAddr
  pub addrs_err : Option String

-- ip.IsLoopback() of the standard library
unfoldable pub is_loopback : Ip → Bool
is_loopback ip = elim (to4 ip) [
  | some (b ∷ bs) ↦ b == 127
  | some [] ↦ false
  | none ↦ elim (compare_bytes ip (replicate 15 0 ++ 1 ∷ [])) [ Ordering.eq ↦ true | _ ↦ false ]
]

-- The switch on the dynamic type of an address; `none` is its default.
abbrev pub ip_of : IfaceAddr → Option Ip
ip_of (ip_net ip) = some ip
ip_of (ip_addr ip) = some ip
ip_of other_addr = none

-- An address of a known type is kept if it is no loopback address.
abbrev pub keep : Option Ip → List Ip
keep none = []
keep (some ip) = if is_loopback ip then [] else ip ∷ []

-- The loop over the addresses of one interface.
unfoldable pub valid_ips : List IfaceAddr → List Ip
valid_ips [] = []
valid_ips (addr ∷ rest) = keep (ip_of addr) ++ valid_ips rest

abbrev latest : Option String → Option String → Option String
latest none last_err = last_err
latest (some e) last_err = some e

-- The loop over the interfaces: the addresses kept, and the last error.
unfoldable pub scan : List Interface → List Ip → Option String → List Ip × Option String
scan [] ips last_err = (ips, last_err)
scan (iface ∷ rest) ips last_err =
    let skip = scan rest ips last_err in
    let take = scan rest (ips ++ valid_ips iface.addrs) (latest iface.addrs_err last_err) in
    if iface.up then (if iface.loopback then skip else take) else skip

-- What a call returns: a list of addresses, which may be nil, and an error, which may be nil.
pub record Found : Type 0 where
  pub ips : List Ip
  pub err : Option String

-- The test of `len(ips) == 0` after the loop.
unfoldable pub conclude : List Ip × Option String → Found
conclude ([], last_err) = record { ips = []; err = last_err }
conclude (ip ∷ ips, last_err) = record { ips = ip ∷ ips; err = none }

-- FindLocalIPs; the argument is what `net.Interfaces()` returns, `inr` an error.
unfoldable pub find_local_ips : List Interface → Option String → Found
unfolding scan conclude
find_local_ips ifaces none = conclude (scan ifaces [] none)
find_local_ips ifaces (some e) = record { ips = []; err = some e }

-- MinUint32
unfoldable pub min_uint32 : ℕ → ℕ → ℕ
min_uint32 x y = if ltb y x then x else y

-- ParseNetAddress. `net.ParseIP(ip.String())` is the 16-byte form of an address of 4 or 16 bytes,
-- and nil for any other length.
unfoldable pub parse_net_address : NetAddress → TcpAddr
parse_net_address na = record {
  ip = elim (to16 na.ip) [ none ↦ ipv4 0 0 0 0 | some ip ↦ ip ];
  port = na.port;
}
