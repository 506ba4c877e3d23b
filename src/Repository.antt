-- ===== src/Repository.antt =====
-- repository/iprange.go, repository/node.go and repository/repository.go: the index of the known
-- nodes. `goAddresses` is a step on each event that its select receives, `goRetrieval` a search in
-- the index. The text of an address (`addr.String()`) is a parameter. The proofs are in the modules
-- below.
pub mod Ranges
pub mod Addresses
pub mod Queues
pub mod Retrieval
pub mod Index
pub mod Attempts
pub mod Growth
pub mod Waiting
pub mod Backup
use Prim.Native.Nat.{Ordering}
use mathlib.Core.List.{foldl}
use passive_bitcoin.Prelude.{
  ℕ, ◌+◌, ◌%◌, ◌*◌, ◌^◌, String, Bool, true, false, ◌&&◌, Option, none, some, List, [], ◌∷◌, ◌++◌,
  ltb, leb, if◌then◌else◌, any, length, map, ◌>>=◌,
}
use passive_bitcoin.Assoc
use passive_bitcoin.Assoc.{Assoc}
use passive_bitcoin.Net.{Ip, TcpAddr, Time, second, minute, compare_bytes, to4, parse_ip}

-- ipRange
pub record IpRange : Type 0 where
  pub start : Ip
  pub end : Ip

abbrev pub or_nil : Option Ip → Ip
or_nil none = []
or_nil (some ip) = ip

-- newIPRange
unfoldable pub new_ip_range : String → String → IpRange
new_ip_range start end = record { start = or_nil (parse_ip start); end = or_nil (parse_ip end) }

-- The tests `>= 0` and `<= 0` of a result of bytes.Compare
abbrev pub at_least : Ordering → Bool
at_least Ordering.lt = false
at_least _ = true

abbrev pub at_most : Ordering → Bool
at_most Ordering.gt = false
at_most _ = true

-- includes
unfoldable pub includes : IpRange → Ip → Bool
includes r ip = at_least (compare_bytes r.start ip) && at_most (compare_bytes r.end ip)

-- node; a uint32 counter wraps at 2 ^ 32.
pub record Node : Type 0 where
  pub addr : TcpAddr
  pub num_seen : ℕ
  pub num_attempts : ℕ
  pub last_attempted : Time
  pub last_connected : Time
  pub last_succeeded : Time

-- newNode
unfoldable pub new_node : TcpAddr → Node
new_node addr = record {
  addr = addr;
  num_seen = 1;
  num_attempts = 0;
  last_attempted = 0;
  last_connected = 0;
  last_succeeded = 0;
}

-- One value in a gob stream, by its type.
pub data GobValue : Type 0 where
  gob_addr : TcpAddr → GobValue
  gob_uint : ℕ → GobValue
  gob_time : Time → GobValue

-- GobEncode: the values in the order in which they are encoded
unfoldable pub gob_encode : Node → List GobValue
gob_encode n =
    gob_addr n.addr
    ∷ gob_uint n.num_attempts
    ∷ gob_time n.last_attempted
    ∷ gob_time n.last_connected
    ∷ gob_time n.last_succeeded
    ∷ []

-- GobDecode, into a node; `none` is a decoding error.
unfoldable pub gob_decode : List GobValue → Node → Option Node
gob_decode (gob_addr a ∷ gob_uint n ∷ gob_time t ∷ gob_time u ∷ gob_time v ∷ rest) node =
    some (record node {
      addr = a;
      num_attempts = n;
      last_attempted = t;
      last_connected = u;
      last_succeeded = v;
    })
gob_decode _ node = none

-- What the backup file holds: the encoded index, or nothing that decodes.
abbrev pub Contents : Type 0
Contents = Option (Assoc (List GobValue))

-- Repository, less its channels and tickers, which are the events below
pub record Repository : Type 0 where
  pub node_index : Assoc Node
  pub file : Option Contents
  pub seeds_list : List String
  pub seeds_port : ℕ
  pub backup_path : String
  pub backup_rate : Time
  pub node_limit : ℕ  -- uint32
  pub invalid_range : List IpRange

-- The options of New: SetSeedsList, SetSeedsPort, SetBackupPath, SetBackupRate, SetNodeLimit
pub data Setting : Type 0 where
  set_seeds_list : List String → Setting
  set_seeds_port : ℕ → Setting
  set_backup_path : String → Setting
  set_backup_rate : Time → Setting
  set_node_limit : ℕ → Setting

unfoldable pub apply : Repository → Setting → Repository
apply repo (set_seeds_list seeds) = record repo { seeds_list = seeds }
apply repo (set_seeds_port port) = record repo { seeds_port = port }
apply repo (set_backup_path path) = record repo { backup_path = path }
apply repo (set_backup_rate rate) = record repo { backup_rate = rate }
apply repo (set_node_limit limit) = record repo { node_limit = limit }

-- The values that New sets before the options
abbrev pub defaults : Repository
defaults = record {
  node_index = [];
  file = none;
  seeds_list = "testnet-seed.bitcoin.petertodd.org" ∷ [];
  seeds_port = 18333;
  backup_path = "nodes.dat";
  backup_rate = 90 * second;
  node_limit = 100000;
  invalid_range = [];
}

-- addRange
unfoldable pub add_range : Repository → IpRange → Repository
add_range repo r = record repo { invalid_range = repo.invalid_range ++ r ∷ [] }

-- The ranges that New adds
unfoldable pub reserved : List IpRange
unfolding new_ip_range
reserved =
    new_ip_range "0.0.0.0" "0.255.255.255"
    ∷ new_ip_range "10.0.0.0" "10.255.255.255"
    ∷ new_ip_range "100.64.0.0" "100.127.255.255"
    ∷ new_ip_range "127.0.0.0" "127.255.255.255"
    ∷ new_ip_range "169.254.0.0" "169.254.255.255"
    ∷ new_ip_range "172.16.0.0" "172.32.255.255"
    ∷ new_ip_range "192.0.0.0" "192.0.0.255"
    ∷ new_ip_range "192.0.2.0" "192.0.2.255"
    ∷ new_ip_range "192.88.99.0" "192.88.99.255"
    ∷ new_ip_range "192.168.0.0" "192.168.255.255"
    ∷ new_ip_range "198.18.0.0" "198.19.255.255"
    ∷ new_ip_range "198.51.100.0" "198.51.100.255"
    ∷ new_ip_range "203.0.113.0" "203.0.113.255"
    ∷ new_ip_range "224.0.0.0" "239.255.255.255"
    ∷ new_ip_range "240.0.0.0" "255.255.255.255"
    ∷ []

-- New; `create` says for which paths os.Create succeeds. It leaves an empty file.
unfoldable pub new : (String → Bool) → List Setting → Option Repository
unfolding apply
new create settings =
    let repo = foldl apply defaults settings in
    if create repo.backup_path
    then some (foldl add_range (record repo { file = some none }) reserved)
    else none

-- What the file operations of `save` return; a failing encoder leaves the given contents.
pub record SaveIo : Type 0 where
  pub truncate_ok : Bool
  pub seek_ok : Bool
  pub encode_err : Option Contents

unfoldable pub encode_index : Assoc Node → Assoc (List GobValue)
encode_index [] = []
encode_index ((k, n) ∷ index) = (k, gob_encode n) ∷ encode_index index

-- save
unfoldable pub save : SaveIo → Repository → Repository
save io repo =
    let done : Contents = elim io.encode_err [
      | none ↦ some (encode_index repo.node_index)
      | some left ↦ left
    ] in
    elim repo.file [
      | none ↦ repo
      | some old ↦
          if io.truncate_ok
          then if io.seek_ok
            then record repo { file = some done }
            else record repo { file = some none }
          else repo
    ]

-- The node that gob decodes into: every field has its zero value.
abbrev pub zero_node : Node
zero_node = record (new_node (record { ip = []; port = 0 })) {
  addr = record { ip = []; port = 0 };
  num_seen = 0;
  num_attempts = 0;
  last_attempted = 0;
  last_connected = 0;
  last_succeeded = 0;
}

-- Decoding of an index into a map: it stops at the first entry that does not decode.
unfoldable pub decode_index : Assoc (List GobValue) → Assoc Node → Assoc Node
decode_index [] index = index
decode_index ((k, values) ∷ rest) index = elim (gob_decode values zero_node) [
  | none ↦ index
  | some n ↦ decode_index rest (Assoc.insert k n index)
]

-- restore; `seek_ok` is what the file returns.
unfoldable pub restore : Bool → Repository → Repository
restore seek_ok repo = elim repo.file [
  | some (some entries) ↦
      if seek_ok then record repo { node_index = decode_index entries repo.node_index } else repo
  | some none ↦ repo
  | none ↦ repo
]

-- The addresses of the seeds, in order; a seed whose lookup fails is passed over.
unfoldable pub seed_addrs : (String → Option (List Ip)) → ℕ → List String → List TcpAddr
seed_addrs lookup_ip port [] = []
seed_addrs lookup_ip port (seed ∷ rest) =
    let later = seed_addrs lookup_ip port rest in
    elim (lookup_ip seed) [
      | none ↦ later
      | some ips ↦ map (λ ip. record { ip = ip; port = port }) ips ++ later
    ]

-- bootstrap: what is handed to Discovered; `lookup_ip` is net.LookupIP.
unfoldable pub bootstrap : (String → Option (List Ip)) → Repository → List TcpAddr
unfolding seed_addrs
bootstrap lookup_ip repo = seed_addrs lookup_ip repo.seeds_port repo.seeds_list
