-- ===== src/Peer.antt =====
-- peer/peer.go: one peer of the Bitcoin network. The parts of the wire package that the code reads
-- are a parameter, `Wire`. The methods are in `Peer.Connection` and `Peer.Protocol`;
-- the proofs are in the other modules below.
pub mod Connection
pub mod Protocol
pub mod Calls
pub mod Loops
pub mod Sending
pub mod Receiving
pub mod Lifetime
pub mod Handshake
pub mod Rules
use mathlib.Core.List.{foldl}
use passive_bitcoin.Prelude.{ℕ, zero, String, Bool, Option, none, some, List, []}
use passive_bitcoin.Net.{TcpAddr}
use passive_bitcoin.Util.{NetAddress}

-- The constants of the wire package, and wire.NewNetAddress with the service flag of a full node.
pub record Wire : Type 0 where
  pub multiple_address_version : ℕ
  pub bip0031_version : ℕ
  pub reject_version : ℕ
  pub test_net3 : ℕ
  pub sf_node_network : ℕ
  pub new_net_address : TcpAddr → Option NetAddress

-- wire.InvVect; `H` is wire.ShaHash.
pub record InvVect (H : Type 0) : Type 0 where
  pub type : ℕ
  pub hash : H

-- wire.MsgVersion, the fields that the code reads or sets; `protocol_version` is the bit pattern of
-- the int32.
pub record VersionMsg : Type 0 where
  pub protocol_version : ℕ
  pub services : ℕ
  pub addr_me : NetAddress
  pub addr_you : NetAddress
  pub nonce : ℕ
  pub user_agent : String × String

-- wire.Message, by the type switch of processMessage; `other` stands for every type that the switch
-- leaves to its default.
pub data Message (H : Type 0) : Type 0 where
  msg_version : VersionMsg → Message H
  msg_ver_ack msg_get_addr msg_get_headers msg_headers msg_get_blocks msg_alert : Message H
  msg_ping msg_pong : ℕ → Message H
  msg_addr : List NetAddress → Message H
  msg_inv msg_get_data : List (InvVect H) → Message H
  msg_block msg_tx : H → Message H
  other : ℕ → Message H

-- net.TCPConn: its two addresses, `none` where the type assertion to a TCP address fails.
pub record Conn : Type 0 where
  pub local : Option TcpAddr
  pub remote : Option TcpAddr

-- Peer, less its queues and signals; `Q` is adaptor.Processor. The four flags hold 0 or 1.
pub record Peer (Q : Type 0) : Type 0 where
  pub recs : List Q
  pub network : ℕ
  pub version : ℕ  -- uint32
  pub nonce : ℕ  -- uint64
  pub addr : Option TcpAddr
  pub conn : Option Conn
  pub me : Option NetAddress
  pub you : Option NetAddress
  pub started : ℕ
  pub finished : ℕ  -- `done`
  pub sent : ℕ
  pub rcvd : ℕ

-- What a method does outside of the peer: it sends to the peer's own queue, calls the manager, the
-- repository, the tracker or a processor, starts the goroutines, or closes the connection.
pub data Effect (Q H : Type 0) : Type 0 where
  send : Message H → Effect Q H
  stop ready connected stopped start_routines close_conn : Effect Q H
  discovered : TcpAddr → Effect Q H
  add_block add_tx : H → Effect Q H
  process : Q → Message H → TcpAddr → TcpAddr → Effect Q H

-- The options of New that set a field of the model
pub data Setting (Q : Type 0) : Type 0 where
  set_processors : List Q → Setting Q
  set_network set_version set_nonce : ℕ → Setting Q
  set_address : TcpAddr → Setting Q
  set_connection : Conn → Setting Q

module _ {Q : Type 0} where
  unfoldable pub apply : Peer Q → Setting Q → Peer Q
  apply p (set_processors recs) = record p { recs = recs }
  apply p (set_network network) = record p { network = network }
  apply p (set_version version) = record p { version = version }
  apply p (set_nonce nonce) = record p { nonce = nonce }
  apply p (set_address addr) = record p { addr = some addr }
  apply p (set_connection conn) = record p { conn = some conn }

  -- The values that New sets before the options
  abbrev pub starting : Wire → Peer Q
  starting wire = record {
    recs = [];
    network = wire.test_net3;
    version = wire.reject_version;
    nonce = 0;
    addr = none;
    conn = none;
    me = none;
    you = none;
    started = 0;
    finished = 0;
    sent = 0;
    rcvd = 0;
  }
