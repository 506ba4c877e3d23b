-- ===== src/Server.antt =====
-- server/server.go: the server that accepts connections and hands them as peers to its manager.
-- The parsing of the host address and the listener of the net package are what their calls return.
use mathlib.Core.List.{foldl}
use passive_bitcoin.Prelude.{
  String, Bool, false, Option, none, some, List, [], ◌∷◌, str_eq, if◌then◌else◌,
}
use passive_bitcoin.Net.{TcpAddr}
use passive_bitcoin.Peer.{Wire, Conn, Peer, set_connection}
use passive_bitcoin.Peer.Connection

-- Server, less its signal and log; `M` is adaptor.Manager.
pub record Server (M : Type 0) : Type 0 where
  pub host : String
  pub mgr : Option M

-- SetHostAddress
pub data ServerSetting : Type 0 where
  set_host_address : String → ServerSetting

module _ {M : Type 0} where
  unfoldable pub apply : Server M → ServerSetting → Server M
  apply server (set_host_address host) = record server { host = host }

  -- New; `none` is its error.
  unfoldable pub new : List ServerSetting → Option (Server M)
  unfolding apply
  new settings =
      let server = foldl apply (record { host = ""; mgr = none }) settings in
      if str_eq server.host "" then none else some server

  -- SetManager
  unfoldable pub set_manager : Server M → M → Server M
  set_manager server mgr = record server { mgr = some mgr }

-- What AcceptTCP returns: a connection, or an error, which ends the loop whether the listener was
-- closed or not.
pub data Accept : Type 0 where
  accepted : Conn → Accept
  accept_error : Accept

-- What starts the listener: the results of SplitHostPort with ParseInt and ParseIP, and of
-- ListenTCP.
pub record Net : Type 0 where
  pub parse_host : String → Option TcpAddr
  pub listen_tcp : TcpAddr → Bool

abbrev pub can_listen : Net → Option TcpAddr → Bool
can_listen net none = false
can_listen net (some addr) = net.listen_tcp addr

module _ {M Q : Type 0} where
  -- The call of Incoming, and the calls of the rounds after it. Without a manager it panics.
  abbrev submit :
      Option M
      → Option (Peer Q)
      → Option (List (M × Option (Peer Q)))
      → Option (List (M × Option (Peer Q)))
  submit none p further = none
  submit (some mgr) p none = none
  submit (some mgr) p (some calls) = some ((mgr, p) ∷ calls)

  -- The loop of goListen: the calls of Incoming, with the peers; a peer is nil where peer.New
  -- fails. `none` is a panic.
  unfoldable pub accept_loop : Wire → Server M → List Accept → Option (List (M × Option (Peer Q)))
  unfolding Connection.new
  accept_loop wire server [] = some []
  accept_loop wire server (accept_error ∷ rest) = some []
  accept_loop wire server (accepted conn ∷ rest) =
      submit server.mgr (Connection.new wire (set_connection conn ∷ []))
        (accept_loop wire server rest)

  -- goListen; where the host cannot be parsed or listened to, it returns.
  unfoldable pub go_listen :
      Net → Wire → Server M → List Accept → Option (List (M × Option (Peer Q)))
  unfolding accept_loop
  go_listen net wire server events =
      if can_listen net (net.parse_host server.host)
      then accept_loop wire server events
      else some []
