-- ===== src/Manager.antt =====
-- manager/manager.go: the peers under management. goEvents and goPeers are a step on each message
-- that their select receives, with the calls that the step makes on peers and on the repository.
-- `none` is a run-time panic. The proofs are in the modules below.
pub mod Lifecycle
pub mod Peers
pub mod Stops
pub mod Drain
use mathlib.Core.Option
use mathlib.Core.List.{foldl}
use passive_bitcoin.Prelude.{
  ℕ, ◌*◌, ◌/◌, String, Bool, true, false, Option, none, some, List, [], ◌∷◌, ◌++◌, map,
  if◌then◌else◌, ltb, ◌>>=◌,
}
use passive_bitcoin.Net.{Duration, second}
use passive_bitcoin.Text.{ℤ, pos}
use passive_bitcoin.ParMap
use passive_bitcoin.ParMap.{ParMap, Stringer}

-- The default configuration that comes from the wire package.
pub record WireConfig : Type 0 where
  pub test_net3 : ℕ
  pub reject_version : ℕ

-- Manager, less its queues and ticker, which are the messages below. `P` is adaptor.Peer, `R` the
-- repository, `T` the tracker and `Q` a processor; a value that was never injected is nil.
pub record Manager (P R T Q : Type 0) : Type 0 where
  pub peer_index : ParMap P
  pub network : ℕ
  pub version : ℕ
  pub conn_rate : Duration
  pub ticker_interval : Duration
  pub conn_limit : ℤ
  pub repo : Option R
  pub tkr : Option T
  pub pro : List Q
  pub nonce : ℕ

-- The options of New: SetProtocolMagic, SetProtocolVersion, SetConnectionRate, SetConnectionLimit,
-- SetTickerInterval
pub data Setting : Type 0 where
  set_protocol_magic set_protocol_version : ℕ → Setting
  set_connection_limit : ℤ → Setting
  set_connection_rate set_ticker_interval : Duration → Setting

-- What the select of goEvents receives.
pub data Event (P : Type 0) : Type 0 where
  sig_closed : Event P
  connected ready stopped : P → Event P

-- What the select of goPeers receives.
pub data PeersEvent (P : Type 0) : Type 0 where
  peers_closed : PeersEvent P
  incoming outgoing : P → PeersEvent P

-- The calls that a step makes.
pub data Call (P : Type 0) : Type 0 where
  repo_connected repo_succeeded : P → Call P
  start greet poll stop : P → Call P

-- Where goEvents is: in its loop, in the loop that drains the queues, or done.
pub data Phase : Type 0 where
  serving draining done : Phase

module _ {P R T Q : Type 0} where
  unfoldable pub apply : Manager P R T Q → Setting → Manager P R T Q
  apply mgr (set_protocol_magic network) = record mgr { network = network }
  apply mgr (set_protocol_version version) = record mgr { version = version }
  apply mgr (set_connection_rate rate) = record mgr { conn_rate = rate }
  apply mgr (set_connection_limit limit) = record mgr { conn_limit = limit }
  apply mgr (set_ticker_interval interval) = record mgr { ticker_interval = interval }

  -- The values that New sets before the options
  abbrev pub starting : WireConfig → ℕ → Manager P R T Q
  starting wire nonce = record {
    peer_index = ParMap.new [];
    network = wire.test_net3;
    version = wire.reject_version;
    conn_rate = pos (second / 10);
    ticker_interval = pos (second * 10);
    conn_limit = pos 100;
    repo = none;
    tkr = none;
    pro = [];
    nonce = nonce;
  }

  -- New; the nonce is what wire.RandomUint64 returns, `none` its error.
  unfoldable pub new : WireConfig → Option ℕ → List Setting → Option (Manager P R T Q)
  unfolding apply
  new wire random settings = do nonce ← random; some (foldl apply (starting wire nonce) settings)

  -- SetRepository
  unfoldable pub set_repository : Manager P R T Q → R → Manager P R T Q
  set_repository mgr repo = record mgr { repo = some repo }

  -- SetTracker
  unfoldable pub set_tracker : Manager P R T Q → T → Manager P R T Q
  set_tracker mgr tkr = record mgr { tkr = some tkr }

  -- AddProcessor
  unfoldable pub add_processor : Manager P R T Q → Q → Manager P R T Q
  add_processor mgr pro = record mgr { pro = mgr.pro ++ pro ∷ [] }

  -- The calls of Stop, after it has closed the signal
  unfoldable pub stop_all : Manager P R T Q → List (Call P)
  stop_all mgr = map stop (ParMap.iter mgr.peer_index)

  -- One round of goPeers: it drops the peer; the result says whether the loop goes on.
  unfoldable pub peers_step : Manager P R T Q → PeersEvent P → Manager P R T Q × Bool
  peers_step mgr peers_closed = (mgr, false)
  peers_step mgr (incoming p) = (mgr, true)
  peers_step mgr (outgoing p) = (mgr, true)

  -- The test of the loop that drains.
  unfoldable pub drain_phase : Manager P R T Q → Phase
  drain_phase mgr = if ltb 0 (ParMap.size mgr.peer_index) then draining else done

-- What a round leaves: where the goroutine is, the manager, and the calls in order.
pub record Round (P R T Q : Type 0) : Type 0 where
  pub phase : Phase
  pub mgr : Manager P R T Q
  pub calls : List (Call P)

module _ {P R T Q : Type 0} ⦃s : Stringer P⦄ where
  -- The cases of PeerLoop for a peer that is in the index. A call on a repository that was never
  -- injected is a panic.
  unfoldable pub serve : Manager P R T Q → Event P → Option (Round P R T Q)
  unfolding drain_phase
  serve mgr sig_closed = some (record { phase = drain_phase mgr; mgr = mgr; calls = [] })
  serve mgr (connected p) = do
    known ← ParMap.has mgr.peer_index p
    let calls = repo_connected p ∷ start p ∷ greet p ∷ []
    let welcome : Option (Round P R T Q) =
        Option.map (λ repo. record { phase = serving; mgr = mgr; calls = calls }) mgr.repo
    if known then welcome else some (record { phase = serving; mgr = mgr; calls = stop p ∷ [] })
  serve mgr (ready p) = do
    known ← ParMap.has mgr.peer_index p
    let calls = repo_succeeded p ∷ poll p ∷ []
    let welcome : Option (Round P R T Q) =
        Option.map (λ repo. record { phase = serving; mgr = mgr; calls = calls }) mgr.repo
    if known then welcome else some (record { phase = serving; mgr = mgr; calls = stop p ∷ [] })
  serve mgr (stopped p) = do
    known ← ParMap.has mgr.peer_index p
    let forget : Option (Round P R T Q) =
        Option.map
          (λ index. record { phase = serving; mgr = record mgr { peer_index = index }; calls = [] })
          (ParMap.remove mgr.peer_index p)
    if known then forget else some (record { phase = serving; mgr = mgr; calls = [] })

  -- The cases of the loop that drains; the closed signal is not received there.
  unfoldable pub drain : Manager P R T Q → Event P → Option (Round P R T Q)
  unfolding drain_phase
  drain mgr sig_closed = some (record { phase = draining; mgr = mgr; calls = [] })
  drain mgr (connected p) =
      some (record { phase = drain_phase mgr; mgr = mgr; calls = stop p ∷ [] })
  drain mgr (ready p) = some (record { phase = drain_phase mgr; mgr = mgr; calls = stop p ∷ [] })
  drain mgr (stopped p) = do
    index ← ParMap.remove mgr.peer_index p
    let mgr' = record mgr { peer_index = index }
    some (record { phase = drain_phase mgr'; mgr = mgr'; calls = [] })

  -- One round of goEvents; a goroutine that is done receives nothing.
  unfoldable pub step : Phase → Manager P R T Q → Event P → Option (Round P R T Q)
  unfolding serve drain
  step serving mgr e = serve mgr e
  step draining mgr e = drain mgr e
  step done mgr e = some (record { phase = done; mgr = mgr; calls = [] })

  -- goEvents over the messages that are sent, with all its calls.
  unfoldable pub run : Phase → Manager P R T Q → List (Event P) → Option (Round P R T Q)
  run phase mgr [] = some (record { phase = phase; mgr = mgr; calls = [] })
  run phase mgr (e ∷ es) = do
    first ← step phase mgr e
    rest ← run first.phase first.mgr es
    some (record rest { calls = first.calls ++ rest.calls })
