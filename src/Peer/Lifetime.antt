-- ===== src/Peer/Lifetime.antt =====
-- The start and the end of a peer of peer/peer.go.
use passive_bitcoin.Prelude.{◌+◌, ◌≤◌, ◌≡◌, refl, some, List, [], ◌∷◌, arith, ap}
use passive_bitcoin.Util.{parse_net_address}
use passive_bitcoin.Peer.{Wire, Message, Peer, Effect, msg_version, discovered}
use passive_bitcoin.Peer.Connection.{connect, startup, shutdown}
use passive_bitcoin.Peer.Protocol.{Knows, push_version, push_ping, push_get_addr, recorded, handle}
use passive_bitcoin.Peer.Calls.{
  Action, connecting, starting_up, shutting_down, greeting, polling, pinging, processing, act, run,
  count, is_stopped, starts_routines, count-append, count-map, count-recorded, process_parts,
  run_parts,
}

module _ {Q H : Type 0} where
  -- The two marks and the two kinds of calls that they guard.
  abbrev Guarded : Peer Q → Peer Q → List (Effect Q H) → Type 0
  Guarded p q calls =
      (count is_stopped calls + p.finished ≤ q.finished)
      × (q.finished ≤ 1)
      × (count starts_routines calls + p.started ≤ q.started)
      × (q.started ≤ 1)

  handle-Guarded :
      (wire : Wire) (tracker : Knows H) (p q : Peer Q) (msg : Message H) (calls : List (Effect Q H))
      → handle wire tracker p msg ≡ some (q, calls)
      → p.finished ≤ 1
      → p.started ≤ 1
      → Guarded p q calls
  unfolding handle count
  handle-Guarded wire tracker p q (msg_version m) calls e f s = ground arith
  handle-Guarded wire tracker p q (Message.msg_addr m) calls e f s = ground (
    arith,
    count-map {Q = Q} {H = H} is_stopped (λ na. discovered (parse_net_address na)) m (λ na. refl),
    count-map {Q = Q} {H = H} starts_routines (λ na. discovered (parse_net_address na)) m
        (λ na. refl),
  )
  handle-Guarded wire tracker p q _ calls e f s = ground arith

  act-Guarded :
      (wire : Wire) (p q : Peer Q) (a : Action H) (calls : List (Effect Q H))
      → act wire p a ≡ some (q, calls)
      → p.finished ≤ 1
      → p.started ≤ 1
      → Guarded p q calls
  unfolding act connect startup shutdown push_version push_ping push_get_addr count
  act-Guarded wire p q (connecting dial late) calls e f s = ground arith
  act-Guarded wire p q starting_up calls e f s = ground arith
  act-Guarded wire p q shutting_down calls e f s = ground arith
  act-Guarded wire p q greeting calls e f s = ground arith
  act-Guarded wire p q polling calls e f s = ground arith
  act-Guarded wire p q pinging calls e f s = ground arith
  act-Guarded wire p q (processing tracker msg) calls e f s =
      let (conn, own, there, handled, parts) = process_parts wire tracker p q msg calls e in
      let guarded = handle-Guarded wire tracker p q msg own handled f s in
      omega (
        arith,
        guarded,
        ap (count is_stopped) parts,
        ap (count starts_routines) parts,
        count-append is_stopped (recorded p conn msg) own,
        count-append starts_routines (recorded p conn msg) own,
        count-recorded {Q = Q} {H = H} is_stopped p conn msg (λ rec ra la. refl),
        count-recorded {Q = Q} {H = H} starts_routines p conn msg (λ rec ra la. refl),
      )

  -- Over any actions the manager is told at most once that the peer has stopped, and not at all if
  -- it had stopped before; the goroutines are started at most once, and not again.
  pub run-guarded :
      (wire : Wire) (p q : Peer Q) (as' : List (Action H)) (calls : List (Effect Q H))
      → run wire p as' ≡ some (q, calls)
      → p.finished ≤ 1
      → p.started ≤ 1
      → (count is_stopped calls + p.finished ≤ q.finished)
        × (q.finished ≤ 1)
        × (count starts_routines calls + p.started ≤ q.started)
        × (q.started ≤ 1)
  run-guarded wire p q [] calls e f s = unfold run count in ground arith
  run-guarded wire p q (a ∷ as') calls e f s =
      let (m, first, later, done, rest, parts) = run_parts wire p q a as' calls e in
      let one = act-Guarded wire p m a first done f s in
      let others = run-guarded wire m q as' later rest one.1 one.3 in
      omega (
        arith,
        one,
        others,
        ap (count is_stopped) parts,
        ap (count starts_routines) parts,
        count-append is_stopped first later,
        count-append starts_routines first later,
      )
