-- ===== src/Peer/Handshake.antt =====
-- The version handshake of peer/peer.go: who sends a version message, and when the manager is told
-- that a peer is ready.
use passive_bitcoin.Prelude.{◌+◌, ◌≤◌, ◌≡◌, refl, some, List, [], ◌∷◌, ◌++◌, arith, ◌⊎◌, ap, ◌∙◌}
use passive_bitcoin.Util.{parse_net_address}
use passive_bitcoin.Peer.{Wire, Message, Peer, Effect, msg_version, discovered}
use passive_bitcoin.Peer.Connection.{connect, startup, shutdown}
use passive_bitcoin.Peer.Protocol.{
  Knows, push_version, push_ping, push_get_addr, recorded, handle, process_message,
}
use passive_bitcoin.Peer.Calls.{
  Action, connecting, starting_up, shutting_down, greeting, polling, pinging, processing, act, run,
  count, sends_version, is_ready, count-append, count-map, count-recorded, process_parts,
  connecting, run_parts, processing,
}

module _ {Q H : Type 0} where
  -- handle never sends a version message.
  handle_versions :
      (wire : Wire) (tracker : Knows H) (p q : Peer Q) (msg : Message H) (calls : List (Effect Q H))
      → handle wire tracker p msg ≡ some (q, calls)
      → p.sent ≤ 1
      → (count sends_version calls ≡ 0) × (p.sent ≤ q.sent) × (q.sent ≤ 1)
  unfolding handle count
  handle_versions wire tracker p q (msg_version m) calls e h = ground arith
  handle_versions wire tracker p q (Message.msg_addr m) calls e h = ground (
    arith,
    count-map {Q = Q} {H = H} sends_version (λ na. discovered (parse_net_address na)) m
        (λ na. refl),
  )
  handle_versions wire tracker p q _ calls e h = ground arith

  -- Processing a message never sends a version message, whatever the message and the state, and
  -- never takes the mark that one was sent away.
  pub process-sends_no_version :
      (wire : Wire) (tracker : Knows H) (p q : Peer Q) (msg : Message H) (calls : List (Effect Q H))
      → process_message wire tracker p msg ≡ some (q, calls)
      → p.sent ≤ 1
      → (count sends_version calls ≡ 0) × (p.sent ≤ q.sent) × (q.sent ≤ 1)
  process-sends_no_version wire tracker p q msg calls e h =
      let (conn, own, there, handled, parts) = process_parts wire tracker p q msg calls e in
      let (zero_own, grows, bound) = handle_versions wire tracker p q msg own handled h in
      (
        ap (count sends_version) parts
            ∙ count-append sends_version (recorded p conn msg) own
            ∙ omega (
              arith,
              zero_own,
              count-recorded {Q = Q} {H = H} sends_version p conn msg (λ rec ra la. refl),
            ),
        grows,
        bound,
      )

  -- The other actions: at most the one that finds the mark clear sends a version message.
  act_versions :
      (wire : Wire) (p q : Peer Q) (a : Action H) (calls : List (Effect Q H))
      → act wire p a ≡ some (q, calls)
      → p.sent ≤ 1
      → (count sends_version calls + p.sent ≤ q.sent) × (q.sent ≤ 1)
  unfolding act connect startup shutdown push_version push_ping push_get_addr count
  act_versions wire p q (connecting dial late) calls e h = ground arith
  act_versions wire p q starting_up calls e h = ground arith
  act_versions wire p q shutting_down calls e h = ground arith
  act_versions wire p q greeting calls e h = ground arith
  act_versions wire p q polling calls e h = ground arith
  act_versions wire p q pinging calls e h = ground arith
  act_versions wire p q (processing tracker msg) calls e h =
      omega (arith, process-sends_no_version wire tracker p q msg calls e h)

  -- Over any actions a peer sends its version message at most once, and not at all if it was
  -- already marked as sent.
  pub run-versions :
      (wire : Wire) (p q : Peer Q) (as' : List (Action H)) (calls : List (Effect Q H))
      → run wire p as' ≡ some (q, calls)
      → p.sent ≤ 1
      → (count sends_version calls + p.sent ≤ q.sent) × (q.sent ≤ 1)
  run-versions wire p q [] calls e h = unfold run count in ground arith
  run-versions wire p q (a ∷ as') calls e h =
      let (m, first, later, done, rest, parts) = run_parts wire p q a as' calls e in
      let one = act_versions wire p m a first done h in
      let others = run-versions wire m q as' later rest one.1 in
      omega
        (arith, one, others, ap (count sends_version) parts, count-append sends_version first later)

  -- A peer that accepts a version message before it was greeted, as on an incoming connection, has
  -- marked its own version message as sent and never sends one, whatever happens later.
  pub accepted-never_sends :
      (wire : Wire) (tracker : Knows H) (p q r : Peer Q) (msg : Message H) (as' : List (Action H))
      (calls later : List (Effect Q H))
      → p.sent ≡ 0
      → process_message wire tracker p msg ≡ some (q, calls)
      → q.sent ≡ 1
      → run wire q as' ≡ some (r, later)
      → count sends_version (calls ++ later) ≡ 0
  accepted-never_sends wire tracker p q r msg as' calls later unsent processed marked ran =
      let one = process-sends_no_version wire tracker p q msg calls processed (omega arith) in
      let others = run-versions wire q r as' later ran (omega arith) in
      omega (arith, one, others, count-append sends_version calls later)

  handle_ready :
      (wire : Wire) (tracker : Knows H) (p q : Peer Q) (msg : Message H) (calls : List (Effect Q H))
      → handle wire tracker p msg ≡ some (q, calls)
      → (count is_ready calls ≡ 0) ⊎ ((count is_ready calls ≡ 1) × (q.sent ≡ 1) × (q.rcvd ≡ 1))
  unfolding handle count
  handle_ready wire tracker p q (msg_version m) calls e = ground arith
  handle_ready wire tracker p q (Message.msg_addr m) calls e = ground (
    arith,
    count-map {Q = Q} {H = H} is_ready (λ na. discovered (parse_net_address na)) m (λ na. refl),
  )
  handle_ready wire tracker p q _ calls e = ground arith

  -- A message makes the manager be told at most once that the peer is ready, and then both sides'
  -- version messages are marked, the own one as sent and the other as received.
  pub process-ready :
      (wire : Wire) (tracker : Knows H) (p q : Peer Q) (msg : Message H) (calls : List (Effect Q H))
      → process_message wire tracker p msg ≡ some (q, calls)
      → (count is_ready calls ≡ 0) ⊎ ((count is_ready calls ≡ 1) × (q.sent ≡ 1) × (q.rcvd ≡ 1))
  process-ready wire tracker p q msg calls e =
      let (conn, own, there, handled, parts) = process_parts wire tracker p q msg calls e in
      let total : count is_ready calls ≡ count is_ready own =
        ap (count is_ready) parts
        ∙ count-append is_ready (recorded p conn msg) own
        ∙ omega (arith, count-recorded {Q = Q} {H = H} is_ready p conn msg (λ rec ra la. refl)) in
      rw total (handle_ready wire tracker p q msg own handled)
