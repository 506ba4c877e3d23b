-- ===== src/Peer/Protocol.antt =====
-- processMessage of peer/peer.go and the methods that queue a message. A message is processed as
-- one step: the atomic reads and writes of one call are not interleaved with other goroutines.
-- `none` is a run-time panic.
use mathlib.Core.Option
use passive_bitcoin.Prelude.{
  ℕ, Bool, true, false, Option, none, some, List, [], ◌∷◌, ◌++◌, if◌then◌else◌, ◌==◌, ◌&&◌, ◌>>=◌,
  not, ltb, leb, map, ◌||◌,
}
use passive_bitcoin.Util.{min_uint32, parse_net_address}
use passive_bitcoin.Peer.{
  Wire, InvVect, VersionMsg, Message, Conn, Peer, Effect, msg_version, msg_ver_ack, msg_get_addr,
  msg_ping, msg_pong, msg_addr, msg_inv, msg_get_data, msg_block, msg_tx, send, stop, ready,
  discovered, add_block, add_tx, process,
}

-- What the tracker knows when the message is processed.
pub record Knows (H : Type 0) : Type 0 where
  pub knows_block : H → Bool
  pub knows_tx : H → Bool

-- What a method returns: the peer, and what was done in order.
abbrev pub Done : Type 0 → Type 0 → Type 0
Done Q H = Option (Peer Q × List (Effect Q H))

module _ {Q : Type 0} where
  -- The message that pushVersion builds; without parsed addresses building it panics.
  unfoldable pub version_msg : Wire → Peer Q → Option VersionMsg
  version_msg wire p = do
    me ← p.me
    you ← p.you
    some (record {
      protocol_version = wire.reject_version;
      services = wire.sf_node_network;
      addr_me = me;
      addr_you = record you { services = wire.sf_node_network };
      nonce = p.nonce;
      user_agent = ("Satoshi", "0.9.3");
    })

module _ {H : Type 0} where
  -- The item is left out of a request: the loop of pushGetData passes it over.
  unfoldable pub is_known : Knows H → InvVect H → Bool
  is_known tracker inv =
      (inv.type == 0 && tracker.knows_block inv.hash)
      || (inv.type == 1 && tracker.knows_tx inv.hash)

  unfoldable pub wanted : Knows H → List (InvVect H) → List (InvVect H)
  unfolding is_known
  wanted tracker [] = []
  wanted tracker (inv ∷ rest) =
      let later = wanted tracker rest in if is_known tracker inv then later else inv ∷ later

  abbrev pub is_version : Message H → Bool
  is_version (msg_version m) = true
  is_version _ = false

module _ {Q H : Type 0} where
  -- pushVersion
  unfoldable pub push_version : Wire → Peer Q → Done Q H
  unfolding version_msg
  push_version wire p =
      let p' = record p { sent = 1 } in
      let pushed : Done Q H =
        Option.map (λ m. (p', send (msg_version m) ∷ [])) (version_msg wire p) in
      if p.sent == 1 then some (p', []) else pushed

  -- pushVerAck
  abbrev pub push_ver_ack : Effect Q H
  push_ver_ack = send msg_ver_ack

  -- pushPong
  abbrev pub push_pong : ℕ → Effect Q H
  push_pong nonce = send (msg_pong nonce)

  -- pushPing
  unfoldable pub push_ping : Peer Q → Done Q H
  push_ping p = some (p, send (msg_ping p.nonce) ∷ [])

  -- pushGetAddr
  unfoldable pub push_get_addr : Peer Q → Done Q H
  push_get_addr p = some (p, send msg_get_addr ∷ [])

  -- pushGetData
  unfoldable pub push_get_data : Knows H → List (InvVect H) → Effect Q H
  unfolding wanted
  push_get_data tracker invs = send (msg_get_data (wanted tracker invs))

  -- The records handed to the processors, if both addresses of the connection are TCP addresses
  unfoldable pub recorded : Peer Q → Conn → Message H → List (Effect Q H)
  recorded p conn msg = elim conn.remote [
    | none ↦ []
    | some ra ↦ elim conn.local [ none ↦ [] | some la ↦ map (λ rec. process rec msg ra la) p.recs ]
  ]

  -- The part of the version case that comes after its checks
  unfoldable pub accept_version : Wire → Peer Q → VersionMsg → Done Q H
  unfolding push_version
  accept_version wire p m =
      let p' = record p { version = min_uint32 p.version m.protocol_version; sent = 1 } in
      let reply : Done Q H =
        Option.map (λ (q, calls). (q, push_ver_ack ∷ calls)) (push_version wire p') in
      if not (p.sent == 1) then reply else some (p', push_ver_ack ∷ ready ∷ [])

  -- case *wire.MsgVersion
  unfoldable pub on_version : Wire → Peer Q → VersionMsg → Done Q H
  unfolding accept_version
  on_version wire p m =
      let p' = record p { rcvd = 1 } in
      if p.rcvd == 1
      then some (p', stop ∷ [])
      else if m.nonce == p.nonce
      then some (p', stop ∷ [])
      else if ltb m.protocol_version wire.multiple_address_version
      then some (p', stop ∷ [])
      else accept_version wire p' m

  -- The type switch
  unfoldable pub dispatch : Wire → Knows H → Peer Q → Message H → Done Q H
  unfolding on_version push_get_data
  dispatch wire tracker p (msg_version m) = on_version wire p m
  dispatch wire tracker p msg_ver_ack =
      some (p, if p.sent == 1 && p.rcvd == 1 then ready ∷ [] else [])
  dispatch wire tracker p (msg_ping nonce) =
      some (p, if leb wire.bip0031_version p.version then push_pong nonce ∷ [] else [])
  dispatch wire tracker p (msg_addr addrs) =
      some (p, map (λ na. discovered (parse_net_address na)) addrs)
  dispatch wire tracker p (msg_inv invs) = some (p, push_get_data tracker invs ∷ [])
  dispatch wire tracker p (msg_block hash) = some (p, add_block hash ∷ [])
  dispatch wire tracker p (msg_tx hash) = some (p, add_tx hash ∷ [])
  dispatch wire tracker p _ = some (p, [])

  -- The check for messages before the version message, and the switch
  unfoldable pub handle : Wire → Knows H → Peer Q → Message H → Done Q H
  unfolding dispatch
  handle wire tracker p msg =
      if p.rcvd == 0 && not (is_version msg)
      then some (p, stop ∷ [])
      else dispatch wire tracker p msg

  -- processMessage
  unfoldable pub process_message : Wire → Knows H → Peer Q → Message H → Done Q H
  unfolding recorded handle
  process_message wire tracker p msg = do
    conn ← p.conn
    (q, calls) ← handle wire tracker p msg
    some (q, recorded p conn msg ++ calls)
