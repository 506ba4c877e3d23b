-- ===== src/Peer/Connection.antt =====
-- New, parse, connect, startup and shutdown of peer/peer.go.
use mathlib.Core.List.{foldl}
use passive_bitcoin.Prelude.{
  Bool, Option, none, some, List, [], ◌∷◌, ◌++◌, if◌then◌else◌, ◌==◌, ◌>>=◌, not,
}
use passive_bitcoin.Peer.{
  Wire, Conn, Peer, Effect, Setting, apply, starting, connected, stopped, start_routines,
  close_conn,
}

-- What net.DialTimeout returns: an error, a connection that is no TCP connection, or one that is.
pub data Dial : Type 0 where
  dial_error not_tcp : Dial
  dialled : Conn → Dial

module _ {Q : Type 0} where
  -- parse; `none` is its error. It is called with a connection only.
  unfoldable pub parse : Wire → Peer Q → Conn → Option (Peer Q)
  parse wire p conn = do
    addr ← p.addr
    you ← wire.new_net_address addr
    local ← conn.local
    me ← wire.new_net_address local
    some (record p { you = some you; me = some me })

  -- The part of New after the options
  unfoldable pub establish : Wire → Peer Q → Option (Peer Q)
  unfolding parse
  establish wire p = elim p.conn [
    | none ↦ elim p.addr [ none ↦ none | some addr ↦ some p ]
    | some conn ↦ do remote ← conn.remote; parse wire (record p { addr = some remote }) conn
  ]

  -- New; `none` is its error.
  unfoldable pub new : Wire → List (Setting Q) → Option (Peer Q)
  unfolding apply establish
  new wire settings = establish wire (foldl apply (starting wire) settings)

module _ {Q H : Type 0} where
  -- startup
  unfoldable pub startup : Peer Q → Peer Q × List (Effect Q H)
  startup p =
      let p' = record p { started = 1 } in
      if p.started == 1 then (p', []) else (p', start_routines ∷ [])

  abbrev close : Option Conn → List (Effect Q H)
  close none = []
  close (some conn) = close_conn ∷ []

  -- shutdown, after the goroutines have ended
  unfoldable pub shutdown : Peer Q → Peer Q × List (Effect Q H)
  shutdown p =
      let p' = record p { finished = 1 } in
      if p.finished == 1 then (p', []) else (p', close p.conn ++ stopped ∷ [])

  -- The end of connect: the connection is stored and parsed.
  unfoldable pub attach : Wire → Peer Q → Conn → Peer Q × List (Effect Q H)
  unfolding parse shutdown
  attach wire p conn =
      let p' = record p { conn = some conn } in
      elim (parse wire p' conn) [ none ↦ shutdown p' | some q ↦ (q, connected ∷ []) ]

  -- connect; `late` says that another goroutine shuts the peer down during the dial, whose calls
  -- come first.
  unfoldable pub connect : Wire → Dial → Bool → Peer Q → Peer Q × List (Effect Q H)
  unfolding attach shutdown
  connect wire dial late p =
      let other : Peer Q × List (Effect Q H) = if late then shutdown p else (p, []) in
      let (p', first) = other in
      let dialling : Peer Q × List (Effect Q H) = elim dial [
        | dial_error ↦ shutdown p'
        | not_tcp ↦ shutdown p'
        | dialled conn ↦
            if p'.finished == 1
            then (let (q, calls) = shutdown p' in (q, close_conn ∷ calls))
            else attach wire p' conn
      ] in
      if not (p.finished == 0) then (p, []) else elim p.conn [
        | some conn ↦ (p, [])
        | none ↦ let (q, calls) = dialling in (q, first ++ calls)
      ]
