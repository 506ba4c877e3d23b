-- ===== src/Peer/Calls.antt =====
-- The actions of a peer, one for each entry point of peer/peer.go, as sequences, and the calls that
-- they make, counted by kind.
use passive_bitcoin.Prelude.{
  ℕ, suc, ◌+◌, ◌≡◌, refl, Bool, true, false, Option, none, some, List, [], ◌∷◌, ◌++◌, if◌then◌else◌,
  arith, map, ◌>>=◌, some-injective, ap, sym, ◌∙◌, >>=-eq-some,
}
use passive_bitcoin.Net.{TcpAddr}
use passive_bitcoin.Peer.{
  Wire, Message, Conn, Peer, Effect, msg_version, send, stop, ready, stopped, start_routines,
  process,
}
use passive_bitcoin.Peer.Connection.{Dial, connect, startup, shutdown}
use passive_bitcoin.Peer.Protocol.{
  Knows, Done, push_version, push_ping, push_get_addr, recorded, handle, process_message,
}

-- Connect, Start, Stop, Greet and Poll, the ping of an idle connection, and a message that goProcess
-- takes from its queue, with what the tracker knows then.
pub data Action (H : Type 0) : Type 0 where
  connecting : Dial → Bool → Action H
  starting_up shutting_down greeting polling pinging : Action H
  processing : Knows H → Message H → Action H

module _ {Q H : Type 0} where
  unfoldable pub act : Wire → Peer Q → Action H → Done Q H
  act wire p (connecting dial late) = some (connect wire dial late p)
  act wire p starting_up = some (startup p)
  act wire p shutting_down = some (shutdown p)
  act wire p greeting = push_version wire p
  act wire p polling = push_get_addr p
  act wire p pinging = push_ping p
  act wire p (processing tracker msg) = process_message wire tracker p msg

  -- The actions of a peer in the order in which they happen, with all their calls
  unfoldable pub run : Wire → Peer Q → List (Action H) → Done Q H
  run wire p [] = some (p, [])
  run wire p (a ∷ as') = do
    (q, calls) ← act wire p a
    (r, later) ← run wire q as'
    some (r, calls ++ later)

  -- How many of the calls are of a kind.
  unfoldable pub count : (Effect Q H → Bool) → List (Effect Q H) → ℕ
  count kind [] = 0
  count kind (c ∷ calls) = let rest = count kind calls in if kind c then suc rest else rest

  abbrev pub sends_version : Effect Q H → Bool
  sends_version (send (msg_version m)) = true
  sends_version _ = false

  abbrev pub is_ready : Effect Q H → Bool
  is_ready ready = true
  is_ready _ = false

  abbrev pub is_stop : Effect Q H → Bool
  is_stop stop = true
  is_stop _ = false

  abbrev pub is_stopped : Effect Q H → Bool
  is_stopped stopped = true
  is_stopped _ = false

  abbrev pub starts_routines : Effect Q H → Bool
  starts_routines start_routines = true
  starts_routines _ = false

  pub count-append :
      (kind : Effect Q H → Bool) (xs ys : List (Effect Q H))
      → count kind (xs ++ ys) ≡ count kind xs + count kind ys
  unfolding count
  count-append kind [] ys = omega arith
  count-append kind (x ∷ xs) ys = ground (arith, count-append kind xs ys)

  pub count-map :
      {A : Type 0} (kind : Effect Q H → Bool) (f : A → Effect Q H) (xs : List A)
      → ((x : A) → kind (f x) ≡ false)
      → count kind (map f xs) ≡ 0
  unfolding count
  count-map kind f [] h = refl
  count-map kind f (x ∷ xs) h = ground (arith, h x, count-map kind f xs h)

  -- The records handed to the processors are of no other kind.
  pub count-recorded :
      (kind : Effect Q H → Bool) (p : Peer Q) (conn : Conn) (msg : Message H)
      → ((rec : Q) (ra la : TcpAddr) → kind (process rec msg ra la) ≡ false)
      → count kind (recorded p conn msg) ≡ 0
  unfolding recorded count
  count-recorded kind p conn msg h = go conn.remote conn.local
    where
      go :
          (remote local : Option TcpAddr)
          → count kind (elim remote [
            | none ↦ []
            | some ra ↦ elim local [
              | none ↦ []
              | some la ↦ map (λ rec. process rec msg ra la) p.recs
            ]
          ])
            ≡ 0
      go none local = refl
      go (some ra) none = refl
      go (some ra) (some la) =
          count-map kind (λ rec. process rec msg ra la) p.recs (λ rec. h rec ra la)

  -- What a message that is processed without a panic did: the records, then the handling.
  pub process_parts :
      (wire : Wire) (tracker : Knows H) (p q : Peer Q) (msg : Message H) (calls : List (Effect Q H))
      → process_message wire tracker p msg ≡ some (q, calls)
      → (conn : Conn) × (own : List (Effect Q H)) × (p.conn ≡ some conn)
        × (handle wire tracker p msg ≡ some (q, own))
        × (calls ≡ recorded p conn msg ++ own)
  unfolding process_message
  process_parts wire tracker p q msg calls e =
      let (conn, there, e1) = >>=-eq-some p.conn _ _ e in
      let (res, h, e2) = >>=-eq-some (handle wire tracker p msg) _ _ e1 in
      let same = some-injective (res.0, recorded p conn msg ++ res.1) (q, calls) e2 in
      (
        conn,
        res.1,
        there,
        h ∙ ap (λ (t : Peer Q × List (Effect Q H)). some (t.0, res.1)) same,
        ap (λ (t : Peer Q × List (Effect Q H)). t.1) (sym same),
      )

  -- The same of a sequence of actions: the first, then the others.
  pub run_parts :
      (wire : Wire) (p r : Peer Q) (a : Action H) (as' : List (Action H))
      (calls : List (Effect Q H))
      → run wire p (a ∷ as') ≡ some (r, calls)
      → (q : Peer Q) × (first : List (Effect Q H)) × (later : List (Effect Q H)) × (act wire p a
          ≡ some (q, first))
        × (run wire q as' ≡ some (r, later))
        × (calls ≡ first ++ later)
  unfolding run
  run_parts wire p r a as' calls e =
      let (one, h, e1) = >>=-eq-some (act wire p a) _ _ e in
      let (res, h', e2) = >>=-eq-some (run wire one.0 as') _ _ e1 in
      let same = some-injective (res.0, one.1 ++ res.1) (r, calls) e2 in
      (
        one.0,
        one.1,
        res.1,
        h,
        h' ∙ ap (λ (t : Peer Q × List (Effect Q H)). some (t.0, res.1)) same,
        ap (λ (t : Peer Q × List (Effect Q H)). t.1) (sym same),
      )
