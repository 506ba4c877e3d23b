-- ===== src/Peer/Rules.antt =====
-- The protocol rules of processMessage in peer/peer.go: when a peer is dropped, which version is
-- agreed on, and what is requested of an inventory.
use passive_bitcoin.Prelude.{
  ℕ, ◌≤◌, ◌≡◌, refl, sym, subst, Bool, true, false, ◌||◌, some, List, [], ◌∷◌, ◌++◌, arith, ap, ◌∙◌,
  ◌==◌, ltb, In, ◌↔◌, ◌⊎◌, inl, inr, Bool-cases, some-injective,
}
use passive_bitcoin.Util.{parse_net_address, min_uint32}
use passive_bitcoin.Util.Version.{min_uint32-max}
use passive_bitcoin.Peer.{
  Wire, InvVect, VersionMsg, Message, Conn, Peer, Effect, msg_version, msg_inv, msg_get_data, send,
  stop, discovered,
}
use passive_bitcoin.Peer.Protocol.{Knows, recorded, handle, process_message, is_known, wanted}
use passive_bitcoin.Peer.Calls.{
  count, is_stop, count-append, count-map, count-recorded, process_parts,
}

module _ {Q H : Type 0} where
  -- The message breaks the protocol: a second version message, one from the peer itself or of an
  -- obsolete peer, or any other message before the version message.
  abbrev pub refused : Wire → Peer Q → Message H → Bool
  refused wire p (msg_version m) =
      p.rcvd == 1 || m.nonce == p.nonce || ltb m.protocol_version wire.multiple_address_version
  refused wire p _ = p.rcvd == 0

  -- What a refused message leaves of the mark that a version message was received.
  abbrev pub rcvd_after : Peer Q → Message H → ℕ
  rcvd_after p (msg_version m) = 1
  rcvd_after p _ = p.rcvd

  abbrev Handled : Wire → Peer Q → Message H → Peer Q → List (Effect Q H) → Type 0
  Handled wire p msg q calls =
      (refused wire p msg ≡ true → (q ≡ record p { rcvd = rcvd_after p msg }) × (calls ≡ stop ∷ []))
      × (refused wire p msg ≡ false → count is_stop calls ≡ 0)

  handle_refused :
      (wire : Wire) (tracker : Knows H) (p q : Peer Q) (msg : Message H) (calls : List (Effect Q H))
      → handle wire tracker p msg ≡ some (q, calls)
      → Handled wire p msg q calls
  unfolding handle count
  handle_refused wire tracker p q (msg_version m) calls e = (λ r. ground arith, λ r. ground arith)
  handle_refused wire tracker p q (Message.msg_addr m) calls e = (
    λ r. ground arith,
    λ r. ground (
      arith,
      count-map {Q = Q} {H = H} is_stop (λ na. discovered (parse_net_address na)) m (λ na. refl),
    ),
  )
  handle_refused wire tracker p q _ calls e = (λ r. ground arith, λ r. ground arith)

  -- A message that breaks the protocol is recorded and stops the peer, and changes nothing but the
  -- mark that a version message was received; any other message does not stop the peer.
  pub process-refused :
      (wire : Wire) (tracker : Knows H) (p q : Peer Q) (msg : Message H) (calls : List (Effect Q H))
      (conn : Conn)
      → p.conn ≡ some conn
      → process_message wire tracker p msg ≡ some (q, calls)
      → ((refused wire p msg ≡ true)
          × (q ≡ record p { rcvd = rcvd_after p msg })
          × (calls ≡ recorded p conn msg ++ stop ∷ []))
        ⊎ ((refused wire p msg ≡ false) × (count is_stop calls ≡ 0))
  process-refused wire tracker p q msg calls conn set e =
      let (conn', own, there, handled, parts) = process_parts wire tracker p q msg calls e in
      let same : conn' ≡ conn = some-injective conn' conn (sym there ∙ set) in
      let (bad, good) = handle_refused wire tracker p q msg own handled in
      elim (Bool-cases (refused wire p msg)) [
        | inl r ↦
            let (left, only) = bad r in
            let whole = parts ∙ ap (λ (t : Conn). recorded p t msg ++ own) same in
            inl (r, left, whole ∙ ap (λ t. recorded p conn msg ++ t) only)
        | inr r ↦
            let total =
              ap (count is_stop) parts ∙ count-append is_stop (recorded p conn' msg) own in
            let none_recorded =
              count-recorded {Q = Q} {H = H} is_stop p conn' msg (λ rec ra la. refl) in
            inr (r, total ∙ omega (arith, good r, none_recorded))
      ]

  accepted_handle :
      (wire : Wire) (tracker : Knows H) (p q : Peer Q) (m : VersionMsg) (calls : List (Effect Q H))
      → handle wire tracker p (msg_version m) ≡ some (q, calls)
      → refused wire p (msg_version m) ≡ false
      → (q.sent ≡ 1) × (q.rcvd ≡ 1) × (q.version ≡ min_uint32 p.version m.protocol_version)
  unfolding handle
  accepted_handle wire tracker p q m calls e r = ground arith

  -- After a version message that is accepted both marks are set, and the version in use is the
  -- larger of the own one and the other side's: it is one of the two, and both are at most it.
  process-version :
      (wire : Wire) (tracker : Knows H) (p q : Peer Q) (m : VersionMsg) (calls : List (Effect Q H))
      → process_message wire tracker p (msg_version m) ≡ some (q, calls)
      → refused wire p (msg_version m) ≡ false
      → (q.sent ≡ 1)
        × (q.rcvd ≡ 1)
        × (p.version ≤ q.version)
        × (m.protocol_version ≤ q.version)
        × ((q.version ≡ p.version) ⊎ (q.version ≡ m.protocol_version))
  process-version wire tracker p q m calls e r =
      let (conn, own, there, handled, parts) =
        process_parts wire tracker p q (msg_version m) calls e in
      let (sent, rcvd, version) = accepted_handle wire tracker p q m own handled r in
      let max = min_uint32-max p.version m.protocol_version in
      (
        sent,
        rcvd,
        omega (arith, version, max),
        omega (arith, version, max),
        elim max.2 [ inl a ↦ inl (version ∙ a) | inr b ↦ inr (version ∙ b) ],
      )

module _ {H : Type 0} where
  -- The code takes an item for known if it has type 0 and the hash of a known block, or type 1 and
  -- the hash of a known transaction.
  abbrev pub TakenAsKnown : Knows H → InvVect H → Type 0
  TakenAsKnown tracker inv =
      ((inv.type ≡ 0) × (tracker.knows_block inv.hash ≡ true))
      ⊎ ((inv.type ≡ 1) × (tracker.knows_tx inv.hash ≡ true))

  known_cases :
      (tracker : Knows H) (inv : InvVect H)
      → ((is_known tracker inv ≡ true) × TakenAsKnown tracker inv)
        ⊎ ((is_known tracker inv ≡ false) × (¬ TakenAsKnown tracker inv))
  unfolding is_known
  known_cases tracker inv = ground arith

  wanted_sound :
      (tracker : Knows H) (invs : List (InvVect H)) (inv : InvVect H)
      → In inv (wanted tracker invs)
      → In inv invs × (¬ TakenAsKnown tracker inv)
  unfolding wanted
  wanted_sound tracker [] inv m = absurd m
  wanted_sound tracker (i ∷ invs) inv m = elim (known_cases tracker i) [
    | inl (k, h) ↦ let (n, u) = wanted_sound tracker invs inv (rw k at m) in (inr n, u)
    | inr (k, h) ↦ elim (rw k at m) [
      | inl e ↦ (inl e, subst (λ t. ¬ TakenAsKnown tracker t) (sym e) h)
      | inr n ↦ let (n', u) = wanted_sound tracker invs inv n in (inr n', u)
    ]
  ]

  wanted_complete :
      (tracker : Knows H) (invs : List (InvVect H)) (inv : InvVect H)
      → In inv invs
      → ¬ TakenAsKnown tracker inv
      → In inv (wanted tracker invs)
  unfolding wanted
  wanted_complete tracker [] inv m u = absurd m
  wanted_complete tracker (i ∷ invs) inv (inl e) u = elim (known_cases tracker i) [
    | inl (k, h) ↦ absurd (u (subst (TakenAsKnown tracker) (sym e) h))
    | inr (k, h) ↦ rw k (inl e)
  ]
  wanted_complete tracker (i ∷ invs) inv (inr m) u = elim (known_cases tracker i) [
    | inl (k, h) ↦ rw k (wanted_complete tracker invs inv m u)
    | inr (k, h) ↦ rw k (inr (wanted_complete tracker invs inv m u))
  ]

module _ {Q H : Type 0} where
  -- After the handshake an inventory message is answered by one request, of exactly the items of
  -- the inventory that are not taken as known, in which a block is type 0 and a transaction type 1.
  pub process-inventory :
      (wire : Wire) (tracker : Knows H) (p : Peer Q) (conn : Conn) (invs : List (InvVect H))
      → p.conn ≡ some conn
      → p.rcvd ≡ 1
      → (items : List (InvVect H)) × (process_message wire tracker p (msg_inv invs)
          ≡ some (p, recorded p conn (msg_inv invs) ++ send (msg_get_data items) ∷ []))
        × ((inv : InvVect H) → In inv items ↔ (In inv invs × (¬ TakenAsKnown tracker inv)))
  unfolding process_message
  process-inventory wire tracker p conn invs set done = (
    wanted tracker invs,
    ground (arith, set, done),
    λ inv. (wanted_sound tracker invs inv, λ h. wanted_complete tracker invs inv h.0 h.1),
  )
