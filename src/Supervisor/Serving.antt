-- ===== src/Supervisor/Serving.antt =====
-- The servers that New returns: each has a manager, to which it hands its connections.
use passive_bitcoin.Prelude.{
  String, ◌≡◌, ◌≢◌, refl, Bool-cases, Option, some, List, [], ◌∷◌, map, inl, inr, In, All, All-In,
  if◌then◌else◌, Option-cases, subst,
}
use passive_bitcoin.Assoc
use passive_bitcoin.Assoc.{Assoc}
use passive_bitcoin.ParMap.{Stringer}
use passive_bitcoin.Peer.{Wire, Conn, Peer, set_connection}
use passive_bitcoin.Peer.Connection
use passive_bitcoin.Server
use passive_bitcoin.Server.{
  Server, Accept, accepted, accept_error, Net, accept_loop, go_listen, can_listen,
}
use passive_bitcoin.Manager
use passive_bitcoin.Supervisor.{Config, ServerConfig}
use passive_bitcoin.Supervisor.Init.{Env}
use passive_bitcoin.Supervisor.Modules.{
  bare, Supervisor, Module, Mgr, resolve, link_server, inject_logs,
}
use passive_bitcoin.Supervisor.Build.{servers, wire_up, new}
use passive_bitcoin.Supervisor.Entries.{
  Has, In-Has, Has-update_all, All-update_all, All-init_all, resolve-Has, resolve-is_some,
  or_default-nonempty,
}
use passive_bitcoin.Supervisor.Wiring.{new-Maps}

-- The connections that are accepted before the first error
abbrev pub accepted_first : List Accept → List Conn
accepted_first [] = []
accepted_first (accept_error ∷ rest) = []
accepted_first (accepted conn ∷ rest) = conn ∷ accepted_first rest

-- The peers that a server makes of connections, for its manager
abbrev pub handed : {M Q : Type 0} → Wire → M → List Conn → List (M × Option (Peer Q))
handed wire mgr conns = map (λ conn. (mgr, Connection.new wire (set_connection conn ∷ []))) conns

-- Where the host is parsed and listened to, the connections
abbrev pub heard : Net → String → List Accept → List Conn
heard net host events = if can_listen net (net.parse_host host) then accepted_first events else []

module _ {M Q : Type 0} (wire : Wire) where
  loop-handed :
      (server : Server M) (mgr : M) (events : List Accept)
      → server.mgr ≡ some mgr
      → accept_loop {M = M} {Q = Q} wire server events
        ≡ some (handed wire mgr (accepted_first events))
  unfolding accept_loop
  loop-handed server mgr [] h = refl
  loop-handed server mgr (accept_error ∷ rest) h = refl
  loop-handed server mgr (accepted conn ∷ rest) h = rw (loop-handed server mgr rest h, h) refl

  listen-handed :
      (net : Net) (server : Server M) (mgr : M) (events : List Accept)
      → server.mgr ≡ some mgr
      → go_listen {M = M} {Q = Q} net wire server events
        ≡ some (handed wire mgr (heard net server.host events))
  unfolding go_listen
  listen-handed net server mgr events h =
      elim (Bool-cases (can_listen net (net.parse_host server.host))) [
        | inl ok ↦ rw (ok, loop-handed server mgr events h) refl
        | inr deaf ↦ rw deaf refl
      ]

linked-server :
    {P : Type 0} (mgr : Assoc (Module (Mgr P))) (c : ServerConfig) (m : Module (Server String))
    → mgr ≢ []
    → (key : String) × ((link_server mgr (some c) m).body.mgr ≡ some key) × Has mgr key
unfolding link_server Server.set_manager
linked-server mgr c m some_mgr = elim (Option-cases (resolve c.manager mgr)) [
  | inl e ↦ absurd (cc (rw e at (resolve-is_some c.manager mgr some_mgr)))
  | inr (key, e) ↦ (key, rw e refl, resolve-Has c.manager mgr key e)
]

-- The key of a server is one of the configuration.
abbrev IsConfigured : Config → String × Module (Server String) → Type 0
IsConfigured cfg e = Has cfg.server e.0

module _ {F P H : Type 0} ⦃i : Stringer H⦄ (env : Env F) (cfg : Config) where
  -- A server has a manager that is there.
  abbrev pub IsServed : Supervisor F P H → String × Module (Server String) → Type 0
  IsServed sup e = (key : String) × (e.1.body.mgr ≡ some key) × Has sup.mgr key

  new-IsServed : (sup : Supervisor F P H) → new env cfg ≡ some sup → All (IsServed sup) sup.svr
  unfolding wire_up inject_logs servers
  new-IsServed sup e =
      let maps = new-Maps env cfg sup e in
      let built = wire_up env cfg maps.logr maps.repo maps.tkr maps.mgr in
      let fallback : Option (Module (Mgr P)) = bare (Manager.new env.wire env.random []) in
      let configured =
        All-init_all (IsConfigured cfg) _ cfg.server []
          (λ key c m here made. In-Has key c cfg.server here) tt in
      let injected =
        All-update_all (IsConfigured cfg) (IsConfigured cfg) _ _ (λ key m h. h) configured in
      subst (λ s. All (IsServed s) s.svr) maps.wired
        (All-update_all (IsConfigured cfg) (IsServed built) _ _
          (λ key m h. elim (Option-cases (Assoc.lookup key cfg.server)) [
            | inl absent ↦ absurd (cc (rw absent at h))
            | inr (c, found) ↦
                let (mgr, is_mgr, has) =
                  linked-server maps.mgr c m
                    (or_default-nonempty fallback _ maps.mgr maps.mgr_made) in
                (mgr, rw found is_mgr, Has-update_all _ mgr _ (Has-update_all _ mgr maps.mgr has))
          ])
          injected)

  -- A server of a supervisor that New returns has a manager among those of the supervisor, and it
  -- hands to it a peer, or nil where peer.New fails, for each connection that is accepted before the
  -- first error, in order, provided that its host can be parsed and listened to: it never panics
  -- for want of a manager.
  pub new-go_listen :
      (Q : Type 0) (sup : Supervisor F P H) (key : String) (m : Module (Server String))
      → new env cfg ≡ some sup
      → In (key, m) sup.svr
      → (mgr : String) × Has sup.mgr mgr
        × ((net : Net) (wire : Wire) (events : List Accept)
            → go_listen {Q = Q} net wire m.body events
              ≡ some (handed wire mgr (heard net m.body.host events)))
  new-go_listen Q sup key m e here =
      let (mgr, is_mgr, has) = All-In (IsServed sup) (key, m) sup.svr (new-IsServed sup e) here in
      (mgr, has, λ net wire events. listen-handed wire net m.body mgr events is_mgr)
