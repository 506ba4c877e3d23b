-- ===== src/Supervisor/Wiring.antt =====
-- The managers, servers and processors that New returns, and the keys that they were given.
use passive_bitcoin.Prelude.{
  String, ◌≡◌, sym, ap, ◌∙◌, true, Option, some, [], ◌∷◌, All, is_some, some-injective, >>=-eq-some,
  subst,
}
use passive_bitcoin.Assoc
use passive_bitcoin.Assoc.{Assoc}
use passive_bitcoin.ParMap.{Stringer}
use passive_bitcoin.Manager
use passive_bitcoin.Repository
use passive_bitcoin.Repository.{Repository}
use passive_bitcoin.Tracker
use passive_bitcoin.Tracker.{Tracker}
use passive_bitcoin.Logger.{GologgingLogger}
use passive_bitcoin.Supervisor.{Config, ManagerConfig}
use passive_bitcoin.Supervisor.Init.{Env, init_manager, manager_options}
use passive_bitcoin.Supervisor.Modules.{
  Supervisor, Module, Mgr, bare, or_default, inject_logs, resolve, present,
}
use passive_bitcoin.Supervisor.Build.{
  default_logger, init_loggers, repositories, trackers, processors, managers, wire_up, new,
}
use passive_bitcoin.Supervisor.Entries.{
  All-update_all, All-init_all, All-or_default, bare-made, resolve-update_all, present-update_all,
  resolve-is_some, or_default-nonempty,
}
use passive_bitcoin.Supervisor.Links.{IsUnlinked, new-IsUnlinked, linked}

-- A manager that was given nothing yet
abbrev IsBare : {P : Type 0} → String × Module (Mgr P) → Type 0
IsBare e = IsUnlinked e.1.body

module _ {F P H : Type 0} ⦃i : Stringer H⦄ (env : Env F) (cfg : Config) where
  -- The maps before the injections, of a supervisor that New returns
  pub record Maps (sup : Supervisor F P H) : Type 0 where
    pub logr : Assoc (GologgingLogger F)
    pub repo : Assoc (Module Repository)
    pub tkr : Assoc (Module (Tracker H))
    pub mgr : Assoc (Module (Mgr P))
    pub repo_made :
        or_default (bare (Repository.new env.create [])) (repositories env cfg) ≡ some repo
    pub tkr_made : or_default (bare (some Tracker.new)) (trackers cfg) ≡ some tkr
    pub mgr_made :
        or_default (bare (Manager.new env.wire env.random [])) (managers env cfg) ≡ some mgr
    pub wired : wire_up env cfg logr repo tkr mgr ≡ sup

  pub new-Maps : (sup : Supervisor F P H) → new env cfg ≡ some sup → Maps sup
  unfolding new
  new-Maps sup e =
      let (logr, e0, e1) = >>=-eq-some (default_logger env cfg.logger) _ sup e in
      let (repo, e2, e3) =
        >>=-eq-some (or_default (bare (Repository.new env.create [])) (repositories env cfg)) _ sup
          e1 in
      let (tkr, e4, e5) =
        >>=-eq-some (or_default (bare (some Tracker.new)) (trackers cfg)) _ sup e3 in
      let (mgr, e6, e7) =
        >>=-eq-some (or_default (bare (Manager.new env.wire env.random [])) (managers env cfg)) _
          sup e5 in
      record {
        logr = init_loggers env cfg.logger (("", logr) ∷ []);
        repo = repo;
        tkr = tkr;
        mgr = mgr;
        repo_made = e2;
        tkr_made = e4;
        mgr_made = e6;
        wired = some-injective _ _ e7;
      }

  unlinked-managers : (sup : Supervisor F P H) (maps : Maps sup) → All IsBare maps.mgr
  unfolding managers init_manager
  unlinked-managers sup maps =
      All-or_default IsBare _ _ _ maps.mgr_made
        (λ m made. new-IsUnlinked env.wire env.random [] m.body (bare-made _ m made).0)
        (All-init_all IsBare _ cfg.manager []
          (λ key c m i made.
            new-IsUnlinked env.wire env.random (manager_options c) m.body (bare-made _ m made).0)
          tt)

  -- A manager whose key is in the configuration has what its entry asks for.
  abbrev pub IsManaged : Supervisor F P H → String × Module (Mgr P) → Type 0
  IsManaged sup e =
      (c : ManagerConfig)
      → Assoc.lookup e.0 cfg.manager ≡ some c
      → (e.1.body.repo ≡ resolve c.repository sup.repo)
        × (e.1.body.tkr ≡ resolve c.tracker sup.tkr)
        × (e.1.body.pro ≡ present sup.pro c.processor)
        × (is_some e.1.body.repo ≡ true)
        × (is_some e.1.body.tkr ≡ true)

  -- Every manager of a supervisor that New returns, if its key is in the configuration, has the
  -- repository and the tracker that its entry names, or one that is there if it names none that is,
  -- and exactly the processors that its entry names and that are there, in order.
  pub new-IsManaged :
      (sup : Supervisor F P H) → new env cfg ≡ some sup → All (IsManaged sup) sup.mgr
  unfolding wire_up inject_logs
  new-IsManaged sup e =
      let maps = new-Maps sup e in
      let pro = processors env cfg in
      let fallback_repo = bare (Repository.new env.create []) in
      let fallback_tkr : Option (Module (Tracker H)) = bare (some Tracker.new) in
      let built = wire_up env cfg maps.logr maps.repo maps.tkr maps.mgr in
      let injected =
        All-update_all IsBare IsBare _ maps.mgr (λ key m h. h) (unlinked-managers sup maps) in
      subst (λ s. All (IsManaged s) s.mgr) maps.wired
        (All-update_all IsBare (IsManaged built) _ _
          (λ key m h c found.
            let (of_repo, of_tkr, of_pro) = linked maps.repo maps.tkr pro c m h in
            let some_repo =
              resolve-is_some c.repository maps.repo
                (or_default-nonempty fallback_repo _ maps.repo maps.repo_made) in
            let some_tkr =
              resolve-is_some c.tracker maps.tkr
                (or_default-nonempty fallback_tkr _ maps.tkr maps.tkr_made) in
            rw found (
              of_repo ∙ sym (resolve-update_all _ c.repository maps.repo),
              of_tkr ∙ sym (resolve-update_all _ c.tracker maps.tkr),
              of_pro
                  ∙ sym (present-update_all _ _ c.processor ∙ present-update_all _ pro c.processor),
              ap is_some of_repo ∙ some_repo,
              ap is_some of_tkr ∙ some_tkr,
            ))
          injected)
