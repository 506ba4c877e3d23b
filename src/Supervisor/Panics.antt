-- ===== src/Supervisor/Panics.antt =====
-- The default modules of New have no log, so Start panics.
use passive_bitcoin.Prelude.{
  String, ◌≡◌, ◌≢◌, refl, ◌∙◌, ◌⊎◌, arith, Bool, false, Option, none, some, [], ◌∷◌, inl, inr, All,
  All-weaken, subst,
}
use passive_bitcoin.Assoc
use passive_bitcoin.Assoc.{Assoc, lookup-nil}
use passive_bitcoin.ParMap.{Stringer}
use passive_bitcoin.Manager
use passive_bitcoin.Repository
use passive_bitcoin.Repository.{Repository}
use passive_bitcoin.Tracker
use passive_bitcoin.Tracker.{Tracker}
use passive_bitcoin.Supervisor.{Config, ManagerConfig, init_repository}
use passive_bitcoin.Supervisor.Init.{Env, init_manager}
use passive_bitcoin.Supervisor.Modules.{
  Supervisor, Module, Mgr, LogConfig, bare, init_all, or_default, inject_logs, link_manager,
}
use passive_bitcoin.Supervisor.Build.{
  repositories, trackers, processors, managers, wire_up, new, repository_logs, tracker_logs,
  manager_logs,
}
use passive_bitcoin.Supervisor.Running.{
  all_ok, repository_ok, tracker_ok, manager_ok, starts, start,
}
use passive_bitcoin.Supervisor.Entries.{
  All-update_all, All-or_default, All-init_all, bare-made, or_default-nonempty,
}
use passive_bitcoin.Supervisor.Wiring.{new-Maps}
use passive_bitcoin.Supervisor.Starting.{all_ok-false, update_all-nonempty}

-- A module without a log
abbrev IsSilent : {X : Type 0} → String × Module X → Type 0
IsSilent e = e.1.log ≡ none

-- Without an entry for any module, no log is injected.
silent :
    {C X L : Type 0} (lc : LogConfig C) (part : String) (logr : Assoc L) (cfgs : Assoc C)
    (m : Assoc (Module X))
    → cfgs ≡ []
    → All IsSilent m
    → All IsSilent (inject_logs lc part logr cfgs m)
unfolding inject_logs
silent lc part logr [] m e all =
    All-update_all IsSilent IsSilent _ m (λ key x h. rw (lookup-nil key) h) all
silent lc part logr (entry ∷ cfgs) m e all = cc

built-IsSilent :
    {C X : Type 0} (cfgs : Assoc C) (init : C → Option X) (fallback : Option X)
    (m : Assoc (Module X))
    → or_default (bare fallback) (init_all (λ c. bare (init c)) cfgs []) ≡ some m
    → All IsSilent m
built-IsSilent cfgs init fallback m e =
    All-or_default IsSilent (bare fallback) _ m e (λ x made. (bare-made fallback x made).1)
      (All-init_all IsSilent (λ c. bare (init c)) cfgs []
        (λ key c x here made. (bare-made (init c) x made).1) tt)

-- Silent modules do not start.
not_started :
    {C X L : Type 0} (lc : LogConfig C) (part : String) (logr : Assoc L) (cfgs : Assoc C)
    (ok : Module X → Bool) (m : Assoc (Module X))
    → ((x : Module X) → x.log ≡ none → ok x ≡ false)
    → cfgs ≡ []
    → m ≢ []
    → All IsSilent m
    → all_ok ok (inject_logs lc part logr cfgs m) ≡ false
unfolding inject_logs
not_started lc part logr cfgs ok m quiet e some_module all =
    let quiet_all =
      All-weaken IsSilent (λ x. ok x.1 ≡ false) _ (λ x h. quiet x.1 h)
        (silent lc part logr cfgs m e all) in
    all_ok-false ok _ (update_all-nonempty _ m some_module) quiet_all

link_manager-log :
    {P X Y Z : Type 0} (repo : Assoc X) (tkr : Assoc Y) (pro : Assoc Z) (o : Option ManagerConfig)
    (m : Module (Mgr P))
    → (link_manager repo tkr pro o m).log ≡ m.log
unfolding link_manager
link_manager-log repo tkr pro none m = refl
link_manager-log repo tkr pro (some c) m = refl

quiet_manager : {P : Type 0} (m : Module (Mgr P)) → m.log ≡ none → manager_ok m ≡ false
quiet_manager m h = rw h refl

module _ {F P H : Type 0} ⦃i : Stringer H⦄ (env : Env F) (cfg : Config)
    (sup : Supervisor F P H) where
  repositories-panic : new env cfg ≡ some sup → cfg.repository ≡ [] → starts sup ≡ false
  unfolding starts wire_up repositories
  repositories-panic e empty =
      let maps = new-Maps env cfg sup e in
      let fallback = Repository.new env.create [] in
      let quiet =
        not_started repository_logs "repo___" maps.logr cfg.repository repository_ok maps.repo
          (λ x h. rw h refl) empty (or_default-nonempty (bare fallback) _ maps.repo maps.repo_made)
          (built-IsSilent cfg.repository (init_repository env.create) fallback maps.repo
            maps.repo_made) in
      subst (λ s. starts s ≡ false) maps.wired (rw quiet refl)

  trackers-panic : new env cfg ≡ some sup → cfg.tracker ≡ [] → starts sup ≡ false
  unfolding starts wire_up trackers
  trackers-panic e empty =
      let maps = new-Maps env cfg sup e in
      let fallback : Option (Tracker H) = some Tracker.new in
      let quiet =
        not_started tracker_logs "tkr___" maps.logr cfg.tracker tracker_ok maps.tkr
          (λ x h. rw h refl) empty (or_default-nonempty (bare fallback) _ maps.tkr maps.tkr_made)
          (built-IsSilent cfg.tracker (λ c. some Tracker.new) fallback maps.tkr maps.tkr_made) in
      subst (λ s. starts s ≡ false) maps.wired (ground (arith, quiet))

  managers-panic : new env cfg ≡ some sup → cfg.manager ≡ [] → starts sup ≡ false
  unfolding starts wire_up managers inject_logs
  managers-panic e empty =
      let maps = new-Maps env cfg sup e in
      let fallback : Option (Mgr P) = Manager.new env.wire env.random [] in
      let some_mgr = or_default-nonempty (bare fallback) _ maps.mgr maps.mgr_made in
      let logged =
        silent manager_logs "mgr___" maps.logr cfg.manager maps.mgr empty
          (built-IsSilent cfg.manager (λ c. init_manager env c) fallback maps.mgr maps.mgr_made) in
      let pros = processors env cfg in
      let link = λ (key : String) (m : Module (Mgr P)).
        link_manager maps.repo maps.tkr pros (Assoc.lookup key cfg.manager) m in
      let all =
        All-update_all IsSilent (λ x. manager_ok x.1 ≡ false) link _
          (λ key m h.
            quiet_manager (link key m)
              (link_manager-log maps.repo maps.tkr pros (Assoc.lookup key cfg.manager) m ∙ h))
          logged in
      let quiet =
        all_ok-false manager_ok _
          (update_all-nonempty link _ (update_all-nonempty _ maps.mgr some_mgr)) all in
      subst (λ s. starts s ≡ false) maps.wired (ground (arith, quiet))

  -- If the configuration has no section for a repository, none for a tracker or none for a manager,
  -- Start of the supervisor that New returns panics: the default module that takes the place of the
  -- section has no log.
  pub new-start_panics :
      new env cfg ≡ some sup
      → (cfg.repository ≡ []) ⊎ (cfg.tracker ≡ []) ⊎ (cfg.manager ≡ [])
      → start sup ≡ none
  unfolding start
  new-start_panics e (inl empty) = rw (repositories-panic e empty) refl
  new-start_panics e (inr (inl empty)) = rw (trackers-panic e empty) refl
  new-start_panics e (inr (inr empty)) = rw (managers-panic e empty) refl
