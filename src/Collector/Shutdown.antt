-- ===== src/Collector/Shutdown.antt =====
-- How main of collector/pbtc.go ends, and for which configurations it never serves.
use passive_bitcoin.Prelude.{List, [], ◌≡◌, ◌⊎◌, inl, inr, refl, ap, subst}
use passive_bitcoin.ParMap.{Stringer}
use passive_bitcoin.Supervisor.{Config}
use passive_bitcoin.Supervisor.Init.{Env}
use passive_bitcoin.Supervisor.Modules.{Supervisor}
use passive_bitcoin.Supervisor.Panics.{new-start_panics}
use passive_bitcoin.Collector.{
  Outcome, exit, panicked, forced, Place, initializing, starting, waiting, stopping, ended, Event,
  main,
}
use Prim.Native.Nat
use passive_bitcoin.Collector.Facts.{Serves, Reason, Reached}
use passive_bitcoin.Collector.Trace.{main-IsTrue}

module _ {F : Type 0} (P H : Type 0) ⦃i : Stringer H⦄ (env : Env F) (cfg : Config) where
  -- Where main is once it serves
  serving_starts :
      (sup : Supervisor F P H)
      → (cfg.repository ≡ []) ⊎ (cfg.tracker ≡ []) ⊎ (cfg.manager ≡ [])
      → Serves P H env cfg sup
      → ⊥
  serving_starts sup missing (made, started) = started (new-start_panics env cfg sup made missing)

  never_reached :
      (events : List Event)
      → (cfg.repository ≡ []) ⊎ (cfg.tracker ≡ []) ⊎ (cfg.manager ≡ [])
      → (place : Place F P H) → Reached P H env cfg events place
      → (place ≡ initializing)
        ⊎ (((sup : Supervisor F P H) × (place ≡ starting sup))
            ⊎ ((place ≡ ended (exit 1)) ⊎ (place ≡ ended panicked)))
  never_reached events missing initializing h = inl refl
  never_reached events missing (starting sup) h = inr (inl (sup, refl))
  never_reached events missing (waiting sup) h = absurd (serving_starts sup missing h)
  never_reached events missing (stopping sup) h = absurd (serving_starts sup missing h.0)
  never_reached events missing (ended (exit Nat.zero)) h =
      absurd (serving_starts h.0.0 missing h.0.1)
  never_reached events missing (ended (exit (Nat.suc n))) h =
      inr (inr (inl (ap (λ m. ended (exit (Nat.suc m))) h.0)))
  never_reached events missing (ended panicked) h = inr (inr (inr refl))
  never_reached events missing (ended (forced sig)) h = absurd (serving_starts h.0.0 missing h.0.1)

  -- However main ends, the events say why. It exits with 0 only for a supervisor that New returned
  -- and Start started, after SIGINT, and after Stop of the supervisor has returned; it exits with
  -- another code only with 1 and for an error of New, and panics in Start only if Start does. It ends
  -- with its own panic for a signal only after SIGINT and that signal, two signals at the least.
  pub main-Reason :
      (events : List Event) (o : Outcome)
      → (main {F = F} {P = P} {H = H} env cfg events).place ≡ ended o
      → Reason P H env cfg events o
  main-Reason events o e =
      subst (Reached P H env cfg events) e (main-IsTrue P H env cfg events).reached

  -- With a configuration that has no section for a repository, none for a tracker or none for a
  -- manager, main never comes to wait for signals: whatever happens, it has not yet started the
  -- supervisor, or it has ended with an error of New, or with a panic of Start.
  pub main-never_serves :
      (events : List Event)
      → (cfg.repository ≡ []) ⊎ (cfg.tracker ≡ []) ⊎ (cfg.manager ≡ [])
      → (place : Place F P H) → (main env cfg events).place ≡ place
      → (place ≡ initializing)
        ⊎ (((sup : Supervisor F P H) × (place ≡ starting sup))
            ⊎ ((place ≡ ended (exit 1)) ⊎ (place ≡ ended panicked)))
  main-never_serves events missing place e =
      never_reached events missing place
        (subst (Reached P H env cfg events) e (main-IsTrue P H env cfg events).reached)
