-- ===== src/Tests/CollectorRuns.antt =====
-- Runs of main of collector/pbtc.go for two configurations.
use passive_bitcoin.Prelude.{String, Bool, true, false, ◌≡◌, ◌⊎◌, refl, inl, List, [], ◌∷◌}
use passive_bitcoin.Assoc
use passive_bitcoin.Repository
use passive_bitcoin.Supervisor.Modules.{Supervisor}
use passive_bitcoin.Supervisor.Build.{new}
use passive_bitcoin.Supervisor.Running.{start}
use passive_bitcoin.Collector.{
  sigint, sighup, exit, forced, panicked, Place, initializing, starting, waiting, ended, Event,
  arrives, proceeds, receives_signal, receives_stopped, stop_returns, main, step,
}
use passive_bitcoin.Collector.Facts.{Reason}
use passive_bitcoin.Collector.Shutdown.{main-Reason, main-never_serves}
use passive_bitcoin.Tests.{text_stringer}
use passive_bitcoin.Tests.SupervisorBuilds.{env, whole, partial}

-- SIGHUP is passed over, SIGINT begins the shutdown, and it completes.
abbrev calm : List Event
calm =
    proceeds
    ∷ proceeds
    ∷ arrives sighup
    ∷ receives_signal
    ∷ arrives sigint
    ∷ receives_signal
    ∷ stop_returns
    ∷ receives_stopped
    ∷ []

-- During the shutdown another signal arrives, which need not be SIGINT.
abbrev hurried : List Event
hurried =
    proceeds ∷ proceeds ∷ arrives sigint ∷ receives_signal ∷ arrives sighup ∷ receives_signal ∷ []

-- While New runs the channel holds SIGHUP, and SIGINT is dropped: main waits on.
abbrev dropped : List Event
dropped =
    arrives sighup ∷ arrives sigint ∷ proceeds ∷ proceeds ∷ receives_signal ∷ receives_signal ∷ []

abbrev is_waiting : {F P H : Type 0} → Place F P H → Bool
is_waiting (waiting sup) = true
is_waiting _ = false

still_waits : is_waiting (main {P = String} {H = String} env whole dropped).place ≡ true
unfolding main step new start Assoc.insert Assoc.lookup Repository.reserved Repository.add_range
still_waits = refl

ends_forced : (main {P = String} {H = String} env whole hurried).place ≡ ended (forced sighup)
unfolding main step new start Assoc.insert Assoc.lookup Repository.reserved Repository.add_range
ends_forced = refl

main-Reason_example : Reason String String env whole calm (exit 0)
unfolding main step new start Assoc.insert Assoc.lookup Repository.reserved Repository.add_range
main-Reason_example = main-Reason String String env whole calm (exit 0) refl

abbrev Where : Type 0
Where = Place String String String

abbrev crashed : Where
crashed = ended panicked

main-never_serves_example :
    (crashed ≡ initializing)
    ⊎ (((sup : Supervisor String String String) × (crashed ≡ starting sup))
        ⊎ ((crashed ≡ ended (exit 1)) ⊎ (crashed ≡ ended panicked)))
unfolding main step new start Assoc.insert Assoc.lookup Repository.reserved Repository.add_range
main-never_serves_example =
    main-never_serves String String env partial (proceeds ∷ proceeds ∷ []) (inl refl) crashed refl
