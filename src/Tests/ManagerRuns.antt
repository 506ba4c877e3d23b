-- ===== src/Tests/ManagerRuns.antt =====
-- Runs of the manager of manager/manager.go, whose peers are named by a text.
use passive_bitcoin.Prelude.{String, some, none, [], ◌∷◌, ◌≡◌, refl, All, inl, inr, true, false}
use passive_bitcoin.ParMap
use passive_bitcoin.ParMap.{ParMap}
use passive_bitcoin.ParMap.Lookup.{view}
use passive_bitcoin.Manager.{
  WireConfig, Manager, Round, new, set_repository, run, step, serving, done, starting, connected,
  sig_closed, ready, stopped,
}
use passive_bitcoin.Manager.Peers.{IsSound, step-IsSound}
use passive_bitcoin.Manager.Stops.{IsStop, new-only_stops}
use passive_bitcoin.Manager.Drain.{drain-done}
use passive_bitcoin.Tests.{text_stringer}
use passive_bitcoin.Tests.ParMapRuns.{one_peer, one_peer-IsValid, one_peer-keyed}
use passive_bitcoin.Manager.Lifecycle
use passive_bitcoin.Manager.Lifecycle.{Lifecycle, started, Returns, Reach-Returns}

abbrev wire : WireConfig
wire = record { test_net3 = 118034699; reject_version = 70002 }

abbrev Mgr : Type 0
Mgr = Manager String String String String

-- A manager with the repository "nodes" and that index.
abbrev base : Mgr
base = record (starting wire 7) { repo = some "nodes"; peer_index = one_peer }

new-only_stops_example :
    (r : Round String String String String) × (run serving
        (set_repository (starting wire 7) "nodes")
        (connected "a" ∷ ready "a" ∷ stopped "a" ∷ sig_closed ∷ [])
      ≡ some r)
    × All IsStop r.calls
    × ((k : String) → view r.mgr.peer_index k ≡ none)
unfolding new
new-only_stops_example =
    new-only_stops wire 7 [] (starting wire 7) "nodes" refl
      (connected "a" ∷ ready "a" ∷ stopped "a" ∷ sig_closed ∷ [])

step-IsSound_example :
    (r : Round String String String String) × (step serving base (connected "a") ≡ some r)
    × IsSound base (connected "a") r
step-IsSound_example =
    step-IsSound base one_peer-IsValid serving "nodes" (connected "a") (λ e. cc) refl

drain-done_example :
    (r : Round String String String String) × (run serving base
        (sig_closed ∷ stopped "b" ∷ stopped "a" ∷ [])
      ≡ some r)
    × (r.phase ≡ done)
    × (r.calls ≡ [])
unfolding text_stringer ParMap.iter
drain-done_example =
    drain-done base ("b" ∷ "a" ∷ []) one_peer-IsValid
      (λ p m. elim m [ inl e ↦ inr (inl e) | inr n ↦ absurd n ]) one_peer-keyed

-- Stop has closed the signal, and nothing has ended.
abbrev stopping : Lifecycle
stopping = record started { closed = true }

Reach-Returns_example :
    (stopping.returned ≡ true → (stopping.ticker ≡ false) × (stopping.peers ≡ false))
    × (stopping.closed ≡ true → Returns stopping)
Reach-Returns_example = Reach-Returns stopping (
    Lifecycle.further started started stopping (Lifecycle.here started)
      (Lifecycle.close started refl))
