-- ===== src/Supervisor/Starting.antt =====
-- Whether Start returns for the modules that New builds.
use passive_bitcoin.Prelude.{String, ◌≡◌, ◌≢◌, refl, Bool, true, false, not, [], ◌∷◌, All, ◌==◌}
use passive_bitcoin.Net.{is_positive}
use passive_bitcoin.Assoc
use passive_bitcoin.Assoc.{Assoc}
use passive_bitcoin.Manager
use passive_bitcoin.Manager.{Manager, WireConfig}
use passive_bitcoin.Repository.{Repository}
use passive_bitcoin.Tracker
use passive_bitcoin.Tracker.{Tracker}
use passive_bitcoin.Supervisor.Modules.{Supervisor, Module, Mgr, update_all}
use passive_bitcoin.Supervisor.Running.{all_ok}
use passive_bitcoin.Supervisor.Entries.{Has}

module _ {X : Type 0} (ok : X → Bool) where
  pub all_ok-false : (m : Assoc X) → m ≢ [] → All (λ e. ok e.1 ≡ false) m → all_ok ok m ≡ false
  all_ok-false [] some_entry h = absurd (some_entry refl)
  all_ok-false ((key, x) ∷ m) some_entry h = rw h.0 refl

pub update_all-nonempty :
    {X : Type 0} (f : String → X → X) (m : Assoc X) → m ≢ [] → update_all f m ≢ []
update_all-nonempty f [] h e = h refl
update_all-nonempty f (entry ∷ m) h e = cc

-- An entry of the configuration, and a module that can start once it has a log
abbrev IsReady : {C X : Type 0} → Assoc C → (X → Bool) → String × Module X → Type 0
IsReady cfgs ok e = Has cfgs e.0 × (ok e.1.body ≡ true)

abbrev rate_ok : Repository → Bool
rate_ok repo = not (repo.backup_rate == 0)

abbrev interval_ok : {P : Type 0} → Mgr P → Bool
interval_ok mgr = is_positive mgr.ticker_interval
