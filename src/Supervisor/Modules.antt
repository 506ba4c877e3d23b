-- ===== src/Supervisor/Modules.antt =====
-- The loops of New of supervisor/supervisor.go: the modules of a section of the configuration, the
-- default module, the logs, and what the modules are given of each other. A pointer to a module is
-- the key of the module in its map. The order of the entries of a map stands for an order of
-- iteration, also where a loop stops at the first entry.
use passive_bitcoin.Prelude.{
  String, Option, none, some, List, [], ◌∷◌, ◌++◌, map, str_append, if◌then◌else◌, is_some,
}
use mathlib.Core.List.{foldl}
use passive_bitcoin.Assoc
use passive_bitcoin.Assoc.{Assoc}
use passive_bitcoin.Logger.{GologgingLogger, Level, critical, parse_level}
use passive_bitcoin.Server
use passive_bitcoin.Server.{Server}
use passive_bitcoin.Manager
use passive_bitcoin.Manager.{Manager}
use passive_bitcoin.Tracker.{Tracker}
use passive_bitcoin.Repository.{Repository}
use passive_bitcoin.Processor
use passive_bitcoin.Supervisor.{ServerConfig, ProcessorConfig, ManagerConfig}
use passive_bitcoin.Supervisor.Init.{Built}

-- adaptor.Log: the name of the log and the key of the logger that it is got from
pub record Log : Type 0 where
  pub logger : String
  pub name : String

-- A module of one of the maps; its log is nil until it is injected.
pub record Module (X : Type 0) : Type 0 where
  pub body : X
  pub log : Option Log

-- A manager as the supervisor wires it up
abbrev pub Mgr : Type 0 → Type 0
Mgr P = Manager P String String String

-- Supervisor; `levels` are the calls of SetLevel, in order.
pub record Supervisor (F P H : Type 0) : Type 0 where
  pub logr : Assoc (GologgingLogger F)
  pub repo : Assoc (Module Repository)
  pub tkr : Assoc (Module (Tracker H))
  pub svr : Assoc (Module (Server String))
  pub pro : Assoc (Module (Built String))
  pub mgr : Assoc (Module (Mgr P))
  pub levels : List (String × Level)

abbrev pub kept : {X : Type 0} → String → Option X → Assoc X → Assoc X
kept name none modules = modules
kept name (some x) modules = Assoc.insert name x modules

-- The loops that initialize the modules of a section; one that fails is logged and left out.
unfoldable pub init_all : {C X : Type 0} → (C → Option X) → Assoc C → Assoc X → Assoc X
init_all init [] modules = modules
init_all init ((name, cfg) ∷ rest) modules = init_all init rest (kept name (init cfg) modules)

-- A module without a log
abbrev pub bare : {X : Type 0} → Option X → Option (Module X)
bare none = none
bare (some x) = some (record { body = x; log = none })

-- The default module, if there is no other
unfoldable pub or_default : {X : Type 0} → Option X → Assoc X → Option (Assoc X)
or_default none [] = none
or_default (some x) [] = some (("default", x) ∷ [])
or_default fallback (entry ∷ rest) = some (entry ∷ rest)

-- A loop over the entries of a map
abbrev pub update_all : {X : Type 0} → (String → X → X) → Assoc X → Assoc X
update_all f modules = map (λ (key, x). (key, f key x)) modules

abbrev pub level_or_critical : Option Level → Level
level_or_critical none = critical
level_or_critical (some level) = level

-- What of a section the injection of the logs reads
pub record LogConfig (C : Type 0) : Type 0 where
  pub logger : C → String
  pub log_level : C → String

-- The log of a module, for its entry of the configuration if there is one. A logger that is not
-- there is replaced by the default one.
abbrev pub log_of :
    {C L : Type 0} → LogConfig C → String → Assoc L → String → Option C → Option Log → Option Log
log_of lc part logr key none log = log
log_of lc part logr key (some cfg) log = some (record {
  logger = if is_some (Assoc.lookup (lc.logger cfg) logr) then lc.logger cfg else "";
  name = str_append part key;
})

-- The loops that inject the logs
unfoldable pub inject_logs :
    {C X L : Type 0}
    → LogConfig C
    → String
    → Assoc L
    → Assoc C
    → Assoc (Module X)
    → Assoc (Module X)
inject_logs lc part logr cfgs modules =
    update_all (λ key m. record m { log = log_of lc part logr key (Assoc.lookup key cfgs) m.log })
      modules

abbrev level_call : {C : Type 0} → LogConfig C → String → String → Option C → List (String × Level)
level_call lc part key none = []
level_call lc part key (some cfg) =
    (str_append part key, level_or_critical (parse_level (lc.log_level cfg))) ∷ []

-- The calls of SetLevel in the same loops
unfoldable pub level_calls :
    {C X : Type 0} → LogConfig C → String → Assoc C → Assoc X → List (String × Level)
unfolding parse_level
level_calls lc part cfgs [] = []
level_calls lc part cfgs ((key, m) ∷ rest) =
    level_call lc part key (Assoc.lookup key cfgs) ++ level_calls lc part cfgs rest

-- The key of a module that is asked for by name, or else of the first module
unfoldable pub resolve : {X : Type 0} → String → Assoc X → Option String
resolve name [] = none
resolve name ((first, x) ∷ rest) =
    if is_some (Assoc.lookup name ((first, x) ∷ rest)) then some name else some first

-- The names under which there is a module
unfoldable pub present : {X : Type 0} → Assoc X → List String → List String
present modules [] = []
present modules (name ∷ names) =
    let rest = present modules names in
    if is_some (Assoc.lookup name modules) then name ∷ rest else rest

abbrev with_manager : Option String → Server String → Server String
with_manager none server = server
with_manager (some key) server = Server.set_manager server key

module _ {P : Type 0} where
  -- The injections into a server, a manager and a processor
  unfoldable pub link_server :
      Assoc (Module (Mgr P)) → Option ServerConfig → Module (Server String) → Module (Server String)
  unfolding resolve Server.set_manager
  link_server mgr none m = m
  link_server mgr (some cfg) m = record m { body = with_manager (resolve cfg.manager mgr) m.body }

  abbrev with_repository : Option String → Mgr P → Mgr P
  with_repository none mgr = mgr
  with_repository (some key) mgr = Manager.set_repository mgr key

  abbrev with_tracker : Option String → Mgr P → Mgr P
  with_tracker none mgr = mgr
  with_tracker (some key) mgr = Manager.set_tracker mgr key

  unfoldable pub link_manager :
      {X Y Z : Type 0}
      → Assoc X
      → Assoc Y
      → Assoc Z
      → Option ManagerConfig
      → Module (Mgr P)
      → Module (Mgr P)
  unfolding resolve present Manager.set_repository Manager.set_tracker Manager.add_processor
  link_manager repo tkr pro none m = m
  link_manager repo tkr pro (some cfg) m = record m {
    body =
        foldl Manager.add_processor
          (with_tracker (resolve cfg.tracker tkr)
            (with_repository (resolve cfg.repository repo) m.body))
          (present pro cfg.processor);
  }

unfoldable pub link_processor :
    {Z : Type 0} → Assoc Z → Option ProcessorConfig → Module (Built String) → Module (Built String)
unfolding present Processor.add_next
link_processor pro none m = m
link_processor pro (some cfg) m = record m {
  body = record m.body { pro = foldl Processor.add_next m.body.pro (present pro cfg.next) };
}
