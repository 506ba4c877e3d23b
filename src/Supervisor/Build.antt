-- ===== src/Supervisor/Build.antt =====
-- New of supervisor/supervisor.go: the modules of a configuration, which is what gcfg reads.
use passive_bitcoin.Prelude.{
  String, Option, none, some, [], ◌∷◌, ◌++◌, str_eq, str_append, if◌then◌else◌, ◌>>=◌, is_some,
}
use passive_bitcoin.Assoc
use passive_bitcoin.Assoc.{Assoc}
use passive_bitcoin.Logger
use passive_bitcoin.Logger.{GologgingLogger, Level, critical, parse_level}
use passive_bitcoin.Server.{Server}
use passive_bitcoin.Manager
use passive_bitcoin.Manager.{Manager}
use passive_bitcoin.Tracker
use passive_bitcoin.Tracker.{Tracker}
use passive_bitcoin.ParMap.{Stringer}
use passive_bitcoin.Repository
use passive_bitcoin.Repository.{Repository}
use passive_bitcoin.Supervisor.{
  Config, LoggerConfig, RepositoryConfig, TrackerConfig, ServerConfig, ProcessorConfig,
  ManagerConfig, init_repository,
}
use passive_bitcoin.Supervisor.Init.{
  Env, Built, init_logger, init_server, init_processor, init_manager,
}
use passive_bitcoin.Supervisor.Modules.{
  Module, Mgr, Supervisor, kept, init_all, bare, or_default, update_all, level_or_critical,
  LogConfig, inject_logs, level_calls, link_server, link_manager, link_processor,
}

-- A logger's own log is injected where it is one of the configuration.
abbrev relogged : {F : Type 0} → Assoc LoggerConfig → String → GologgingLogger F → GologgingLogger F
relogged cfgs key logr =
    if is_some (Assoc.lookup key cfgs) then Logger.set_log logr (str_append "logr___" key) else logr

module _ {F : Type 0} (env : Env F) where
  -- The default logger
  unfoldable pub default_logger : Assoc LoggerConfig → Option (GologgingLogger F)
  unfolding Logger.new init_logger
  default_logger [] = Logger.new env.formats env.create
  default_logger (entry ∷ rest) = elim (Assoc.lookup "" (entry ∷ rest)) [
    | none ↦ init_logger env entry.1
    | some cfg ↦ init_logger env cfg
  ]

  -- The loggers with a name, beside the default one
  unfoldable pub init_loggers :
      Assoc LoggerConfig → Assoc (GologgingLogger F) → Assoc (GologgingLogger F)
  unfolding init_logger
  init_loggers [] logr = logr
  init_loggers ((name, cfg) ∷ rest) logr =
      init_loggers rest (if str_eq name "" then logr else kept name (init_logger env cfg) logr)

abbrev logger_logs : LogConfig LoggerConfig
logger_logs = record { logger = λ cfg. ""; log_level = λ cfg. cfg.log_level }

abbrev pub repository_logs : LogConfig RepositoryConfig
repository_logs = record { logger = λ cfg. cfg.logger; log_level = λ cfg. cfg.log_level }

abbrev pub tracker_logs : LogConfig TrackerConfig
tracker_logs = record { logger = λ cfg. cfg.logger; log_level = λ cfg. cfg.log_level }

abbrev pub server_logs : LogConfig ServerConfig
server_logs = record { logger = λ cfg. cfg.logger; log_level = λ cfg. cfg.log_level }

abbrev pub processor_logs : LogConfig ProcessorConfig
processor_logs = record { logger = λ cfg. cfg.logger; log_level = λ cfg. cfg.log_level }

abbrev pub manager_logs : LogConfig ManagerConfig
manager_logs = record { logger = λ cfg. cfg.logger; log_level = λ cfg. cfg.log_level }

module _ {F : Type 0} (env : Env F) (cfg : Config) where
  -- The modules of each section, before the defaults
  unfoldable pub repositories : Assoc (Module Repository)
  unfolding init_all init_repository
  repositories = init_all (λ c. bare (init_repository env.create c)) cfg.repository []

  unfoldable pub servers : Assoc (Module (Server String))
  unfolding init_all init_server
  servers = init_all (λ c. bare (init_server env c)) cfg.server []

  unfoldable pub processors : Assoc (Module (Built String))
  unfolding init_all init_processor
  processors = init_all (λ c. bare (init_processor env c)) cfg.processor []

  unfoldable pub managers : {P : Type 0} → Assoc (Module (Mgr P))
  unfolding init_all init_manager
  managers = init_all (λ c. bare (init_manager env c)) cfg.manager []

-- initTracker, which has no options, and the trackers
unfoldable pub trackers : {H : Type 0} ⦃i : Stringer H⦄ → Config → Assoc (Module (Tracker H))
unfolding init_all Tracker.new
trackers cfg = init_all (λ c. bare (some Tracker.new)) cfg.tracker []

module _ {F P H : Type 0} ⦃i : Stringer H⦄ (env : Env F) (cfg : Config) where
  -- The part of New after the cardinality has been checked: the logs, then the dependencies
  unfoldable pub wire_up :
      Assoc (GologgingLogger F)
      → Assoc (Module Repository)
      → Assoc (Module (Tracker H))
      → Assoc (Module (Mgr P))
      → Supervisor F P H
  unfolding inject_logs level_calls link_server link_manager link_processor servers processors
      Logger.set_log
  wire_up logr repo tkr mgr =
      let supervisor_level = level_or_critical (parse_level cfg.supervisor_log_level) in
      record {
        logr = update_all (relogged cfg.logger) logr;
        repo = inject_logs repository_logs "repo___" logr cfg.repository repo;
        tkr = inject_logs tracker_logs "tkr___" logr cfg.tracker tkr;
        svr =
            update_all (λ key m. link_server mgr (Assoc.lookup key cfg.server) m)
              (inject_logs server_logs "svr___" logr cfg.server (servers env cfg));
        pro =
            update_all
              (λ key m. link_processor (processors env cfg) (Assoc.lookup key cfg.processor) m)
              (inject_logs processor_logs "pro___" logr cfg.processor (processors env cfg));
        mgr =
            update_all
              (λ key m. link_manager repo tkr (processors env cfg) (Assoc.lookup key cfg.manager) m)
              (inject_logs manager_logs "mgr___" logr cfg.manager mgr);
        levels =
            ("supervisor", supervisor_level)
            ∷ (level_calls logger_logs "logr___" cfg.logger logr
                ++ level_calls repository_logs "repo___" cfg.repository repo
                ++ level_calls tracker_logs "tkr___" cfg.tracker tkr
                ++ level_calls server_logs "svr___" cfg.server (servers env cfg)
                ++ level_calls processor_logs "pro___" cfg.processor (processors env cfg)
                ++ level_calls manager_logs "mgr___" cfg.manager mgr);
      }

  -- New; `none` is its error.
  unfoldable pub new : Option (Supervisor F P H)
  unfolding default_logger init_loggers or_default wire_up repositories trackers managers
      Repository.new Tracker.new Manager.new
  new = do
    logr ← default_logger env cfg.logger
    repo ← or_default (bare (Repository.new env.create [])) (repositories env cfg)
    tkr ← or_default (bare (some Tracker.new)) (trackers cfg)
    mgr ← or_default (bare (Manager.new env.wire env.random [])) (managers env cfg)
    some (wire_up (init_loggers env cfg.logger (("", logr) ∷ [])) repo tkr mgr)
