-- ===== src/Supervisor.antt =====
-- supervisor/config.go, and of supervisor/supervisor.go the functions initRepository and those of
-- the filters: what the modules are built with for a configuration. The other init functions are in
-- `Init`, New in `Modules` and `Build`, Start and Stop in `Running`, and the proofs in the other modules.
pub mod Settings
pub mod Init
pub mod Modules
pub mod Build
pub mod Running
pub mod Entries
pub mod Links
pub mod Wiring
pub mod Serving
pub mod Tickers
pub mod Writers
pub mod Typed
pub mod Delivery
pub mod Starting
pub mod Panics
use passive_bitcoin.Prelude.{
  ℕ, ◌*◌, String, Bool, true, false, ◌&&◌, Option, none, some, List, [], ◌∷◌, ◌++◌, ltb, ◌==◌,
  str_eq, if◌then◌else◌, length, not,
}
use passive_bitcoin.Assoc.{Assoc}
use passive_bitcoin.Text.{ℤ}
use passive_bitcoin.Net.{Time, second, minute, hour}
use passive_bitcoin.Repository
use passive_bitcoin.Repository.{Repository}
use passive_bitcoin.Processor
use passive_bitcoin.Processor.{Processor}

-- LoggerConfig
pub record LoggerConfig : Type 0 where
  pub log_level : String
  pub console_enabled : Bool
  pub console_format : String
  pub console_level : String
  pub file_enabled : Bool
  pub file_format : String
  pub file_level : String
  pub file_path : String

-- TrackerConfig
pub record TrackerConfig : Type 0 where
  pub logger : String
  pub log_level : String

-- ServerConfig
pub record ServerConfig : Type 0 where
  pub logger : String
  pub manager : String
  pub log_level : String
  pub host_address : String

-- ManagerConfig
pub record ManagerConfig : Type 0 where
  pub logger : String
  pub repository : String
  pub tracker : String
  pub processor : List String
  pub log_level : String
  pub protocol_magic : ℕ  -- uint32
  pub protocol_version : ℕ  -- uint32
  pub connection_rate : ℤ  -- int
  pub connection_limit : ℤ  -- int
  pub ticker_interval : ℤ  -- int, in seconds

-- RepositoryConfig; `seeds_list` may be nil.
pub record RepositoryConfig : Type 0 where
  pub logger : String
  pub log_level : String
  pub seeds_list : Option (List String)
  pub seeds_port : ℕ  -- uint16
  pub backup_rate : ℕ  -- uint32, in seconds
  pub backup_path : String
  pub node_limit : ℕ  -- uint32

-- ProcessorConfig, less the compression, which nothing reads
pub record ProcessorConfig : Type 0 where
  pub logger : String
  pub next : List String
  pub log_level : String
  pub processor_type : String
  pub address_list : List String
  pub ip_list : List String
  pub command_list : List String
  pub file_path : String
  pub file_prefix : String
  pub file_name : String
  pub file_suffix : String
  pub file_sizelimit : ℤ  -- int64
  pub file_agelimit : ℤ  -- int, in seconds
  pub redis_host : String
  pub redis_password : String
  pub redis_database : ℤ  -- int64
  pub zeromq_host : String

-- Config; a section that the file does not have is an empty map.
pub record Config : Type 0 where
  pub supervisor_log_level : String
  pub logger : Assoc LoggerConfig
  pub repository : Assoc RepositoryConfig
  pub tracker : Assoc TrackerConfig
  pub server : Assoc ServerConfig
  pub processor : Assoc ProcessorConfig
  pub manager : Assoc ManagerConfig

-- x > low && x < high
unfoldable pub between : ℕ → ℕ → ℕ → Bool
between low high x = ltb low x && ltb x high

-- An option that is given under a condition.
abbrev pub option_if : {A : Type 0} → Bool → A → List A
option_if true option = option ∷ []
option_if false option = []

abbrev pub seeds_option : Option (List String) → List Repository.Setting
seeds_option none = []
seeds_option (some seeds) = Repository.set_seeds_list seeds ∷ []

-- The options that initRepository collects.
unfoldable pub repository_options : RepositoryConfig → List Repository.Setting
unfolding between
repository_options cfg =
    let rate : Time = cfg.backup_rate * second in
    seeds_option cfg.seeds_list
    ++ option_if (not (cfg.seeds_port == 0) && between 0 65535 cfg.seeds_port)
        (Repository.set_seeds_port cfg.seeds_port)
    ++ option_if (not (str_eq cfg.backup_path "")) (Repository.set_backup_path cfg.backup_path)
    ++ option_if (not (cfg.backup_rate == 0) && between (minute * 15) (hour * 24) rate)
        (Repository.set_backup_rate rate)
    ++ option_if (not (cfg.node_limit == 0) && between 1000 1000000 cfg.node_limit)
        (Repository.set_node_limit cfg.node_limit)

-- initRepository
unfoldable pub init_repository : (String → Bool) → RepositoryConfig → Option Repository
unfolding repository_options
init_repository create cfg = Repository.new create (repository_options cfg)

module _ {Q : Type 0} where
  -- initAddressFilter
  unfoldable pub init_address_filter : ProcessorConfig → Processor Q
  init_address_filter cfg =
      Processor.new_address_filter
        (option_if (ltb 0 (length cfg.address_list)) (Processor.set_addresses cfg.address_list))

  -- initCommandFilter
  unfoldable pub init_command_filter : ProcessorConfig → Processor Q
  init_command_filter cfg =
      Processor.new_command_filter
        (option_if (ltb 0 (length cfg.command_list)) (Processor.set_commands cfg.command_list))

  -- initIPFilter
  unfoldable pub init_ip_filter : ProcessorConfig → Processor Q
  init_ip_filter cfg =
      Processor.new_ip_filter
        (option_if (ltb 0 (length cfg.ip_list)) (Processor.set_ips cfg.ip_list))
