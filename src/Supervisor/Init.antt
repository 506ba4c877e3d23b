-- ===== src/Supervisor/Init.antt =====
-- The other init functions of supervisor/supervisor.go. What the modules ask of their surroundings
-- when they are built is a record, `Env`.
use passive_bitcoin.Prelude.{
  ℕ, String, Bool, Option, none, some, List, [], ◌∷◌, ◌++◌, ◌==◌, str_eq, if◌then◌else◌, not, ◌>>=◌,
}
use passive_bitcoin.Net.{is_zero, seconds, per_second}
use passive_bitcoin.Logger
use passive_bitcoin.Logger.{GologgingLogger, Formats, parse_level}
use passive_bitcoin.Server
use passive_bitcoin.Server.{Server}
use passive_bitcoin.Manager
use passive_bitcoin.Manager.{Manager, WireConfig}
use passive_bitcoin.Processor.{
  Processor, ProcessorType, parse_type, address_filter_type, command_filter_type, ip_filter_type,
  file_writer_type, redis_writer_type, zero_mq_writer_type, writer,
}
use passive_bitcoin.Processor.FileWriter
use passive_bitcoin.Processor.FileWriter.{FileWriter}
use passive_bitcoin.Processor.Sinks.{
  RedisWriter, ZeroMqWriter, new_redis_writer, new_zeromq_writer, set_redis_host,
  set_redis_password, set_redis_database, set_zeromq_host,
}
use passive_bitcoin.Supervisor.{
  LoggerConfig, ServerConfig, ManagerConfig, ProcessorConfig, option_if, init_address_filter,
  init_command_filter, init_ip_filter,
}

-- Which files and directories can be made, which servers answer, what wire.RandomUint64 returns,
-- the formats of the loggers, and the constants of the wire package.
pub record Env (F : Type 0) : Type 0 where
  pub formats : Formats F
  pub create : String → Bool
  pub mkdir : String → Bool
  pub ping : RedisWriter → Bool
  pub socket : Bool
  pub bind : String → Bool
  pub random : Option ℕ
  pub wire : WireConfig

-- A value that is used where it was parsed.
abbrev pub parsed : {A B : Type 0} → (A → B) → Option A → List B
parsed f none = []
parsed f (some a) = f a ∷ []

abbrev pub given : String → Bool
given text = not (str_eq text "")

-- The parts of a writer that its type adds to a processor
pub data Sink : Type 0 where
  no_sink : Sink
  file_sink : FileWriter → Sink
  redis_sink : RedisWriter → Sink
  zeromq_sink : ZeroMqWriter → Sink

pub record Built (Q : Type 0) : Type 0 where
  pub pro : Processor Q
  pub sink : Sink

-- The options that initFileWriter collects
unfoldable pub file_writer_options : ProcessorConfig → List FileWriter.Setting
file_writer_options cfg =
    option_if (given cfg.file_path) (FileWriter.set_file_path cfg.file_path)
    ++ option_if (given cfg.file_prefix) (FileWriter.set_file_prefix cfg.file_prefix)
    ++ option_if (given cfg.file_name) (FileWriter.set_file_name cfg.file_name)
    ++ option_if (given cfg.file_suffix) (FileWriter.set_file_suffix cfg.file_suffix)
    ++ option_if (not (is_zero cfg.file_sizelimit))
        (FileWriter.set_file_sizelimit cfg.file_sizelimit)
    ++ option_if (not (is_zero cfg.file_agelimit))
        (FileWriter.set_file_agelimit (seconds cfg.file_agelimit))

-- The options that initManager collects
unfoldable pub manager_options : ManagerConfig → List Manager.Setting
manager_options cfg =
    option_if (not (is_zero cfg.connection_limit))
      (Manager.set_connection_limit cfg.connection_limit)
    ++ option_if (not (is_zero cfg.connection_rate))
        (Manager.set_connection_rate (per_second cfg.connection_rate))
    ++ option_if (not (cfg.protocol_magic == 0)) (Manager.set_protocol_magic cfg.protocol_magic)
    ++ option_if (not (cfg.protocol_version == 0))
        (Manager.set_protocol_version cfg.protocol_version)
    ++ option_if (not (is_zero cfg.ticker_interval))
        (Manager.set_ticker_interval (seconds cfg.ticker_interval))

module _ {F : Type 0} (env : Env F) where
  -- The options that initLogger collects
  unfoldable pub logger_options : LoggerConfig → List (Logger.Setting F)
  unfolding parse_level
  logger_options cfg =
      let format = λ (text : String). if given text then env.formats.parse_format text else none in
      let level = λ (text : String). if given text then parse_level text else none in
      option_if cfg.console_enabled (Logger.set_console_enabled cfg.console_enabled)
      ++ parsed Logger.set_console_format (format cfg.console_format)
      ++ parsed Logger.set_console_level (level cfg.console_level)
      ++ option_if cfg.file_enabled (Logger.set_file_enabled cfg.file_enabled)
      ++ parsed Logger.set_file_format (format cfg.file_format)
      ++ parsed Logger.set_file_level (level cfg.file_level)
      ++ option_if (given cfg.file_path) (Logger.set_file_path cfg.file_path)

  -- initLogger
  unfoldable pub init_logger : LoggerConfig → Option (GologgingLogger F)
  unfolding logger_options Logger.new_gologging
  init_logger cfg = Logger.new_gologging env.formats env.create (logger_options cfg)

  -- initServer
  unfoldable pub init_server : {M : Type 0} → ServerConfig → Option (Server M)
  unfolding Server.new
  init_server cfg =
      Server.new (option_if (given cfg.host_address) (Server.set_host_address cfg.host_address))

  -- initFileWriter
  unfoldable pub init_file_writer : ProcessorConfig → Option FileWriter
  unfolding file_writer_options FileWriter.new
  init_file_writer cfg = FileWriter.new env.mkdir (file_writer_options cfg)

  -- initRedisWriter
  unfoldable pub init_redis_writer : ProcessorConfig → Option RedisWriter
  unfolding new_redis_writer
  init_redis_writer cfg = new_redis_writer env.ping (
      option_if (given cfg.redis_host) (set_redis_host cfg.redis_host)
      ++ option_if (given cfg.redis_password) (set_redis_password cfg.redis_password)
      ++ option_if (not (is_zero cfg.redis_database)) (set_redis_database cfg.redis_database))

  -- initZeroMQWriter
  unfoldable pub init_zeromq_writer : ProcessorConfig → Option ZeroMqWriter
  unfolding new_zeromq_writer
  init_zeromq_writer cfg =
      new_zeromq_writer env.socket env.bind
        (option_if (given cfg.zeromq_host) (set_zeromq_host cfg.zeromq_host))

  -- A writer, to which processors can be added too
  abbrev sunk : {Q W : Type 0} → ProcessorType → (W → Sink) → Option W → Option (Built Q)
  sunk type sink none = none
  sunk type sink (some w) =
      some (record { pro = record { kind = writer type; next = [] }; sink = sink w })

  -- The switch of initProcessor
  unfoldable pub init_type : {Q : Type 0} → ProcessorConfig → ProcessorType → Option (Built Q)
  unfolding init_file_writer init_redis_writer init_zeromq_writer init_address_filter
      init_command_filter init_ip_filter
  init_type cfg address_filter_type =
      some (record { pro = init_address_filter cfg; sink = no_sink })
  init_type cfg command_filter_type =
      some (record { pro = init_command_filter cfg; sink = no_sink })
  init_type cfg ip_filter_type = some (record { pro = init_ip_filter cfg; sink = no_sink })
  init_type cfg file_writer_type = sunk file_writer_type file_sink (init_file_writer cfg)
  init_type cfg redis_writer_type = sunk redis_writer_type redis_sink (init_redis_writer cfg)
  init_type cfg zero_mq_writer_type = sunk zero_mq_writer_type zeromq_sink (init_zeromq_writer cfg)

  -- initProcessor
  unfoldable pub init_processor : {Q : Type 0} → ProcessorConfig → Option (Built Q)
  unfolding parse_type init_type
  init_processor cfg = do type ← parse_type cfg.processor_type; init_type cfg type

  -- initManager
  unfoldable pub init_manager : {P R T Q : Type 0} → ManagerConfig → Option (Manager P R T Q)
  unfolding manager_options Manager.new
  init_manager cfg = Manager.new env.wire env.random (manager_options cfg)
