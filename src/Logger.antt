-- ===== src/Logger.antt =====
-- logger/logger_gologging.go and logger_default.go: the loggers and their backends. The formats of
-- the go-logging package are a type `F` with their parser; a backend is a writer with a format and
-- a level. The proofs are in the module below.
pub mod Backends
use mathlib.Core.List.{foldl}
use passive_bitcoin.Prelude.{
  String, Bool, true, false, Option, none, some, List, [], ◌∷◌, ◌++◌, str_eq, str_append,
  if◌then◌else◌,
}

-- logging.Level
pub data Level : Type 0 where
  critical error warning notice info debug : Level

-- ParseLevel; `none` is its error.
unfoldable pub parse_level : String → Option Level
parse_level level =
    if str_eq level "DEBUG"
    then some debug
    else if str_eq level "INFO"
    then some info
    else if str_eq level "NOTICE"
    then some notice
    else if str_eq level "WARNING"
    then some warning
    else if str_eq level "ERROR"
    then some error
    else if str_eq level "CRITICAL"
    then some critical
    else none

-- The formats: logging.NewStringFormatter, and the one of "%{message}".
pub record Formats (F : Type 0) : Type 0 where
  pub parse_format : String → Option F
  pub message_format : F

-- What a backend writes to
pub data Output : Type 0 where
  stderr : Output
  log_file : String → Output

pub record Backend (F : Type 0) : Type 0 where
  pub output : Output
  pub format : F
  pub level : Level

-- GologgingLogger; `file` is the path of the file that was created, `log` the name of its own log.
pub record GologgingLogger (F : Type 0) : Type 0 where
  pub backends : List (Backend F)
  pub file : Option String
  pub name : String
  pub console_enabled : Bool
  pub console_format : F
  pub console_level : Level
  pub file_enabled : Bool
  pub file_format : F
  pub file_level : Level
  pub file_path : String
  pub log : Option String

-- The options of NewGologging
pub data Setting (F : Type 0) : Type 0 where
  set_log_name set_file_path : String → Setting F
  set_console_enabled set_file_enabled : Bool → Setting F
  set_console_format set_file_format : F → Setting F
  set_console_level set_file_level : Level → Setting F

module _ {F : Type 0} where
  unfoldable pub apply : GologgingLogger F → Setting F → GologgingLogger F
  apply logr (set_log_name name) = record logr { name = name }
  apply logr (set_file_path file_path) = record logr { file_path = file_path }
  apply logr (set_console_enabled enabled) = record logr { console_enabled = enabled }
  apply logr (set_file_enabled enabled) = record logr { file_enabled = enabled }
  apply logr (set_console_format format) = record logr { console_format = format }
  apply logr (set_file_format format) = record logr { file_format = format }
  apply logr (set_console_level level) = record logr { console_level = level }
  apply logr (set_file_level level) = record logr { file_level = level }

  -- The values that NewGologging sets before the options
  abbrev pub starting : Formats F → GologgingLogger F
  starting fs = record {
    backends = [];
    file = none;
    name = "default";
    console_enabled = false;
    console_format = fs.message_format;
    console_level = critical;
    file_enabled = false;
    file_format = fs.message_format;
    file_level = critical;
    file_path = "";
    log = none;
  }

  -- The part of NewGologging after the options. `create` says for which paths os.Create succeeds.
  unfoldable pub add_console : GologgingLogger F → GologgingLogger F
  add_console logr =
      if logr.console_enabled
      then (record logr {
        backends =
            logr.backends
            ++ record { output = stderr; format = logr.console_format; level = logr.console_level }
              ∷ [];
      })
      else logr

  unfoldable pub add_file : (String → Bool) → GologgingLogger F → Option (GologgingLogger F)
  add_file create logr =
      if logr.file_enabled
      then (if create logr.file_path
          then some (record logr {
            file = some logr.file_path;
            backends =
                logr.backends
                ++ record {
                  output = log_file logr.file_path;
                  format = logr.file_format;
                  level = logr.file_level;
                }
                  ∷ [];
          })
          else none)
      else some logr

  abbrev pub named : Option (GologgingLogger F) → Option (GologgingLogger F)
  named none = none
  named (some logr) = some (record logr { log = some (str_append "logr___" logr.name) })

  -- NewGologging; `none` is its error.
  unfoldable pub new_gologging :
      Formats F → (String → Bool) → List (Setting F) → Option (GologgingLogger F)
  unfolding apply add_console add_file
  new_gologging fs create settings =
      named (add_file create (add_console (foldl apply (starting fs) settings)))

  -- The logger that `init` makes and New returns
  unfoldable pub new : Formats F → (String → Bool) → Option (GologgingLogger F)
  unfolding new_gologging
  new fs create = new_gologging fs create (set_console_enabled true ∷ set_console_level debug ∷ [])

  -- SetLog
  unfoldable pub set_log : GologgingLogger F → String → GologgingLogger F
  set_log logr log = record logr { log = some log }
