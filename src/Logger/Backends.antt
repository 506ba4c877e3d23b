-- ===== src/Logger/Backends.antt =====
-- When a logger cannot be made, the backends of one that is made, and the loggers of New.
use mathlib.Core.List.{foldl}
use passive_bitcoin.Prelude.{
  String, ◌≡◌, ◌↔◌, refl, sym, arith, Bool, Bool-cases, Option, none, some, List, [], ◌∷◌, ◌++◌,
  inl, inr, eq_iff, if◌then◌else◌, subst, ◌&&◌, not,
}
use passive_bitcoin.Logger
use passive_bitcoin.Logger.{
  named, Level, critical, error, warning, notice, info, debug, parse_level, Formats, Output, stderr,
  log_file, Backend, GologgingLogger, Setting, apply, starting, add_console, add_file,
  new_gologging,
}

-- The names of the levels
abbrev pub level_text : Level → String
level_text critical = "CRITICAL"
level_text error = "ERROR"
level_text warning = "WARNING"
level_text notice = "NOTICE"
level_text info = "INFO"
level_text debug = "DEBUG"

parse_level_sound :
    (text : String) (level : Level) → parse_level text ≡ some level → text ≡ level_text level
unfolding parse_level
parse_level_sound text level h = ground (
  arith,
  eq_iff text "DEBUG",
  eq_iff text "INFO",
  eq_iff text "NOTICE",
  eq_iff text "WARNING",
  eq_iff text "ERROR",
  eq_iff text "CRITICAL",
)

parse_level-level_text : (level : Level) → parse_level (level_text level) ≡ some level
unfolding parse_level
parse_level-level_text critical = refl
parse_level-level_text error = refl
parse_level-level_text warning = refl
parse_level-level_text notice = refl
parse_level-level_text info = refl
parse_level-level_text debug = refl

-- A text is parsed to a level exactly if it is the name of the level.
parse_level_iff :
    (text : String) (level : Level) → (parse_level text ≡ some level) ↔ (text ≡ level_text level)
parse_level_iff text level = (
  parse_level_sound text level,
  λ e. subst (λ x. parse_level x ≡ some level) (sym e) (parse_level-level_text level),
)

module _ {F : Type 0} where
  -- The options as they stand at the end
  abbrev pub final : Formats F → List (Setting F) → GologgingLogger F
  final fs settings = foldl apply (starting fs) settings

  abbrev pub console_backends : GologgingLogger F → List (Backend F)
  console_backends logr =
      if logr.console_enabled
      then record { output = stderr; format = logr.console_format; level = logr.console_level } ∷ []
      else []

  abbrev pub file_backends : GologgingLogger F → List (Backend F)
  file_backends logr =
      if logr.file_enabled
      then record {
        output = log_file logr.file_path;
        format = logr.file_format;
        level = logr.file_level;
      }
        ∷ []
      else []

  no_backends :
      (settings : List (Setting F)) (logr : GologgingLogger F)
      → (foldl apply logr settings).backends ≡ logr.backends
  unfolding apply
  no_backends [] logr = refl
  no_backends (Logger.set_log_name name ∷ rest) logr = no_backends rest _
  no_backends (Logger.set_file_path path ∷ rest) logr = no_backends rest _
  no_backends (Logger.set_console_enabled b ∷ rest) logr = no_backends rest _
  no_backends (Logger.set_file_enabled b ∷ rest) logr = no_backends rest _
  no_backends (Logger.set_console_format f ∷ rest) logr = no_backends rest _
  no_backends (Logger.set_file_format f ∷ rest) logr = no_backends rest _
  no_backends (Logger.set_console_level l ∷ rest) logr = no_backends rest _
  no_backends (Logger.set_file_level l ∷ rest) logr = no_backends rest _

  -- What NewGologging gives for its options as they stand at the end
  abbrev pub optional_backends : Option (GologgingLogger F) → Option (List (Backend F))
  optional_backends none = none
  optional_backends (some logr) = some logr.backends

  built :
      (create : String → Bool) (logr : GologgingLogger F)
      → logr.backends ≡ []
      → optional_backends (named (add_file create (add_console logr))) ≡ (
          if logr.file_enabled && not (create logr.file_path)
          then none
          else some (console_backends logr ++ file_backends logr))
  unfolding add_console add_file
  built create logr e = elim (Bool-cases logr.console_enabled) [
    | inl c ↦ elim (Bool-cases logr.file_enabled) [
      | inl f ↦ elim (Bool-cases (create logr.file_path)) [
        | inl ok ↦ rw (c, f, ok, e) refl
        | inr failed ↦ rw (c, f, failed) refl
      ]
      | inr f ↦ rw (c, f, e) refl
    ]
    | inr c ↦ elim (Bool-cases logr.file_enabled) [
      | inl f ↦ elim (Bool-cases (create logr.file_path)) [
        | inl ok ↦ rw (c, f, ok, e) refl
        | inr failed ↦ rw (c, f, failed) refl
      ]
      | inr f ↦ rw (c, f, e) refl
    ]
  ]

  -- NewGologging fails exactly if the options want a file that cannot be created. Otherwise its
  -- backends are one for the console and one for the file, where they are wanted, with the formats
  -- and levels as the options leave them.
  new_gologging-backends :
      (fs : Formats F) (create : String → Bool) (settings : List (Setting F))
      → let end = final fs settings in
        optional_backends (new_gologging fs create settings) ≡ (
          if end.file_enabled && not (create end.file_path)
          then none
          else some (console_backends end ++ file_backends end))
  unfolding new_gologging
  new_gologging-backends fs create settings =
      built create (final fs settings) (no_backends settings (starting fs))
