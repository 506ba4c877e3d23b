-- ===== src/Tests/ImporterRuns.antt =====
-- The import of a log file with one line after its header, by importer/importer.go.
use passive_bitcoin.Prelude.{◌≡◌, refl, false, true, none, some, List, [], ◌∷◌, String}
use passive_bitcoin.Text.{Bytes}
use passive_bitcoin.Importer.{Lines, LogFile, process, main}
use passive_bitcoin.Importer.Defaults.{IsWritten, each_refused, main-refuses_defaults}
use passive_bitcoin.Processor.FileWriter
use passive_bitcoin.Processor.FileWriter.{FileWriter, Rotate, next_name}
use passive_bitcoin.Importer.Progress.{IsLog, process-inserts_nothing}

-- Each byte is a line of its own; the first one reads as the header.
abbrev each_line : Bytes → List Bytes
each_line [] = []
each_line (c ∷ cs) = (c ∷ []) ∷ each_line cs

abbrev io : Lines
io = record {
  scan_lines = each_line;
  line_text = λ line. "#PBTC Log Version 1";
  buffered = λ rest. [];
  ext = λ name. ".txt";
}

abbrev log : LogFile
log = record {
  name = "a.txt";
  is_dir = false;
  opened = some (35 ∷ 80 ∷ []);
  seek_ok = true;
  copy_ok = true;
}

log-IsLog : IsLog io log
log-IsLog = record {
  content = 35 ∷ 80 ∷ [];
  line = 35 ∷ [];
  lines = (80 ∷ []) ∷ [];
  plain = refl;
  named = refl;
  readable = refl;
  scanned = refl;
  headed = refl;
  sought = refl;
  hashed = refl;
}

process-inserts_nothing_example :
    ((process io log).1 ≡ []) × (IsLog io log → (process io log).0 ≡ none)
process-inserts_nothing_example = process-inserts_nothing io log refl

-- The log file is one of those that are accepted.
accepted : (process io log).0 ≡ none
accepted = (process-inserts_nothing io log refl).1 log-IsLog

-- path.Ext as far as its assumption needs it
abbrev log_ext : String → String
log_ext name = ".log"

abbrev default_io : Lines
default_io = record io { ext = log_ext }

-- The writer with the default settings but for another folder, and a file that it makes
abbrev writer : FileWriter
writer = record FileWriter.starting { file_path = "out/" }

abbrev rotation : Rotate
rotation = record {
  format = λ layout. "2015-03-14T00:00:00Z";
  create_ok = true;
  header_ok = true;
  seek_ok = true;
  output_ok = true;
  copy_err = none;
}

abbrev default_log : LogFile
default_log = record log { name = "pbtc-2015-03-14T00:00:00Z.log" }

default_log-IsWritten : IsWritten writer default_log
unfolding next_name
default_log-IsWritten = (refl, rotation, refl)

main-refuses_defaults_example :
    main default_io (record { session_ok = true; listing = some (default_log ∷ []) })
    ≡ record { code = 0; errors = each_refused (default_log ∷ []); inserted = [] }
unfolding FileWriter.new FileWriter.apply
main-refuses_defaults_example =
    main-refuses_defaults default_io (λ path. true) (FileWriter.set_file_path "out/" ∷ []) writer
      (default_log ∷ []) (λ s. refl) refl (tt, tt) (default_log-IsWritten, tt)
