-- ===== src/Processor/FileWriter.antt =====
-- processor/writer_file.go: the writer that puts the text of each record in a file and starts a new
-- file when the age limit has passed. A file is the list of the texts written to it.
pub mod Rotation
pub mod Sizes
use mathlib.Core.List.{foldl}
use passive_bitcoin.Prelude.{
  ℕ, ◌*◌, String, Bool, true, false, Option, some, none, List, [], ◌∷◌, ◌++◌, ◌==◌, ltb,
  if◌then◌else◌, str_append,
}
use passive_bitcoin.Assoc
use passive_bitcoin.Assoc.{Assoc}
use passive_bitcoin.Net.{Duration, second, is_zero, is_positive}
use passive_bitcoin.Text.{ℤ, pos, negsuc}

-- The files of the host by their names
abbrev pub Disk : Type 0
Disk = Assoc (List String)

-- adaptor.Compressor: whether it makes a writer for a file, and what it writes there for a content.
pub record Compressor : Type 0 where
  pub get_writer : String → Bool
  pub compress : List String → List String

-- FileWriter; `file` is the name of the open file.
pub record FileWriter : Type 0 where
  pub comp : Compressor
  pub file : Option String
  pub file_path : String
  pub file_prefix : String
  pub file_name : String
  pub file_suffix : String
  pub file_sizelimit : ℤ  -- int64
  pub file_agelimit : Duration

-- The options of NewFileWriter
pub data Setting : Type 0 where
  set_file_compressor : Compressor → Setting
  set_file_path set_file_prefix set_file_name set_file_suffix : String → Setting
  set_file_sizelimit : ℤ → Setting
  set_file_agelimit : Duration → Setting

unfoldable pub apply : FileWriter → Setting → FileWriter
apply w (set_file_compressor comp) = record w { comp = comp }
apply w (set_file_path path) = record w { file_path = path }
apply w (set_file_prefix prefix) = record w { file_prefix = prefix }
apply w (set_file_name name) = record w { file_name = name }
apply w (set_file_suffix suffix) = record w { file_suffix = suffix }
apply w (set_file_sizelimit sizelimit) = record w { file_sizelimit = sizelimit }
apply w (set_file_agelimit agelimit) = record w { file_agelimit = agelimit }

-- compressor.NewDummy, which copies
abbrev pub dummy_compressor : Compressor
dummy_compressor = record { get_writer = λ name. true; compress = λ lines. lines }

-- The values that NewFileWriter sets before the options
abbrev pub starting : FileWriter
starting = record {
  comp = dummy_compressor;
  file = none;
  file_path = "logs/";
  file_prefix = "pbtc-";
  file_name = "2006-01-02T15:04:05Z07:00";
  file_suffix = ".log";
  file_sizelimit = pos 1048576;
  file_agelimit = pos (3600 * second);
}

-- NewFileWriter; `mkdir` says for which paths os.MkdirAll succeeds.
unfoldable pub new : (String → Bool) → List Setting → Option FileWriter
unfolding apply
new mkdir settings =
    let w = foldl apply starting settings in if mkdir w.file_path then some w else none

-- What the clock and the file operations of one rotation return: the time in the layout of the
-- file name, and for each operation whether it succeeds; a copy that fails leaves the given lines.
pub record Rotate : Type 0 where
  pub format : String → String
  pub create_ok : Bool
  pub header_ok : Bool
  pub seek_ok : Bool
  pub output_ok : Bool
  pub copy_err : Option (List String)

-- The first line of every file
abbrev pub header : String
header = "#PBTC Log Version 1"

abbrev pub content : Option (List String) → List String
content none = []
content (some lines) = lines

-- A write at the end of a file
unfoldable pub write : String → String → Disk → Disk
write name line disk = Assoc.insert name (content (Assoc.lookup name disk) ++ line ∷ []) disk

abbrev pub output_name : String → String
output_name name = str_append name ".out"

-- compressLog, of the open file
unfoldable pub compress_log : Compressor → Rotate → String → Disk → Disk
compress_log comp io old disk =
    let out = output_name old in
    let created = Assoc.insert out [] disk in
    let all = comp.compress (content (Assoc.lookup old created)) in
    let copied = Assoc.insert out (elim io.copy_err [ none ↦ all | some left ↦ left ]) created in
    if io.seek_ok
    then (if io.output_ok then (if comp.get_writer out then copied else created) else disk)
    else disk

-- The name of the next file
unfoldable pub next_name : FileWriter → Rotate → String
next_name w io =
    str_append (str_append (str_append w.file_path w.file_prefix) (io.format w.file_name))
      w.file_suffix

-- rotateLog
unfoldable pub rotate_log : Rotate → FileWriter → Disk → FileWriter × Disk
unfolding write compress_log next_name
rotate_log io w disk =
    let name = next_name w io in
    let truncated = Assoc.insert name [] disk in
    let started = write name header truncated in
    let compressed : Disk = elim w.file [
      | none ↦ started
      | some old ↦ compress_log w.comp io old started
    ] in
    if io.create_ok
    then (if io.header_ok then (record w { file = some name }, compressed) else (w, truncated))
    else (w, disk)

-- Start; the ticker panics if the age limit is not positive.
unfoldable pub start : Rotate → FileWriter → Disk → Option (FileWriter × Disk)
unfolding rotate_log
start io w disk = if is_positive w.file_agelimit then some (rotate_log io w disk) else none

-- checkTime
unfoldable pub check_time : Rotate → FileWriter → Disk → FileWriter × Disk
unfolding rotate_log
check_time io w disk = if is_zero w.file_agelimit then (w, disk) else rotate_log io w disk

-- A size, which is not negative, against a limit
abbrev pub below : ℕ → ℤ → Bool
below size (pos limit) = ltb size limit
below size (negsuc limit) = false

-- checkSize, which nothing calls; `none` is its panic for a file without a status, whose size is
-- given otherwise.
unfoldable pub check_size : Option ℕ → Rotate → FileWriter → Disk → Option (FileWriter × Disk)
unfolding rotate_log
check_size stat io w disk = if is_zero w.file_sizelimit then some (w, disk) else elim stat [
  | none ↦ none
  | some size ↦ some (if below size w.file_sizelimit then (w, disk) else rotate_log io w disk)
]

-- What the select of goProcess receives: the text of a record, with whether its write succeeds, and
-- a tick.
pub data Event : Type 0 where
  text : String → Bool → Event
  tick : Rotate → Event

-- One round of goProcess. A write without an open file fails and is logged.
unfoldable pub step : FileWriter → Disk → Event → FileWriter × Disk
unfolding write check_time
step w disk (text txt ok) = elim w.file [
  | none ↦ (w, disk)
  | some name ↦ (w, if ok then write name txt disk else disk)
]
step w disk (tick io) = check_time io w disk

-- goProcess over the events that it receives before the signal
unfoldable pub run : FileWriter → Disk → List Event → FileWriter × Disk
unfolding step
run w disk [] = (w, disk)
run w disk (e ∷ es) = let (w', disk') = step w disk e in run w' disk' es
