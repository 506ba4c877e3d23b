-- ===== src/Importer.antt =====
-- importer/importer.go: the import of one log file, over an open file as its content and what of it
-- is still to be read, and main over the files of the folder. The proofs are in the modules below.
pub mod Progress
pub mod Defaults
use passive_bitcoin.Prelude.{
  ℕ, String, Bool, true, false, not, ◌&&◌, Option, none, some, List, [], ◌∷◌, ◌++◌, str_eq,
  if◌then◌else◌,
}
use passive_bitcoin.Text.{Bytes}

-- An open file: all of it, and the part after the file pointer
pub record Handle : Type 0 where
  pub content : Bytes
  pub rest : Bytes

-- f.Seek(0, 0)
unfoldable pub rewind : Handle → Handle
rewind f = record f { rest = f.content }

-- io.Copy into the hasher reads to the end.
unfoldable pub copy_all : Handle → Bytes × Handle
copy_all f = (f.rest, record f { rest = [] })

-- What the packages bufio and path are used for: the lines that a scanner gets of what it reads, the
-- text of a line, what is left to read after a first line, and the extension of a name.
pub record Lines : Type 0 where
  pub scan_lines : Bytes → List Bytes
  pub line_text : Bytes → String
  pub buffered : Bytes → Bytes
  pub ext : String → String

-- A file of the folder, and what the file operations return for it
pub record LogFile : Type 0 where
  pub name : String
  pub is_dir : Bool
  pub opened : Option Bytes
  pub seek_ok : Bool
  pub copy_ok : Bool

-- The errors of process, in order
pub data Refusal : Type 0 where
  directory no_log_file not_opened no_first_line unknown_header not_reset not_hashed : Refusal

abbrev pub log_header : String
log_header = "#PBTC Log Version 1"

-- insert, which does nothing yet; a line that is inserted is handed on.
unfoldable pub insert : Bytes → List Bytes → List Bytes
insert line inserted = inserted ++ line ∷ []

-- The loop `for scanner.Scan()`
unfoldable pub insert_all : List Bytes → List Bytes → List Bytes
unfolding insert
insert_all [] inserted = inserted
insert_all (line ∷ lines) inserted = insert_all lines (insert line inserted)

-- The part of process from the header on: the error, `none` for nil, and the lines that were inserted
unfoldable pub check_header : Lines → LogFile → Handle → List Bytes → Option Refusal × List Bytes
unfolding rewind copy_all insert_all
check_header io file f [] = (some no_first_line, [])
check_header io file f (line ∷ lines) =
    let after = record f { rest = io.buffered f.rest } in
    let (fingerprint, hashed) = copy_all (rewind after) in
    if not (str_eq (io.line_text line) log_header)
    then (some unknown_header, [])
    else if not file.seek_ok
    then (some not_reset, [])
    else if not file.copy_ok
    then (some not_hashed, [])
    else (none, insert_all (io.scan_lines hashed.rest) [])

abbrev pub read_opened : Lines → LogFile → Option Bytes → Option Refusal × List Bytes
read_opened io file none = (some not_opened, [])
read_opened io file (some content) =
    check_header io file (record { content = content; rest = content }) (io.scan_lines content)

-- process
unfoldable pub process : Lines → LogFile → Option Refusal × List Bytes
unfolding check_header
process io file =
    if file.is_dir
    then (some directory, [])
    else if not (str_eq (io.ext file.name) ".txt")
    then (some no_log_file, [])
    else read_opened io file file.opened

-- What main finds: whether the database session is made, and the files of the folder, if it can be
-- read
pub record Folder : Type 0 where
  pub session_ok : Bool
  pub listing : Option (List LogFile)

-- What main leaves: the exit code, the errors that it prints, and the lines that were inserted
pub record Report : Type 0 where
  pub code : ℕ
  pub errors : List Refusal
  pub inserted : List Bytes

abbrev pub print : Option Refusal → List Refusal → List Refusal
print none errors = errors
print (some err) errors = err ∷ errors

-- The loop over the files
unfoldable pub process_all : Lines → List LogFile → Report
unfolding process
process_all io [] = record { code = 0; errors = []; inserted = [] }
process_all io (file ∷ files) =
    let (err, inserted) = process io file in
    let rest = process_all io files in
    record rest { errors = print err rest.errors; inserted = inserted ++ rest.inserted }

abbrev pub process_listing : Lines → Option (List LogFile) → Report
process_listing io none = record { code = 1; errors = []; inserted = [] }
process_listing io (some files) = process_all io files

-- main
unfoldable pub main : Lines → Folder → Report
unfolding process_all
main io folder =
    if folder.session_ok
    then process_listing io folder.listing
    else record { code = 1; errors = []; inserted = [] }
