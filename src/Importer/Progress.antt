-- ===== src/Importer/Progress.antt =====
-- What an import inserts.
use passive_bitcoin.Prelude.{
  ◌≡◌, refl, true, false, Bool-cases, Option, none, some, List, [], ◌∷◌, str_eq, inl, inr,
}
use passive_bitcoin.Text.{Bytes}
use passive_bitcoin.Importer.{
  Handle, Lines, LogFile, log_header, insert_all, check_header, read_opened, process, rewind,
  copy_all,
}

header-inserts :
    (io : Lines) (file : LogFile) (f : Handle) (lines : List Bytes)
    → io.scan_lines [] ≡ []
    → (check_header io file f lines).1 ≡ []
unfolding check_header copy_all rewind insert_all
header-inserts io file f [] empty = refl
header-inserts io file f (line ∷ lines) empty =
    elim (Bool-cases (str_eq (io.line_text line) log_header)) [
      | inr other ↦ rw other refl
      | inl same ↦ elim (Bool-cases file.seek_ok) [
        | inr failed ↦ rw (same, failed) refl
        | inl sought ↦ elim (Bool-cases file.copy_ok) [
          | inr failed ↦ rw (same, sought, failed) refl
          | inl copied ↦ rw (same, sought, copied, empty) refl
        ]
      ]
    ]

opened-inserts :
    (io : Lines) (file : LogFile) (o : Option Bytes)
    → io.scan_lines [] ≡ []
    → (read_opened io file o).1 ≡ []
opened-inserts io file none empty = refl
opened-inserts io file (some content) empty =
    header-inserts io file (record { content = content; rest = content }) (io.scan_lines content)
      empty

inserts : (io : Lines) (file : LogFile) → io.scan_lines [] ≡ [] → (process io file).1 ≡ []
unfolding process
inserts io file empty = elim (Bool-cases file.is_dir) [
  | inl dir ↦ rw dir refl
  | inr plain ↦ elim (Bool-cases (str_eq (io.ext file.name) ".txt")) [
    | inr other ↦ rw (plain, other) refl
    | inl log ↦ rw (plain, log) (opened-inserts io file file.opened empty)
  ]
]

-- A log file that can be read, whose first line is the header
pub record IsLog (io : Lines) (file : LogFile) : Type 0 where
  pub content : Bytes
  pub line : Bytes
  pub lines : List Bytes
  pub plain : file.is_dir ≡ false
  pub named : str_eq (io.ext file.name) ".txt" ≡ true
  pub readable : file.opened ≡ some content
  pub scanned : io.scan_lines content ≡ line ∷ lines
  pub headed : str_eq (io.line_text line) log_header ≡ true
  pub sought : file.seek_ok ≡ true
  pub hashed : file.copy_ok ≡ true

-- If a scanner gets no line of an empty input, process inserts no line of any file: hashing has read
-- the file to its end before the lines are scanned. Of a log file that can be read and whose first
-- line is the header it reports no error either.
pub process-inserts_nothing :
    (io : Lines) (file : LogFile)
    → io.scan_lines [] ≡ []
    → ((process io file).1 ≡ []) × (IsLog io file → (process io file).0 ≡ none)
unfolding process check_header
process-inserts_nothing io file empty = (
  inserts io file empty,
  λ log.
      rw (log.plain, log.named, log.readable, log.scanned, log.headed, log.sought, log.hashed) refl,
)
