-- ===== src/Processor/FileWriter/Sizes.antt =====
-- What the size limit of a file writer of processor/writer_file.go decides.
use passive_bitcoin.Prelude.{
  String, Bool, ◌≡◌, refl, ap, ◌∙◌, Option, none, some, List, [], ◌∷◌, Bool-cases, inl, inr,
  if◌then◌else◌,
}
use passive_bitcoin.Processor.FileWriter.{
  Disk, FileWriter, Rotate, Event, text, tick, rotate_log, check_time, step, run, write, ℤ, is_zero,
}

-- A writer with another size limit
abbrev pub limited : ℤ → FileWriter × Disk → FileWriter × Disk
limited n (w, disk) = (record w { file_sizelimit = n }, disk)

rotate_log-limited :
    (n : ℤ) (io : Rotate) (w : FileWriter) (disk : Disk)
    → rotate_log io (record w { file_sizelimit = n }) disk ≡ limited n (rotate_log io w disk)
unfolding rotate_log
rotate_log-limited n io w disk = elim (Bool-cases io.create_ok) [
  | inr failed ↦ rw failed refl
  | inl created ↦ elim (Bool-cases io.header_ok) [
    | inr failed ↦ rw (created, failed) refl
    | inl headed ↦ rw (created, headed) refl
  ]
]

-- A text for a file that is open, or not
text-limited :
    (n : ℤ) (w : FileWriter) (disk : Disk) (txt : String) (ok : Bool) (file : Option String)
    → Path
        (FileWriter × Disk)
        (elim file [
          | none ↦ (record w { file_sizelimit = n }, disk)
          | some name ↦ (record w { file_sizelimit = n }, if ok then write name txt disk else disk)
        ])
        (limited n (elim file [
          | none ↦ (w, disk)
          | some name ↦ (w, if ok then write name txt disk else disk)
        ]))
text-limited n w disk txt ok none = refl
text-limited n w disk txt ok (some name) = refl

step-limited :
    (n : ℤ) (w : FileWriter) (disk : Disk) (e : Event)
    → step (record w { file_sizelimit = n }) disk e ≡ limited n (step w disk e)
unfolding step check_time
step-limited n w disk (text txt ok) = text-limited n w disk txt ok w.file
step-limited n w disk (tick io) = elim (Bool-cases (is_zero w.file_agelimit)) [
  | inl unlimited ↦ rw unlimited refl
  | inr on ↦ rw on (rotate_log-limited n io w disk)
]

-- The size limit decides nothing: whatever a file writer receives, it writes the same files under any
-- size limit.
run-limited :
    (n : ℤ) (w : FileWriter) (disk : Disk) (es : List Event)
    → (run (record w { file_sizelimit = n }) disk es).1 ≡ (run w disk es).1
unfolding run
run-limited n w disk [] = refl
run-limited n w disk (e ∷ es) =
    ap (λ (p : FileWriter × Disk). (run p.0 p.1 es).1) (step-limited n w disk e)
    ∙ run-limited n (step w disk e).0 (step w disk e).1 es
