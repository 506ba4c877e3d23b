-- ===== src/Processor/FileWriter/Rotation.antt =====
-- Where the texts that a file writer of processor/writer_file.go gets end up when files rotate.
use passive_bitcoin.Prelude.{
  String, true, some, none, List, [], ◌∷◌, ◌++◌, ◌≡◌, ◌≢◌, refl, sym, ap, ◌∙◌, arith, str_eq,
  eq_iff, if◌then◌else◌, map,
}
use mathlib.Core.List.{append_assoc, append-nil}
use package.text.Mathlib.TextPositions.{eq_refl}
use passive_bitcoin.Assoc
use passive_bitcoin.Assoc.{lookup-insert}
use passive_bitcoin.Processor.FileWriter.{
  Disk, FileWriter, Rotate, Event, text, tick, header, content, write, output_name, compress_log,
  next_name, rotate_log, check_time, step, run, pos,
}

-- Texts that are all written
abbrev pub texts : List String → List Event
texts xs = map (λ x. text x true) xs

lookup-write :
    (name j line : String) (disk : Disk)
    → Assoc.lookup j (write name line disk) ≡ (
        if str_eq name j
        then some (content (Assoc.lookup name disk) ++ line ∷ [])
        else Assoc.lookup j disk)
unfolding write
lookup-write name j line disk =
    lookup-insert name j (content (Assoc.lookup name disk) ++ line ∷ []) disk

step-text :
    (w : FileWriter) (name x : String) (disk : Disk)
    → w.file ≡ some name
    → step w disk (text x true) ≡ (w, write name x disk)
unfolding step
step-text w name x disk open_ = ground arith

-- Texts go to the end of the open file, in order, before what comes after them.
run-texts :
    (w : FileWriter) (name : String) (disk : Disk) (xs : List String) (es : List Event)
    → w.file ≡ some name
    → (after : Disk) × (run w disk (texts xs ++ es) ≡ run w after es)
      × (content (Assoc.lookup name after) ≡ content (Assoc.lookup name disk) ++ xs)
      × ((j : String) → j ≢ name → Assoc.lookup j after ≡ Assoc.lookup j disk)
unfolding run
run-texts w name disk [] es open_ = (disk, refl, sym (append-nil _), λ j ne. refl)
run-texts w name disk (x ∷ xs) es open_ =
    let (after, ran, there, others) = run-texts w name (write name x disk) xs es open_ in
    (
      after,
      ap (λ (p : FileWriter × Disk). run p.0 p.1 (texts xs ++ es)) (step-text w name x disk open_)
          ∙ ran,
      there
          ∙ ap (λ o. content o ++ xs) (rw eq_refl at (lookup-write name name x disk))
          ∙ append_assoc (content (Assoc.lookup name disk)) (x ∷ []) xs,
      λ j ne. others j ne ∙ ground (arith, lookup-write name j x disk, eq_iff name j),
    )

-- Everything that a rotation does with its files succeeds.
pub record Succeeds (w : FileWriter) (old : String) (io : Rotate) : Type 0 where
  pub limited : w.file_agelimit ≢ pos 0
  pub created : io.create_ok ≡ true
  pub started : io.header_ok ≡ true
  pub sought : io.seek_ok ≡ true
  pub output : io.output_ok ≡ true
  pub copied : io.copy_err ≡ none
  pub writer : w.comp.get_writer (output_name old) ≡ true

-- The new file, and then the compressed copy of the old one.
abbrev started_disk : FileWriter → Rotate → Disk → Disk
started_disk w io disk = write (next_name w io) header (Assoc.insert (next_name w io) [] disk)

abbrev copied_disk : FileWriter → String → Disk → Disk
copied_disk w old disk =
    let out = output_name old in
    let created = Assoc.insert out [] disk in
    Assoc.insert out (w.comp.compress (content (Assoc.lookup old created))) created

compress_log_ok :
    (w : FileWriter) (old : String) (io : Rotate) (disk : Disk)
    → Succeeds w old io
    → compress_log w.comp io old disk ≡ copied_disk w old disk
unfolding compress_log
compress_log_ok w old io disk s = ground (arith, s.sought, s.output, s.copied, s.writer)

rotate_ok :
    (w : FileWriter) (old : String) (io : Rotate) (disk : Disk)
    → Succeeds w old io
    → w.file ≡ some old
    → step w disk (tick io)
      ≡ (record w { file = some (next_name w io) }, copied_disk w old (started_disk w io disk))
unfolding step check_time rotate_log
rotate_ok w old io disk s open_ =
    ground
      (arith, s.limited, s.created, s.started, compress_log_ok w old io (started_disk w io disk) s)

lookup-started :
    (w : FileWriter) (io : Rotate) (disk : Disk) (j : String)
    → Assoc.lookup j (started_disk w io disk)
      ≡ (if str_eq (next_name w io) j then some (header ∷ []) else Assoc.lookup j disk)
lookup-started w io disk j =
    let n = next_name w io in
    ground (
      arith,
      lookup-write n j header (Assoc.insert n [] disk),
      lookup-insert n n [] disk,
      lookup-insert n j [] disk,
      eq_iff n n,
    )

lookup-copied :
    (w : FileWriter) (old j : String) (disk : Disk)
    → output_name old ≢ old
    → Assoc.lookup j (copied_disk w old disk) ≡ (
        if str_eq (output_name old) j
        then some (w.comp.compress (content (Assoc.lookup old disk)))
        else Assoc.lookup j disk)
lookup-copied w old j disk ne =
    let out = output_name old in
    let kept : Assoc.lookup old (Assoc.insert out [] disk) ≡ Assoc.lookup old disk =
      ground (arith, lookup-insert out old [] disk, eq_iff out old, ne) in
    rw kept (
      ground (
        arith,
        lookup-insert out j (w.comp.compress (content (Assoc.lookup old disk)))
            (Assoc.insert out [] disk),
        lookup-insert out j [] disk,
      ))

-- The disk before the rotation, and what the later texts leave of the disk after it.
run-rotated :
    (w : FileWriter) (old : String) (io : Rotate) (disk : Disk) (xs ys : List String)
    → Succeeds w old io
    → w.file ≡ some old
    → (before after : Disk) × (content (Assoc.lookup old before)
        ≡ content (Assoc.lookup old disk) ++ xs)
      × ((run w disk (texts xs ++ tick io ∷ texts ys)).1 ≡ after)
      × (content (Assoc.lookup (next_name w io) after)
          ≡ content (Assoc.lookup (next_name w io) (copied_disk w old (started_disk w io before)))
            ++ ys)
      × ((j : String)
          → j ≢ next_name w io
          → Assoc.lookup j after ≡ Assoc.lookup j (copied_disk w old (started_disk w io before)))
unfolding run
run-rotated w old io disk xs ys s open_ =
    let (before, ran, there, others) = run-texts w old disk xs (tick io ∷ texts ys) open_ in
    let w' : FileWriter = record w { file = some (next_name w io) } in
    let middle = copied_disk w old (started_disk w io before) in
    let (after, ran', there', others') = run-texts w' (next_name w io) middle ys [] refl in
    let turned =
      ap (λ (p : FileWriter × Disk). run p.0 p.1 (texts ys)) (rotate_ok w old io before s open_) in
    let whole = ap (λ es. run w' middle es) (append-nil (texts ys)) in
    (
      before,
      after,
      there,
      ap (λ (p : FileWriter × Disk). p.1) (ran ∙ turned ∙ sym whole ∙ ran'),
      there',
      others',
    )

-- Texts, a rotation that succeeds, and texts again: if the new file, the old one and its compressed
-- copy have three names, no text is lost or doubled or out of order. The old file holds the texts
-- before the rotation, its copy the same compressed, and the new file the header and the later texts.
pub run-rotation :
    (w : FileWriter) (old : String) (io : Rotate) (disk : Disk) (xs ys : List String)
    → Succeeds w old io
    → w.file ≡ some old
    → next_name w io ≢ old
    → next_name w io ≢ output_name old
    → output_name old ≢ old
    → let after = (run w disk (texts xs ++ tick io ∷ texts ys)).1 in
      (content (Assoc.lookup old after) ≡ content (Assoc.lookup old disk) ++ xs)
      × (content (Assoc.lookup (output_name old) after)
          ≡ w.comp.compress (content (Assoc.lookup old disk) ++ xs))
      × (content (Assoc.lookup (next_name w io) after) ≡ header ∷ ys)
run-rotation w old io disk xs ys s open_ n1 n2 n3 =
    let (before, after, there, ran, new, others) = run-rotated w old io disk xs ys s open_ in
    let n = next_name w io in
    let out = output_name old in
    let mid = started_disk w io before in
    let at = λ (j : String). lookup-copied w old j mid n3 in
    let at' = λ (j : String). lookup-started w io before j in
    let old_kept : Assoc.lookup old mid ≡ Assoc.lookup old before =
      ground (arith, at' old, eq_iff n old, n1) in
    let old_last : Assoc.lookup old after ≡ Assoc.lookup old before =
      others old (λ e. n1 (sym e)) ∙ ground (arith, at old, old_kept, eq_iff out old, n3) in
    let out_last : Assoc.lookup out after
        ≡ some (w.comp.compress (content (Assoc.lookup old mid))) =
      others out (λ e. n2 (sym e)) ∙ ground (arith, at out, eq_iff out out) in
    let new_first : Assoc.lookup n (copied_disk w old mid) ≡ some (header ∷ []) =
      ground (arith, at n, at' n, eq_iff out n, eq_iff n n, n2) in
    let lines = ap content old_kept ∙ there in
    (
      ap content (ap (Assoc.lookup old) ran ∙ old_last) ∙ there,
      ap content (ap (Assoc.lookup out) ran ∙ out_last) ∙ ap w.comp.compress lines,
      ap (λ d. content (Assoc.lookup n d)) ran ∙ new ∙ ap (λ o. content o ++ ys) new_first,
    )

-- A rotation to the name of the open file loses what the file held: after texts, a rotation within
-- the same time stamp and texts again, the file holds the header and the later texts only.
pub run-same_name :
    (w : FileWriter) (io : Rotate) (disk : Disk) (xs ys : List String)
    → Succeeds w (next_name w io) io
    → w.file ≡ some (next_name w io)
    → output_name (next_name w io) ≢ next_name w io
    → content (Assoc.lookup (next_name w io) (run w disk (texts xs ++ tick io ∷ texts ys)).1)
      ≡ header ∷ ys
run-same_name w io disk xs ys s open_ n3 =
    let n = next_name w io in
    let (before, after, there, ran, new, others) = run-rotated w n io disk xs ys s open_ in
    let mid = started_disk w io before in
    let first : Assoc.lookup n (copied_disk w n mid) ≡ some (header ∷ []) = ground (
      arith,
      lookup-copied w n n mid n3,
      lookup-started w io before n,
      eq_iff (output_name n) n,
      eq_iff n n,
      n3,
    ) in
    ap (λ d. content (Assoc.lookup n d)) ran ∙ new ∙ ap (λ o. content o ++ ys) first
