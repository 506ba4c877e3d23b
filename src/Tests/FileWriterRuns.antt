-- ===== src/Tests/FileWriterRuns.antt =====
-- Runs of the file writer of processor/writer_file.go.
use passive_bitcoin.Prelude.{
  String, some, none, [], ◌∷◌, ◌++◌, ◌≡◌, refl, true, false, str_eq, eq_iff, ◌≢◌,
}
use passive_bitcoin.Assoc
use passive_bitcoin.Text.{pos}
use passive_bitcoin.Processor.FileWriter.{
  FileWriter, Disk, Rotate, dummy_compressor, tick, header, content, output_name, next_name, run,
}
use passive_bitcoin.Processor.FileWriter.Rotation.{Succeeds, texts, run-rotation, run-same_name}

abbrev writer : FileWriter
writer = record {
  comp = dummy_compressor;
  file = some "logs/old.log";
  file_path = "logs/";
  file_prefix = "";
  file_name = "2006-01-02";
  file_suffix = ".log";
  file_sizelimit = pos 1;
  file_agelimit = pos 1;
}

abbrev disk : Disk
disk = ("logs/old.log", header ∷ []) ∷ []

-- Rotations at which everything succeeds, at two times.
abbrev at_new : Rotate
at_new = record {
  format = λ layout. "new";
  create_ok = true;
  header_ok = true;
  seek_ok = true;
  output_ok = true;
  copy_err = none;
}

abbrev at_old : Rotate
at_old = record at_new { format = λ layout. "old" }

at_new-Succeeds : Succeeds writer "logs/old.log" at_new
at_new-Succeeds = record {
  limited = λ e. cc;
  created = refl;
  started = refl;
  sought = refl;
  output = refl;
  copied = refl;
  writer = refl;
}

at_old-Succeeds : Succeeds writer "logs/old.log" at_old
at_old-Succeeds = record {
  limited = λ e. cc;
  created = refl;
  started = refl;
  sought = refl;
  output = refl;
  copied = refl;
  writer = refl;
}

apart : (s t : String) → str_eq s t ≡ false → s ≢ t
apart s t f e = cc ((eq_iff s t).1 e, f)

run-rotation_example :
    let after = (run writer disk (texts ("a" ∷ []) ++ tick at_new ∷ texts ("b" ∷ []))).1 in
    (content (Assoc.lookup "logs/old.log" after)
      ≡ content (Assoc.lookup "logs/old.log" disk) ++ "a" ∷ [])
    × (content (Assoc.lookup (output_name "logs/old.log") after)
        ≡ content (Assoc.lookup "logs/old.log" disk) ++ "a" ∷ [])
    × (content (Assoc.lookup (next_name writer at_new) after) ≡ header ∷ "b" ∷ [])
unfolding next_name
run-rotation_example =
    run-rotation writer "logs/old.log" at_new disk ("a" ∷ []) ("b" ∷ []) at_new-Succeeds refl
      (apart "logs/new.log" "logs/old.log" refl) (apart "logs/new.log" "logs/old.log.out" refl)
      (apart "logs/old.log.out" "logs/old.log" refl)

run-same_name_example :
    content (
      Assoc.lookup
        (next_name writer at_old)
        (run writer disk (texts ("a" ∷ []) ++ tick at_old ∷ texts ("b" ∷ []))).1)
    ≡ header ∷ "b" ∷ []
unfolding next_name
run-same_name_example =
    run-same_name writer at_old disk ("a" ∷ []) ("b" ∷ []) at_old-Succeeds refl
      (apart "logs/old.log.out" "logs/old.log" refl)
