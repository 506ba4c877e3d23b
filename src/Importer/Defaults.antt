-- ===== src/Importer/Defaults.antt =====
-- What the importer makes of the files that the file writer of processor/ writes.
use mathlib.Core.List.{foldl}
use passive_bitcoin.Prelude.{
  String, Bool, true, false, ◌≡◌, refl, sym, ap, ◌∙◌, some, some-injective, List, [], ◌∷◌, All, map,
  str_append, Bool-cases, inl, inr, subst,
}
use text.Mathlib.TextLemmas.{append_assoc, append_cancel_left}
use passive_bitcoin.Importer.{Lines, LogFile, Refusal, no_log_file, process, process_all, main}
use passive_bitcoin.Processor.FileWriter
use passive_bitcoin.Processor.FileWriter.{FileWriter, Rotate, next_name}

-- An option that leaves the suffix alone
abbrev pub KeepsSuffix : FileWriter.Setting → Type 0
KeepsSuffix (FileWriter.set_file_suffix suffix) = ⊥
KeepsSuffix _ = Unit

suffix-apply :
    (settings : List FileWriter.Setting) (w : FileWriter)
    → All KeepsSuffix settings
    → (foldl FileWriter.apply w settings).file_suffix ≡ w.file_suffix
unfolding FileWriter.apply
suffix-apply [] w all = refl
suffix-apply (FileWriter.set_file_suffix s ∷ rest) w all = absurd (all.0)
suffix-apply (FileWriter.set_file_compressor c ∷ rest) w all = suffix-apply rest _ all.1
suffix-apply (FileWriter.set_file_path s ∷ rest) w all = suffix-apply rest _ all.1
suffix-apply (FileWriter.set_file_prefix s ∷ rest) w all = suffix-apply rest _ all.1
suffix-apply (FileWriter.set_file_name s ∷ rest) w all = suffix-apply rest _ all.1
suffix-apply (FileWriter.set_file_sizelimit n ∷ rest) w all = suffix-apply rest _ all.1
suffix-apply (FileWriter.set_file_agelimit n ∷ rest) w all = suffix-apply rest _ all.1

suffix-new :
    (mkdir : String → Bool) (settings : List FileWriter.Setting) (w : FileWriter)
    → FileWriter.new mkdir settings ≡ some w
    → All KeepsSuffix settings
    → w.file_suffix ≡ ".log"
unfolding FileWriter.new
suffix-new mkdir settings w e all =
    let built = foldl FileWriter.apply FileWriter.starting settings in
    elim (Bool-cases (mkdir built.file_path)) [
      | inl made ↦
          subst (λ v. v.file_suffix ≡ ".log") (some-injective built w (rw made at e))
            (suffix-apply settings FileWriter.starting all)
      | inr failed ↦ absurd (cc (rw failed at e))
    ]

-- A file of the folder whose path is a name that the writer makes for some time
abbrev pub IsWritten : FileWriter → LogFile → Type 0
IsWritten w file =
    (file.is_dir ≡ false) × (rot : Rotate) × (next_name w rot ≡ str_append w.file_path file.name)

-- The name of such a file, without the folder
name_of :
    (w : FileWriter) (rot : Rotate) (name : String)
    → next_name w rot ≡ str_append w.file_path name
    → name ≡ str_append (str_append w.file_prefix (rot.format w.file_name)) w.file_suffix
unfolding next_name
name_of w rot name e =
    let stamp = rot.format w.file_name in
    append_cancel_left w.file_path name (str_append (str_append w.file_prefix stamp) w.file_suffix)
      (sym e
        ∙ ap (λ s. str_append s w.file_suffix) (append_assoc w.file_path w.file_prefix stamp)
        ∙ append_assoc w.file_path (str_append w.file_prefix stamp) w.file_suffix)

-- path.Ext, of a text that ends in ".log"
abbrev pub HasExt : Lines → Type 0
HasExt io = (s : String) → io.ext (str_append s ".log") ≡ ".log"

refused :
    (io : Lines) (w : FileWriter) (file : LogFile)
    → HasExt io
    → w.file_suffix ≡ ".log"
    → IsWritten w file
    → process io file ≡ (some no_log_file, [])
unfolding process
refused io w file ext suffix (plain, rot, e) =
    let named =
      name_of w rot file.name e
      ∙ ap (λ s. str_append (str_append w.file_prefix (rot.format w.file_name)) s) suffix in
    let ends : io.ext file.name ≡ ".log" =
      ap io.ext named ∙ ext (str_append w.file_prefix (rot.format w.file_name)) in
    rw (plain, ends) refl

-- One error for each file
abbrev pub each_refused : List LogFile → List Refusal
each_refused files = map (λ file. no_log_file) files

all_refused :
    (io : Lines) (w : FileWriter) (files : List LogFile)
    → HasExt io
    → w.file_suffix ≡ ".log"
    → All (IsWritten w) files
    → process_all io files ≡ record { code = 0; errors = each_refused files; inserted = [] }
unfolding process_all
all_refused io w [] ext suffix all = refl
all_refused io w (file ∷ files) ext suffix all =
    rw (refused io w file ext suffix all.0, all_refused io w files ext suffix all.1) refl

-- If the folder holds files that a file writer has named whose options do not set the suffix,
-- the importer refuses every one of them, since its suffix is not the one that the importer takes,
-- and inserts no line; it exits with 0 all the same. The text ".log" is assumed to be the extension of a text that ends in it.
pub main-refuses_defaults :
    (io : Lines) (mkdir : String → Bool) (settings : List FileWriter.Setting) (w : FileWriter)
    (files : List LogFile)
    → HasExt io
    → FileWriter.new mkdir settings ≡ some w
    → All KeepsSuffix settings
    → All (IsWritten w) files
    → main io (record { session_ok = true; listing = some files })
      ≡ record { code = 0; errors = each_refused files; inserted = [] }
unfolding main
main-refuses_defaults io mkdir settings w files ext made kept written =
    all_refused io w files ext (suffix-new mkdir settings w made kept) written
