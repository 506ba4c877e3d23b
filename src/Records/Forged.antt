-- ===== src/Records/Forged.antt =====
-- The lines of the records in a log file, and what a peer can write there with the texts it chooses.
use mathlib.Core.List.{append-nil, append_assoc}
use passive_bitcoin.Prelude.{◌≡◌, ap, ◌∙◌, List, [], ◌∷◌, ◌++◌}
use passive_bitcoin.Net.{TcpAddr, Time}
use passive_bitcoin.Text.{Bytes, join}
use passive_bitcoin.Text.Fields.{later_parts}
use passive_bitcoin.Records.{Texts, Script, bar}
use passive_bitcoin.Records.Full.{MsgVersion, new_version_record, version_text, version_fields}
use passive_bitcoin.Records.Kinds
use passive_bitcoin.Records.Kinds.{MessageRecord, text}
use passive_bitcoin.Records.Rendered.{each_after-append}

abbrev pub newline : Bytes
newline = b'\n' ∷ []

-- What the file writer writes for a record: its text and the end of the line
unfoldable pub line : {A : Type 0} → Texts → Script A → MessageRecord A → Bytes
line t s r = text t s r ++ newline

-- A text at the end of the last field
join-longer :
    (x : Bytes) (xs : List Bytes) (last rest : Bytes)
    → join bar ((x ∷ xs) ++ (last ++ rest) ∷ []) ≡ join bar ((x ∷ xs) ++ last ∷ []) ++ rest
join-longer x xs last rest =
    rw (each_after-append bar xs ((last ++ rest) ∷ []), each_after-append bar xs (last ∷ []))
      (simp (append_assoc, append-nil))

two-lines : (x y : Bytes) → (x ++ (newline ++ y)) ++ newline ≡ (x ++ newline) ++ (y ++ newline)
two-lines x y = simp append_assoc

module _ {A : Type 0} (t : Texts) (s : Script A) (now : Time) (cmd : Bytes) (ra la : TcpAddr) where
  abbrev pub version_line : MsgVersion → Bytes
  version_line m = line t s (Kinds.version_record (new_version_record now cmd ra la m))

  -- A peer whose user agent goes on, after an end of a line, with the text of any record makes the
  -- line of its version message two lines: that of the agent before, and that of the other record.
  pub version_line-forged :
      (m : MsgVersion) (agent : Bytes) (forged : MessageRecord A)
      → version_line (record m { user_agent = agent ++ (newline ++ text t s forged) })
        ≡ version_line (record m { user_agent = agent }) ++ line t s forged
  unfolding line text new_version_record version_text
  version_line-forged m agent forged =
      let front = later_parts (version_fields t (new_version_record now cmd ra la m)) in
      let first = join bar ((t.format now ∷ front) ++ agent ∷ []) in
      let joined : version_line (record m { user_agent = agent ++ (newline ++ text t s forged) })
          ≡ (first ++ (newline ++ text t s forged)) ++ newline =
        ap (λ l. l ++ newline)
          (join-longer (t.format now) front agent (newline ++ text t s forged)) in
      joined ∙ two-lines first (text t s forged)
