-- ===== src/Records/Published.antt =====
-- What a reader of the lines that a writer published gets back.
use passive_bitcoin.Prelude.{◌≡◌, refl, ap, ◌∙◌, true, List, [], ◌∷◌, ◌++◌, map, All}
use passive_bitcoin.Text.{Bytes}
use passive_bitcoin.Processor.Sinks.{Event, line, sig_closed, published}
use passive_bitcoin.Records.{Texts, Script}
use passive_bitcoin.Records.Kinds.{MessageRecord, text}
use passive_bitcoin.Records.Fields.{fields}
use passive_bitcoin.Records.Readable.{read}
use passive_bitcoin.Records.Plain.{PlainTexts, IsReadable}
use passive_bitcoin.Records.ReadBack.{read-text}

module _ {A : Type 0} (t : Texts) (s : Script A) where
  -- What Process puts in the queue for a record, and the server takes.
  abbrev pub sent : List (MessageRecord A) → List (Event Bytes)
  sent rs = map (λ r. line (text t s r) true) rs

  -- A writer whose server takes every line, and which is stopped after some readable records, has
  -- published lines from which a reader gets back the fields of all these records, in order, and
  -- nothing of what was queued after the signal.
  read-published :
      PlainTexts t s
      → (rs : List (MessageRecord A)) (later : List (Event Bytes)) → All IsReadable rs
      → map read (published (sent rs ++ sig_closed ∷ later)) ≡ map (fields t s) rs
  unfolding published
  read-published p [] later h = refl
  read-published p (r ∷ rs) later h =
      ap (λ parts. parts ∷ map read (published (sent rs ++ sig_closed ∷ later)))
        (read-text t s p r h.0)
      ∙ ap (λ rest. fields t s r ∷ rest) (read-published p rs later h.1)
