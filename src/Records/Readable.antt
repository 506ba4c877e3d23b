-- ===== src/Records/Readable.antt =====
-- When the fields of a record can be read back from its text.
use passive_bitcoin.Prelude.{
  ℕ, ◌≡◌, ◌≢◌, refl, ap, ◌∙◌, List, [], ◌∷◌, map, All, All-append, All-map, All-weaken, arith,
}
use passive_bitcoin.Text.{Bytes, each_after, join}
use passive_bitcoin.Text.Fields.{split, Without, split-join}
use passive_bitcoin.Text.Codes.{IsPlain, IsPlain-Without_bar, IsPlain-Without_comma}
use passive_bitcoin.Records.{bar}
use passive_bitcoin.Records.Fields.{Parts, render}

-- A reader of the texts: split at the commas, and each part at the bars.
unfoldable pub read : Bytes → Parts
read line = map (split b'|') (split b',' line)

-- A part with one field at least, and no delimiter in a field
pub record IsPart (part : List Bytes) : Type 0 where
  pub plain : All IsPlain part
  pub some_field : part ≢ []

each_after-Without :
    (d c : ℕ) (xs : List Bytes) → c ≢ d → All (Without d) xs → Without d (each_after (c ∷ []) xs)
each_after-Without d c [] ne h = tt
each_after-Without d c (x ∷ xs) ne h =
    (ne, All-append (λ b. b ≢ d) x _ h.0 (each_after-Without d c xs ne h.1))

join-Without :
    (d c : ℕ) (xs : List Bytes) → c ≢ d → All (Without d) xs → Without d (join (c ∷ []) xs)
join-Without d c [] ne h = tt
join-Without d c (x ∷ xs) ne h = All-append (λ b. b ≢ d) x _ h.0 (each_after-Without d c xs ne h.1)

split-part : (part : List Bytes) → IsPart part → split b'|' (join bar part) ≡ part
split-part [] p = absurd (p.some_field refl)
split-part (x ∷ xs) p =
    split-join b'|' x xs (All-weaken IsPlain (Without b'|') (x ∷ xs) IsPlain-Without_bar p.plain)

split-parts : (parts : Parts) → All IsPart parts → map (split b'|') (map (join bar) parts) ≡ parts
split-parts [] h = refl
split-parts (p ∷ ps) h = rw (split-part p h.0, split-parts ps h.1)

-- Reading gives back the parts that were written.
pub read-render : (parts : Parts) → parts ≢ [] → All IsPart parts → read (render parts) ≡ parts
unfolding read render
read-render [] some_part h = absurd (some_part refl)
read-render (part ∷ parts) some_part h =
    let one = λ (p : List Bytes) (q : IsPart p).
      join-Without b',' b'|' p (λ e. omega (arith, e))
        (All-weaken IsPlain (Without b',') p IsPlain-Without_comma q.plain) in
    let commas = All-map IsPart (Without b',') (join bar) (part ∷ parts) one h in
    ap (map (split b'|')) (split-join b',' (join bar part) (map (join bar) parts) commas)
    ∙ split-parts (part ∷ parts) h
