-- ===== src/Text/Fields.antt =====
-- What is read back of a text by splitting it at a delimiter.
use mathlib.Core.List.{append-nil}
use passive_bitcoin.Prelude.{
  ℕ, ◌≡◌, ◌≢◌, refl, ap, ◌∙◌, List, [], ◌∷◌, ◌++◌, ◌==◌, arith, if◌then◌else◌, All,
}
use passive_bitcoin.Text.{Bytes, each_after, join}

-- The part before the first delimiter, and the rest split at every further one.
abbrev pub first_part : List Bytes → Bytes
first_part [] = []
first_part (p ∷ ps) = p

abbrev pub later_parts : List Bytes → List Bytes
later_parts [] = []
later_parts (p ∷ ps) = ps

-- A text split at a byte, as bytes.Split does: there is one part more than there are delimiters.
unfoldable pub split : ℕ → Bytes → List Bytes
split d [] = [] ∷ []
split d (c ∷ cs) =
    let rest = split d cs in if c == d then [] ∷ rest else (c ∷ first_part rest) ∷ later_parts rest

-- The byte does not stand in the text.
abbrev pub Without : ℕ → Bytes → Type 0
Without d = All (λ c. c ≢ d)

split-Without : (d : ℕ) (x : Bytes) → Without d x → split d x ≡ x ∷ []
unfolding split
split-Without d [] h = refl
split-Without d (c ∷ cs) h = ground (arith, split-Without d cs h.1, h.0)

split-append : (d : ℕ) (x rest : Bytes) → Without d x → split d (x ++ (d ∷ rest)) ≡ x ∷ split d rest
unfolding split
split-append d [] rest h = ground arith
split-append d (c ∷ cs) rest h = ground (arith, split-append d cs rest h.1, h.0)

split-each_after :
    (d : ℕ) (x : Bytes) (xs : List Bytes)
    → Without d x
    → All (Without d) xs
    → split d (x ++ each_after (d ∷ []) xs) ≡ x ∷ xs
split-each_after d x [] h hs = ap (split d) (append-nil x) ∙ split-Without d x h
split-each_after d x (y ∷ ys) h hs =
    split-append d x (y ++ each_after (d ∷ []) ys) h
    ∙ ap (λ t. x ∷ t) (split-each_after d y ys hs.0 hs.1)

-- Splitting gives back the parts, if there is one at least and the delimiter stands in none.
pub split-join :
    (d : ℕ) (x : Bytes) (xs : List Bytes)
    → All (Without d) (x ∷ xs)
    → split d (join (d ∷ []) (x ∷ xs)) ≡ x ∷ xs
split-join d x xs h = split-each_after d x xs h.0 h.1
