-- ===== src/Text/Numbers.antt =====
-- The decimal forms of numbers, read back.
use passive_bitcoin.Prelude.{
  ℕ, zero, suc, ◌+◌, ◌-◌, ◌*◌, ◌/◌, ◌≤◌, ◌≡◌, ◌≢◌, refl, sym, ap, ◌∙◌, arith, Bool-cases, [], ◌∷◌,
  ltb, All, inl, inr,
}
use passive_bitcoin.Text.{Bytes, digits, reversed, format_uint}

-- The number that decimal digits write, the first one first.
unfoldable pub number : ℕ → Bytes → ℕ
number acc [] = acc
number acc (c ∷ cs) = number (acc * 10 + (c - 48)) cs

abbrev value : Bytes → ℕ
value [] = 0
value (c ∷ cs) = (c - 48) + 10 * value cs

number-reversed : (ds done : Bytes) → number 0 (reversed ds done) ≡ number (value ds) done
unfolding number reversed
number-reversed [] done = refl
number-reversed (c ∷ cs) done =
    number-reversed cs (c ∷ done) ∙ ap (λ n. number n done) (omega arith)

value-digits : (fuel n : ℕ) → n ≤ fuel → value (digits fuel n) ≡ n
unfolding digits
value-digits zero n h = omega arith
value-digits (suc fuel) n h = elim (Bool-cases (ltb n 10)) [
  | inl small ↦ rw small (omega arith)
  | inr large ↦ rw large (omega (arith, value-digits fuel (n / 10) (ground arith)))
]

-- The fuel of FormatUint is enough: its digits write the number.
number-format_uint : (n : ℕ) → number 0 (format_uint n) ≡ n
unfolding format_uint number
number-format_uint n = number-reversed (digits n n) [] ∙ value-digits n n (omega arith)

pub format_uint-injective : (m n : ℕ) → format_uint m ≡ format_uint n → m ≡ n
format_uint-injective m n e = sym (number-format_uint m) ∙ ap (number 0) e ∙ number-format_uint n

-- Decimal digits
abbrev pub IsDigit : ℕ → Type 0
IsDigit c = (48 ≤ c) × (c ≤ 57)

digits-IsDigit : (fuel n : ℕ) → All IsDigit (digits fuel n)
unfolding digits
digits-IsDigit zero n = ((omega arith, omega arith), tt)
digits-IsDigit (suc fuel) n = elim (Bool-cases (ltb n 10)) [
  | inl small ↦ rw small ((omega arith, ground arith), tt)
  | inr large ↦ rw large ((omega arith, omega arith), digits-IsDigit fuel (n / 10))
]

reversed-All : (P : ℕ → Type 0) (cs done : Bytes) → All P cs → All P done → All P (reversed cs done)
unfolding reversed
reversed-All P [] done h k = k
reversed-All P (c ∷ cs) done h k = reversed-All P cs (c ∷ done) h.1 (h.0, k)

pub format_uint-IsDigit : (n : ℕ) → All IsDigit (format_uint n)
unfolding format_uint
format_uint-IsDigit n = reversed-All IsDigit (digits n n) [] (digits-IsDigit n n) tt

digits-ne-nil : (fuel n : ℕ) → digits fuel n ≢ []
unfolding digits
digits-ne-nil zero n e = cc
digits-ne-nil (suc fuel) n e = ground arith
