-- ===== src/Text/Codes.antt =====
-- Hexadecimal and base64 texts, and the texts that hold no delimiter of a record.
use passive_bitcoin.Prelude.{
  ℕ, ◌+◌, ◌-◌, ◌*◌, ◌/◌, ◌%◌, ◌<◌, ◌≡◌, ◌≢◌, refl, ap, ◌∙◌, arith, [], ◌∷◌, ltb, if◌then◌else◌, All,
  All-weaken,
}
use passive_bitcoin.Text.{
  Bytes, ℤ, pos, negsuc, format_uint, format_int, hex, hex_digit, base64, base64_digit,
}
use passive_bitcoin.Text.Fields.{Without}
use passive_bitcoin.Text.Numbers.{IsDigit, format_uint-IsDigit}

-- No delimiter between fields, none before an item, and no end of a line
abbrev pub IsPlainByte : ℕ → Type 0
IsPlainByte c = (c ≢ b'|') × (c ≢ b',') × (c ≢ b'\n')

abbrev pub IsPlain : Bytes → Type 0
IsPlain = All IsPlainByte

abbrev pub IsByte : ℕ → Type 0
IsByte c = c < 256

pub IsPlain-Without_bar : (x : Bytes) → IsPlain x → Without b'|' x
IsPlain-Without_bar x h = All-weaken IsPlainByte (λ c. c ≢ b'|') x (λ c p. p.0) h

pub IsPlain-Without_comma : (x : Bytes) → IsPlain x → Without b',' x
IsPlain-Without_comma x h = All-weaken IsPlainByte (λ c. c ≢ b',') x (λ c p. p.1) h

pub format_uint-IsPlain : (n : ℕ) → IsPlain (format_uint n)
format_uint-IsPlain n =
    All-weaken IsDigit IsPlainByte (format_uint n)
      (λ c d. (
        λ e. omega (arith, d.0, d.1, e),
        λ e. omega (arith, d.0, d.1, e),
        λ e. omega (arith, d.0, d.1, e),
      ))
      (format_uint-IsDigit n)

pub format_int-IsPlain : (i : ℤ) → IsPlain (format_int i)
unfolding format_int
format_int-IsPlain (pos n) = format_uint-IsPlain n
format_int-IsPlain (negsuc n) = (
  (λ e. omega (arith, e), λ e. omega (arith, e), λ e. omega (arith, e)),
  format_uint-IsPlain (n + 1),
)

hex_digit-IsPlainByte : (n : ℕ) → n < 16 → IsPlainByte (hex_digit n)
unfolding hex_digit
hex_digit-IsPlainByte n h = (λ e. ground arith, λ e. ground arith, λ e. ground arith)

pub hex-IsPlain : (cs : Bytes) → All IsByte cs → IsPlain (hex cs)
unfolding hex
hex-IsPlain [] h = tt
hex-IsPlain (c ∷ cs) h = (
  hex_digit-IsPlainByte (c / 16) (omega (arith, h.0)),
  (hex_digit-IsPlainByte (c % 16) (omega arith), hex-IsPlain cs h.1),
)

-- The value of a hexadecimal digit, and the bytes of a hexadecimal text
abbrev hex_value : ℕ → ℕ
hex_value c = if ltb c 58 then c - 48 else c - 87

unfoldable pub unhex : Bytes → Bytes
unhex [] = []
unhex (a ∷ []) = []
unhex (a ∷ b ∷ cs) = (hex_value a * 16 + hex_value b) ∷ unhex cs

hex_value-hex_digit : (n : ℕ) → n < 16 → hex_value (hex_digit n) ≡ n
unfolding hex_digit
hex_value-hex_digit n h = ground arith

-- Reading a hexadecimal text gives back the bytes.
pub unhex-hex : (cs : Bytes) → All IsByte cs → unhex (hex cs) ≡ cs
unfolding unhex hex
unhex-hex [] h = refl
unhex-hex (c ∷ cs) h =
    let high = hex_value-hex_digit (c / 16) (omega (arith, h.0)) in
    let low = hex_value-hex_digit (c % 16) (omega arith) in
    let byte : hex_value (hex_digit (c / 16)) * 16 + hex_value (hex_digit (c % 16)) ≡ c =
      omega (arith, high, low) in
    ap (λ b. b ∷ unhex (hex cs)) byte ∙ ap (λ r. c ∷ r) (unhex-hex cs h.1)

base64_digit-IsPlainByte : (n : ℕ) → n < 64 → IsPlainByte (base64_digit n)
unfolding base64_digit
base64_digit-IsPlainByte n h = (λ e. ground arith, λ e. ground arith, λ e. ground arith)

pub base64-IsPlain : (cs : Bytes) → All IsByte cs → IsPlain (base64 cs)
unfolding base64
base64-IsPlain [] h = tt
base64-IsPlain (a ∷ []) h =
    let pad : IsPlainByte b'=' =
      (λ e. omega (arith, e), λ e. omega (arith, e), λ e. omega (arith, e)) in
    let first = base64_digit-IsPlainByte (a / 4) (omega (arith, h.0)) in
    (first, (base64_digit-IsPlainByte (a % 4 * 16) (omega arith), (pad, (pad, tt))))
base64-IsPlain (a ∷ b ∷ []) h =
    let pad : IsPlainByte b'=' =
      (λ e. omega (arith, e), λ e. omega (arith, e), λ e. omega (arith, e)) in
    let first = base64_digit-IsPlainByte (a / 4) (omega (arith, h.0)) in
    let second = base64_digit-IsPlainByte (a % 4 * 16 + b / 16) (omega (arith, h.1.0)) in
    (first, (second, (base64_digit-IsPlainByte (b % 16 * 4) (omega arith), (pad, tt))))
base64-IsPlain (a ∷ b ∷ c ∷ cs) h =
    let first = base64_digit-IsPlainByte (a / 4) (omega (arith, h.0)) in
    let second = base64_digit-IsPlainByte (a % 4 * 16 + b / 16) (omega (arith, h.1.0)) in
    let third = base64_digit-IsPlainByte (b % 16 * 4 + c / 64) (omega (arith, h.1.1.0)) in
    (
      first,
      (
        second,
        (third, (base64_digit-IsPlainByte (c % 64) (omega arith), base64-IsPlain cs h.1.1.1)),
      ),
    )
