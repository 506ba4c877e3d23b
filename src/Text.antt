-- ===== src/Text.antt =====
-- Texts as lists of bytes, with the parts of Go's `bytes`, `strconv`, `encoding/hex` and
-- `encoding/base64` packages that records/ writes with. `join` stands for fields that are written
-- to a buffer with a delimiter between them. The proofs are in the modules below.
pub mod Fields
pub mod Numbers
pub mod Codes
use passive_bitcoin.Prelude.{
  ℕ, zero, suc, ◌+◌, ◌*◌, ◌/◌, ◌%◌, ◌<◌, Bool, true, false, Option, none, some, List, [], ◌∷◌, ◌++◌,
  ltb, leb, ◌==◌, if◌then◌else◌, get_elem?, codes, ◌>>=◌, ◌-◌, ◌&&◌,
}

abbrev pub Bytes : Type 0
Bytes = List ℕ

-- int64 and the narrower signed types; `negsuc n` is -(n + 1).
pub data ℤ : Type 0 where
  pos negsuc : ℕ → ℤ

-- A delimiter before each part
abbrev pub each_after : Bytes → List Bytes → Bytes
each_after d [] = []
each_after d (x ∷ xs) = d ++ (x ++ each_after d xs)

-- A delimiter between the parts
abbrev pub join : Bytes → List Bytes → Bytes
join d [] = []
join d (x ∷ xs) = x ++ each_after d xs

-- The digits of a number, the last one first, with the number as fuel
unfoldable pub digits : ℕ → ℕ → Bytes
digits zero n = (48 + n % 10) ∷ []
digits (suc fuel) n =
    let rest = digits fuel (n / 10) in if ltb n 10 then (48 + n) ∷ [] else (48 + n % 10) ∷ rest

unfoldable pub reversed : Bytes → Bytes → Bytes
reversed [] done = done
reversed (c ∷ cs) done = reversed cs (c ∷ done)

-- strconv.FormatUint(n, 10)
unfoldable pub format_uint : ℕ → Bytes
unfolding digits reversed
format_uint n = reversed (digits n n) []

-- strconv.FormatInt(i, 10)
unfoldable pub format_int : ℤ → Bytes
unfolding format_uint
format_int (pos n) = format_uint n
format_int (negsuc n) = b'-' ∷ format_uint (n + 1)

-- strconv.FormatBool
abbrev pub format_bool : Bool → Bytes
format_bool true = codes "true"
format_bool false = codes "false"

unfoldable pub hex_digit : ℕ → ℕ
hex_digit n = if ltb n 10 then 48 + n else 87 + n

-- hex.EncodeToString
unfoldable pub hex : Bytes → Bytes
unfolding hex_digit
hex [] = []
hex (c ∷ cs) = hex_digit (c / 16) ∷ hex_digit (c % 16) ∷ hex cs

-- The alphabet of the standard encoding
unfoldable pub base64_digit : ℕ → ℕ
base64_digit n =
    if ltb n 26
    then 65 + n
    else if ltb n 52
    then 71 + n
    else if ltb n 62
    then n - 4
    else if n == 62
    then b'+'
    else b'/'

-- base64.StdEncoding.EncodeToString
unfoldable pub base64 : Bytes → Bytes
unfolding base64_digit
base64 [] = []
base64 (a ∷ []) = base64_digit (a / 4) ∷ base64_digit (a % 4 * 16) ∷ b'=' ∷ b'=' ∷ []
base64 (a ∷ b ∷ []) =
    base64_digit (a / 4)
    ∷ base64_digit (a % 4 * 16 + b / 16)
    ∷ base64_digit (b % 16 * 4)
    ∷ b'='
    ∷ []
base64 (a ∷ b ∷ c ∷ cs) =
    base64_digit (a / 4)
    ∷ base64_digit (a % 4 * 16 + b / 16)
    ∷ base64_digit (b % 16 * 4 + c / 64)
    ∷ base64_digit (c % 64)
    ∷ base64 cs
