-- ===== src/Net.antt =====
-- The parts of Go's `net`, `bytes` and `time` packages that the program uses: addresses as byte
-- lists, `bytes.Compare`, `IP.To4`, `IP.To16` and `net.ParseIP` of a dotted quad.
use Prim.Native.Nat.{compare, Ordering}
use passive_bitcoin.Text.{ℤ, pos, negsuc}
use passive_bitcoin.Prelude.{
  ◌/◌, ◌%◌, ◌^◌, Bool, false, not, ltb, ℕ, ◌+◌, ◌-◌, ◌*◌, String, ◌≡◌, refl, ◌&&◌, Option, none,
  some, List, [], ◌∷◌, ◌++◌, is_some, leb, ◌==◌, ◌>>=◌, if◌then◌else◌, codes, length, replicate,
}

-- net.IP; the empty list is nil.
abbrev pub Ip : Type 0
Ip = List ℕ

-- net.TCPAddr (without the zone, which the program never sets)
pub record TcpAddr : Type 0 where
  pub ip : Ip
  pub port : ℕ

-- time.Time, in nanoseconds since the zero time, and a time.Duration that is not negative
abbrev pub Time : Type 0
Time = ℕ

abbrev pub second : ℕ
second = 1000000000

abbrev pub minute : ℕ
minute = 60 * second

abbrev pub hour : ℕ
hour = 60 * minute

-- time.Duration, an int64 number of nanoseconds; it may be negative.
abbrev pub Duration : Type 0
Duration = ℤ

-- The int64 of a bit pattern below 2 ^ 64, and the pattern of a number
abbrev pub signed64 : ℕ → ℤ
signed64 w = if ltb w (2 ^ 63) then pos w else negsuc (2 ^ 64 - w - 1)

abbrev pub pattern64 : ℤ → ℕ
pattern64 (pos n) = n % 2 ^ 64
pattern64 (negsuc n) = 2 ^ 64 - 1 - n % 2 ^ 64

-- The product of time.Second with a count, which wraps as int64 does
unfoldable pub seconds : ℤ → Duration
seconds (pos n) = signed64 (pattern64 (pos (second * n)))
seconds (negsuc n) = signed64 (pattern64 (negsuc (second * (n + 1) - 1)))

-- The quotient of time.Second by a count, which Go rounds towards 0; the count is not 0.
unfoldable pub per_second : ℤ → Duration
per_second (pos n) = pos (second / n)
per_second (negsuc n) = let q = second / (n + 1) in if q == 0 then pos 0 else negsuc (q - 1)

abbrev pub is_zero : ℤ → Bool
is_zero (pos n) = n == 0
is_zero (negsuc n) = false

-- What time.NewTicker asks of its interval; it panics otherwise.
abbrev pub is_positive : Duration → Bool
is_positive (pos n) = not (n == 0)
is_positive (negsuc n) = false

-- bytes.Compare
unfoldable pub compare_bytes : List ℕ → List ℕ → Ordering
compare_bytes [] [] = Ordering.eq
compare_bytes [] (b ∷ bs) = Ordering.lt
compare_bytes (a ∷ as') [] = Ordering.gt
compare_bytes (a ∷ as') (b ∷ bs) =
    let rest = compare_bytes as' bs in
    elim (compare a b) [
      | Ordering.lt ↦ Ordering.lt
      | Ordering.gt ↦ Ordering.gt
      | Ordering.eq ↦ rest
    ]

abbrev pub v4_prefix : List ℕ
v4_prefix = replicate 10 0 ++ 255 ∷ 255 ∷ []

-- net.IPv4(a, b, c, d), in the 16-byte form
abbrev pub ipv4 : ℕ → ℕ → ℕ → ℕ → Ip
ipv4 a b c d = v4_prefix ++ a ∷ b ∷ c ∷ d ∷ []

abbrev pub strip_prefix : List ℕ → List ℕ → Option (List ℕ)
strip_prefix [] ip = some ip
strip_prefix (p ∷ ps) [] = none
strip_prefix (p ∷ ps) (b ∷ bs) = if p == b then strip_prefix ps bs else none

-- ip.To4(); `none` is nil.
unfoldable pub to4 : Ip → Option Ip
to4 ip =
    if length ip == 4 then some ip else if length ip == 16 then strip_prefix v4_prefix ip else none

-- ip.To16()
unfoldable pub to16 : Ip → Option Ip
to16 ip =
    if length ip == 4 then some (v4_prefix ++ ip) else if length ip == 16 then some ip else none

abbrev value : Option ℕ → ℕ
value none = 0
value (some v) = v

-- The dotted quad of net.ParseIP: `field` is the number read so far, of `n` digits.
quad : List ℕ → Option ℕ → ℕ → List ℕ → Option (List ℕ)
quad done none n [] = none
quad done (some v) n [] = some (done ++ v ∷ [])
quad done field n (c ∷ cs) =
    let v = value field * 10 + (c - 48) in
    let digit = quad done (some v) (n + 1) cs in
    let dot = quad (done ++ value field ∷ []) none 0 cs in
    if c == b'.' && is_some field
    then dot
    else if leb 48 c && leb c 57 && leb v 255 && leb n 2
    then digit
    else none

-- net.ParseIP of a text that is no IPv6 address, which is all that the program gives it
unfoldable pub parse_ip : String → Option Ip
unfolding quad
parse_ip s = do
  bytes ← quad [] none 0 (codes s)
  if length bytes == 4 then some (v4_prefix ++ bytes) else none

parse_ip_test : parse_ip "172.16.0.255" ≡ some (ipv4 172 16 0 255)
unfolding parse_ip
parse_ip_test = refl

parse_ip_fails :
    (parse_ip "1.2.3" ≡ none) × (parse_ip "1.2.3.256" ≡ none) × (parse_ip "1..2.3" ≡ none)
unfolding parse_ip
parse_ip_fails = (refl, refl, refl)
