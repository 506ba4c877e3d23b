-- ===== src/Repository/Ranges.antt =====
-- The reserved ranges of repository/repository.go against `includes` of repository/iprange.go.
use mathlib.Core.List.{append-nil, append_assoc}
use Prim.Native.Nat.{Ordering, ℕ}
use passive_bitcoin.Prelude.{
  ◌++◌, ◌+◌, ◌∙◌, ◌≡◌, ◌≢◌, refl, true, [], ◌∷◌, arith, length, List, false, All, String, some,
  Bool-cases, any, Bool, inl, ap, none, inr, sym, some-injective,
}
use passive_bitcoin.Net.{Ip, compare_bytes, to4, parse_ip, strip_prefix, v4_prefix}
use passive_bitcoin.Repository.{
  IpRange, includes, reserved, apply, add_range, new, new_ip_range, Repository, Setting, foldl,
  set_seeds_list, defaults, set_seeds_port, set_backup_path, set_backup_rate, set_node_limit,
}

-- A range whose ends are in order.
abbrev pub IsOrdered : IpRange → Type 0
IsOrdered r = compare_bytes r.start r.end ≢ Ordering.gt

-- `includes` wants the address at or below the start and at or above the end: in a range whose
-- ends are in order only an address that equals both ends passes.
includes-eq_ends :
    (start end ip : Ip)
    → compare_bytes start end ≢ Ordering.gt
    → includes (record { start = start; end = end }) ip ≡ true
    → (start ≡ ip) × (end ≡ ip)
unfolding includes compare_bytes
includes-eq_ends [] [] [] o h = (refl, refl)
includes-eq_ends [] [] (c ∷ ip) o h = cc
includes-eq_ends [] (b ∷ end) [] o h = cc
includes-eq_ends [] (b ∷ end) (c ∷ ip) o h = cc
includes-eq_ends (a ∷ start) [] ip o h = absurd (o refl)
includes-eq_ends (a ∷ start) (b ∷ end) [] o h = cc
includes-eq_ends (a ∷ start) (b ∷ end) (c ∷ ip) o h = ground (arith, includes-eq_ends start end ip)

-- A range in the 16-byte form with its ends in order.
abbrev IsWide : IpRange → Type 0
IsWide r = IsOrdered r × (length r.start ≡ 16)

wide_includes : (r : IpRange) (ip : Ip) → IsWide r → length ip ≡ 4 → includes r ip ≡ false
wide_includes r ip w four = elim (Bool-cases (includes r ip)) [
  | inl h ↦
      let (s, e) = includes-eq_ends r.start r.end ip w.0 h in
      absurd (omega (arith, ap length s, w.1, four))
  | inr h ↦ h
]

any-includes :
    (rs : List IpRange) (ip : Ip)
    → All IsWide rs
    → length ip ≡ 4
    → any (λ r. includes r ip) rs ≡ false
any-includes [] ip w four = refl
any-includes (r ∷ rs) ip w four = rw (wide_includes r ip w.0 four) (any-includes rs ip w.1 four)

reserved-IsWide : All IsWide reserved
unfolding reserved new_ip_range parse_ip compare_bytes
reserved-IsWide =
    let w : (Ordering.lt ≢ Ordering.gt) × ◌≡◌ {A = ℕ} 16 16 = (λ h. cc, refl) in
    (w, (w, (w, (w, (w, (w, (w, (w, (w, (w, (w, (w, (w, (w, (w, tt)))))))))))))))

apply-invalid_range :
    (repo : Repository) (settings : List Setting)
    → (foldl apply repo settings).invalid_range ≡ repo.invalid_range
unfolding apply
apply-invalid_range repo [] = refl
apply-invalid_range repo (setting ∷ rest) =
    apply-invalid_range (apply repo setting) rest ∙ one repo setting
  where
    one :
        (repo : Repository) (setting : Setting)
        → (apply repo setting).invalid_range ≡ repo.invalid_range
    one repo (set_seeds_list seeds) = refl
    one repo (set_seeds_port port) = refl
    one repo (set_backup_path path) = refl
    one repo (set_backup_rate rate) = refl
    one repo (set_node_limit limit) = refl

add_range-invalid_range :
    (repo : Repository) (rs : List IpRange)
    → (foldl add_range repo rs).invalid_range ≡ repo.invalid_range ++ rs
unfolding add_range
add_range-invalid_range repo [] = sym (append-nil repo.invalid_range)
add_range-invalid_range repo (r ∷ rs) =
    add_range-invalid_range (add_range repo r) rs ∙ append_assoc repo.invalid_range (r ∷ []) rs

pub new-invalid_range :
    (create : String → Bool) (settings : List Setting) (repo : Repository)
    → new create settings ≡ some repo
    → repo.invalid_range ≡ reserved
unfolding new
new-invalid_range create settings repo h =
    let base = foldl apply defaults settings in
    let built = foldl add_range (record base { file = some none }) reserved in
    elim (Bool-cases (create base.backup_path)) [
      | inl y ↦
          ap (λ (r : Repository). r.invalid_range) (sym (some-injective built repo (rw y at h)))
          ∙ add_range-invalid_range (record base { file = some none }) reserved
          ∙ ap (λ t. t ++ reserved) (apply-invalid_range defaults settings)
      | inr n ↦ cc (n, h)
    ]

length-strip_prefix :
    (ps bs rest : List ℕ) → strip_prefix ps bs ≡ some rest → length bs ≡ length ps + length rest
length-strip_prefix [] bs rest h = ground arith
length-strip_prefix (p ∷ ps) [] rest h = cc
length-strip_prefix (p ∷ ps) (b ∷ bs) rest h = ground (arith, length-strip_prefix ps bs rest)

length-to4 : (ip short : Ip) → to4 ip ≡ some short → length short ≡ 4
unfolding to4
length-to4 ip short h = ground (arith, length-strip_prefix v4_prefix ip short)

-- The ranges that New adds include no IPv4 address.
pub any-reserved :
    (ip short : Ip) → to4 ip ≡ some short → any (λ r. includes r short) reserved ≡ false
any-reserved ip short h = any-includes reserved short reserved-IsWide (length-to4 ip short h)
