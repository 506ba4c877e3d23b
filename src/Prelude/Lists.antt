-- ===== src/Prelude/Lists.antt =====
-- Lists measured and indexed by native numbers, and predicates over lists by recursion.
use Prim.Native.Nat.{ℕ, zero, suc, ◌+◌, ◌<◌}
use Prim.Native.Char.{code}
use Prim.Native.String.{String}
use mathlib.Core.Path.{◌≡◌, refl, ap, subst, sym, ◌∙◌}
use mathlib.Core.Logic.{◌≢◌, ◌↔◌, ◌⊎◌, inl, inr}
use mathlib.Core.Bool.{Bool, false, ◌||◌}
use mathlib.Core.List.{List, [], ◌∷◌, ◌++◌, map}
use mathlib.Core.Option.{Option, none, some, some-injective}
use native.Mathlib.Omega.{arith}

-- The code points of a text: its bytes, as the texts of this program are ASCII.
abbrev pub codes : String → List ℕ
codes String.[] = []
codes (String.◌∷◌ c s) = code c ∷ codes s

module _ {ℓ} {A : Type ℓ} where
  abbrev pub length : List A → ℕ
  length [] = 0
  length (x ∷ xs) = suc (length xs)

  abbrev pub get_elem? : List A → ℕ → Option A
  get_elem? [] i = none
  get_elem? (x ∷ xs) zero = some x
  get_elem? (x ∷ xs) (suc i) = get_elem? xs i

  -- A write out of bounds changes nothing.
  abbrev pub set : List A → ℕ → A → List A
  set [] i v = []
  set (x ∷ xs) zero v = v ∷ xs
  set (x ∷ xs) (suc i) v = x ∷ set xs i v

  abbrev pub replicate : ℕ → A → List A
  replicate zero a = []
  replicate (suc n) a = a ∷ replicate n a

  abbrev pub any : (A → Bool) → List A → Bool
  any p [] = false
  any p (x ∷ xs) = p x || any p xs

  pub length-append : (xs ys : List A) → length (xs ++ ys) ≡ length xs + length ys
  length-append [] ys = omega arith
  length-append (x ∷ xs) ys = omega (arith, length-append xs ys)

  pub length-set : (xs : List A) (i : ℕ) (v : A) → length (set xs i v) ≡ length xs
  length-set [] i v = refl
  length-set (x ∷ xs) zero v = refl
  length-set (x ∷ xs) (suc i) v = ap suc (length-set xs i v)

  pub length-replicate : (n : ℕ) (a : A) → length (replicate n a) ≡ n
  length-replicate zero a = refl
  length-replicate (suc n) a = ap suc (length-replicate n a)

  pub get_elem?-lt : (xs : List A) (i : ℕ) → i < length xs → (a : A) × (get_elem? xs i ≡ some a)
  get_elem?-lt [] i h = elim h [ ]
  get_elem?-lt (x ∷ xs) zero h = (x, refl)
  get_elem?-lt (x ∷ xs) (suc i) h = get_elem?-lt xs i (omega arith)

  pub get_elem?-replicate : (n : ℕ) (a : A) (i : ℕ) → i < n → get_elem? (replicate n a) i ≡ some a
  get_elem?-replicate zero a i h = elim h [ ]
  get_elem?-replicate (suc n) a zero h = refl
  get_elem?-replicate (suc n) a (suc i) h = get_elem?-replicate n a i (omega arith)

  pub get_elem?-replicate_eq :
      (n : ℕ) (a : A) (i : ℕ) (b : A) → get_elem? (replicate n a) i ≡ some b → a ≡ b
  get_elem?-replicate_eq zero a i b e = cc
  get_elem?-replicate_eq (suc n) a zero b e = some-injective a b e
  get_elem?-replicate_eq (suc n) a (suc i) b e = get_elem?-replicate_eq n a i b e

module _ {ℓ} {A : Type ℓ} where
  pub get_elem?-set_self :
      (xs : List A) (i : ℕ) (v : A) → i < length xs → get_elem? (set xs i v) i ≡ some v
  get_elem?-set_self [] i v h = elim h [ ]
  get_elem?-set_self (x ∷ xs) zero v h = refl
  get_elem?-set_self (x ∷ xs) (suc i) v h = get_elem?-set_self xs i v (omega arith)

  pub get_elem?-set_ne :
      (xs : List A) (i j : ℕ) (v : A) → i ≢ j → get_elem? (set xs i v) j ≡ get_elem? xs j
  get_elem?-set_ne [] i j v h = refl
  get_elem?-set_ne (x ∷ xs) zero zero v h = absurd (h refl)
  get_elem?-set_ne (x ∷ xs) zero (suc j) v h = refl
  get_elem?-set_ne (x ∷ xs) (suc i) zero v h = refl
  get_elem?-set_ne (x ∷ xs) (suc i) (suc j) v h = get_elem?-set_ne xs i j v (λ e. h (ap suc e))

-- What holds of every place of a list, and of a value at a place, holds after the write.
pub get_elem?-set_all {ℓ κ} :
    {A : Type ℓ} (P : ℕ → A → Type κ) (xs : List A) (i : ℕ) (v : A)
    → ((j : ℕ) (a : A) → get_elem? xs j ≡ some a → P j a)
    → P i v
    → (j : ℕ) (a : A) → get_elem? (set xs i v) j ≡ some a
    → P j a
get_elem?-set_all P [] i v all p j a e = all j a e
get_elem?-set_all P (x ∷ xs) zero v all p zero a e = subst (P 0) (some-injective v a e) p
get_elem?-set_all P (x ∷ xs) zero v all p (suc j) a e = all (suc j) a e
get_elem?-set_all P (x ∷ xs) (suc i) v all p zero a e = all zero a e
get_elem?-set_all P (x ∷ xs) (suc i) v all p (suc j) a e =
    get_elem?-set_all (λ k. P (suc k)) xs i v (λ k. all (suc k)) p j a e

-- A predicate at every element of a list.
abbrev pub All {ℓ κ} : {A : Type ℓ} → (A → Type κ) → List A → Type κ
All P [] = Unit
All P (x ∷ xs) = P x × All P xs

-- What holds of all of two lists holds of all of both.
pub All-append {ℓ κ} :
    {A : Type ℓ} (P : A → Type κ) (front back : List A)
    → All P front
    → All P back
    → All P (front ++ back)
All-append P [] back f b = b
All-append P (a ∷ front) back f b = let (here, there) = f in (here, All-append P front back there b)

-- The element stands in the list.
abbrev pub In : {A : Type 0} → A → List A → Type 0
In a [] = ⊥
In a (x ∷ xs) = (a ≡ x) ⊎ In a xs

pub In-append : {A : Type 0} (x : A) (xs ys : List A) → In x (xs ++ ys) ↔ (In x xs ⊎ In x ys)
In-append x [] ys = (λ h. inr h, λ h. elim h [ inl n ↦ absurd n | inr m ↦ m ])
In-append x (a ∷ xs) ys = (
  λ h. elim h [
    | inl e ↦ inl (inl e)
    | inr m ↦ elim ((In-append x xs ys).0 m) [ inl a ↦ inl (inr a) | inr b ↦ inr b ]
  ],
  λ h. elim h [
    | inl (inl e) ↦ inl e
    | inl (inr m) ↦ inr ((In-append x xs ys).1 (inl m))
    | inr m ↦ inr ((In-append x xs ys).1 (inr m))
  ],
)

-- What holds of every element of a list, as a list of what it implies
pub All-map :
    {X Y : Type 0} (P : X → Type 0) (Q : Y → Type 0) (f : X → Y) (xs : List X)
    → ((x : X) → P x → Q (f x))
    → All P xs
    → All Q (map f xs)
All-map P Q f [] h all = tt
All-map P Q f (x ∷ xs) h all = (h x all.0, All-map P Q f xs h all.1)

pub All-weaken :
    {X : Type 0} (P Q : X → Type 0) (xs : List X) → ((x : X) → P x → Q x) → All P xs → All Q xs
All-weaken P Q [] h all = tt
All-weaken P Q (x ∷ xs) h all = (h x all.0, All-weaken P Q xs h all.1)

pub All-In : {X : Type 0} (P : X → Type 0) (x : X) (xs : List X) → All P xs → In x xs → P x
All-In P x [] h m = absurd m
All-In P x (y ∷ ys) h (inl e) = subst P (sym e) h.0
All-In P x (y ∷ ys) h (inr m) = All-In P x ys h.1 m

pub In-map :
    {X : Type 0} {Y : Type 0} (f : X → Y) (y : Y) (xs : List X)
    → In y (map f xs) ↔ ((x : X) × In x xs × (f x ≡ y))
In-map f y [] = (λ m. absurd m, λ h. absurd (h.1))
In-map f y (x ∷ xs) = (
  λ m. elim m [
    | inl e ↦ (x, inl refl, sym e)
    | inr m ↦ let (x', m', e) = (In-map f y xs).0 m in (x', inr m', e)
  ],
  λ h. elim h.1 [ inl e ↦ inl (sym h.2 ∙ ap f e) | inr m ↦ inr ((In-map f y xs).1 (h.0, m, h.2)) ],
)
