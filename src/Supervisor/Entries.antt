-- ===== src/Supervisor/Entries.antt =====
-- What holds of every entry of a map through the loops of New.
use passive_bitcoin.Prelude.{
  String, ◌≡◌, ◌≢◌, refl, sym, ap, arith, true, Bool-cases, Option, none, some, List, [], ◌∷◌, inl,
  inr, In, All, is_some, str_eq, eq_iff, Option-cases, some-injective,
}
use passive_bitcoin.Assoc
use passive_bitcoin.Assoc.{Assoc}
use passive_bitcoin.Supervisor.Modules.{
  update_all, init_all, or_default, resolve, present, bare, Module,
}

-- There is a module under the key.
abbrev pub Has : {X : Type 0} → Assoc X → String → Type 0
Has m key = is_some (Assoc.lookup key m) ≡ true

module _ {X : Type 0} where
  Has-first : (key : String) (x : X) (m : Assoc X) → Has ((key, x) ∷ m) key
  unfolding Assoc.lookup
  Has-first key x m = ground (arith, eq_iff key key)

  Has-further : (key other : String) (x : X) (m : Assoc X) → Has m key → Has ((other, x) ∷ m) key
  unfolding Assoc.lookup
  Has-further key other x m h = ground (arith, h)

  pub In-Has : (key : String) (x : X) (m : Assoc X) → In (key, x) m → Has m key
  In-Has key x [] h = absurd h
  In-Has key x ((other, y) ∷ m) (inl e) = rw (ap (λ p. p.0) e) (Has-first other y m)
  In-Has key x ((other, y) ∷ m) (inr h) = Has-further key other y m (In-Has key x m h)

  pub Has-update_all :
      (f : String → X → X) (key : String) (m : Assoc X) → Has m key → Has (update_all f m) key
  unfolding Assoc.lookup
  Has-update_all f key [] h = h
  Has-update_all f key ((other, y) ∷ m) h = elim (Bool-cases (str_eq other key)) [
    | inl e ↦ rw e
    | inr e ↦ rw e (Has-update_all f key m (rw e at h))
  ]

  pub All-update_all :
      (P Q : String × X → Type 0) (f : String → X → X) (m : Assoc X)
      → ((key : String) (x : X) → P (key, x) → Q (key, f key x))
      → All P m
      → All Q (update_all f m)
  All-update_all P Q f [] step h = tt
  All-update_all P Q f ((key, x) ∷ m) step h = (step key x h.0, All-update_all P Q f m step h.1)

  All-insert :
      (P : String × X → Type 0) (key : String) (x : X) (m : Assoc X)
      → P (key, x)
      → All P m
      → All P (Assoc.insert key x m)
  unfolding Assoc.insert
  All-insert P key x [] h hs = (h, tt)
  All-insert P key x ((other, y) ∷ m) h hs = elim (Bool-cases (str_eq other key)) [
    | inl e ↦ rw e (h, hs.1)
    | inr e ↦ rw e (hs.0, All-insert P key x m h hs.1)
  ]

  -- Each module that a loop makes comes from an entry of the section.
  pub All-init_all :
      {C : Type 0} (P : String × X → Type 0) (init : C → Option X) (cfgs : Assoc C) (m : Assoc X)
      → ((key : String) (c : C) (x : X) → In (key, c) cfgs → init c ≡ some x → P (key, x))
      → All P m
      → All P (init_all init cfgs m)
  unfolding init_all
  All-init_all {C = C} P init [] m made h = h
  All-init_all {C = C} P init ((name, c) ∷ rest) m made h =
      let further : (key : String) (d : C) (x : X)
          → In (key, d) rest
          → init d ≡ some x
          → P (key, x) =
        λ key d x i e. made key d x (inr i) e in
      elim (Option-cases (init c)) [
        | inl e ↦ rw e (All-init_all P init rest m further h)
        | inr (x, e) ↦ rw e (
            All-init_all P init rest (Assoc.insert name x m) further
              (All-insert P name x m (made name c x (inl refl) e) h))
      ]

  pub All-or_default :
      (P : String × X → Type 0) (fallback : Option X) (m m' : Assoc X)
      → or_default fallback m ≡ some m'
      → ((x : X) → fallback ≡ some x → P ("default", x))
      → All P m
      → All P m'
  unfolding or_default
  All-or_default P none [] m' e made h = cc
  All-or_default P (some x) [] m' e made h =
      rw (sym (some-injective (("default", x) ∷ []) m' e)) (made x refl, tt)
  All-or_default P none (entry ∷ rest) m' e made h = rw (sym (some-injective (entry ∷ rest) m' e)) h
  All-or_default P (some x) (entry ∷ rest) m' e made h =
      rw (sym (some-injective (entry ∷ rest) m' e)) h

  pub or_default-nonempty :
      (fallback : Option X) (m m' : Assoc X) → or_default fallback m ≡ some m' → m' ≢ []
  unfolding or_default
  or_default-nonempty none [] m' e n = cc
  or_default-nonempty (some x) [] m' e n = cc
  or_default-nonempty none (y ∷ ys) m' e n = cc
  or_default-nonempty (some x) (y ∷ ys) m' e n = cc

  pub resolve-Has :
      (name : String) (m : Assoc X) (key : String) → resolve name m ≡ some key → Has m key
  unfolding resolve
  resolve-Has name [] key e = cc
  resolve-Has name ((first, x) ∷ rest) key e =
      elim (Bool-cases (is_some (Assoc.lookup name ((first, x) ∷ rest)))) [
        | inl h ↦ let same = some-injective name key (rw h at e) in rw (sym same) h
        | inr h ↦
            let same = some-injective first key (rw h at e) in
            rw (sym same) (Has-first first x rest)
      ]

  -- A loop over the entries keeps the keys.
  lookup-update_all :
      (f : String → X → X) (key : String) (m : Assoc X)
      → is_some (Assoc.lookup key (update_all f m)) ≡ is_some (Assoc.lookup key m)
  unfolding Assoc.lookup
  lookup-update_all f key [] = refl
  lookup-update_all f key ((other, y) ∷ m) = elim (Bool-cases (str_eq other key)) [
    | inl e ↦ rw e refl
    | inr e ↦ rw e (lookup-update_all f key m)
  ]

  pub resolve-update_all :
      (f : String → X → X) (name : String) (m : Assoc X)
      → resolve name (update_all f m) ≡ resolve name m
  unfolding resolve
  resolve-update_all f name [] = refl
  resolve-update_all f name ((first, x) ∷ rest) =
      rw (lookup-update_all f name ((first, x) ∷ rest)) refl

  pub present-update_all :
      (f : String → X → X) (m : Assoc X) (names : List String)
      → present (update_all f m) names ≡ present m names
  unfolding present
  present-update_all f m [] = refl
  present-update_all f m (name ∷ names) =
      rw (lookup-update_all f name m, present-update_all f m names) refl

  pub resolve-is_some : (name : String) (m : Assoc X) → m ≢ [] → is_some (resolve name m) ≡ true
  unfolding resolve
  resolve-is_some name [] h = absurd (h refl)
  resolve-is_some name ((first, x) ∷ rest) h = ground arith

-- A module that was made has what its initialization gave it.
pub bare-made :
    {X : Type 0} (o : Option X) (m : Module X)
    → bare o ≡ some m
    → (o ≡ some m.body) × (m.log ≡ none)
bare-made none m e = absurd cc
bare-made (some x) m e =
    let same = some-injective (record { body = x; log = none }) m e in
    (ap some (ap (λ n. n.body) same), sym (ap (λ n. n.log) same))
