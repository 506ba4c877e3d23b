-- ===== src/Assoc.antt =====
-- Go's `map[string]V`, as an association list with each key once. The order of the entries stands
-- for an order of iteration, which Go leaves open.
use passive_bitcoin.Prelude.{
  ◌+◌, String, ◌≡◌, refl, false, Option, none, some, List, [], ◌∷◌, arith, str_eq, eq_iff,
  if◌then◌else◌, is_some, length,
}

abbrev pub Assoc {ℓ} : Type ℓ → Type ℓ
Assoc V = List (String × V)

module _ {ℓ} {V : Type ℓ} where
  -- v, ok := m[key]
  unfoldable pub lookup : String → Assoc V → Option V
  lookup key [] = none
  lookup key ((name, value) ∷ rest) =
      let further = lookup key rest in if str_eq name key then some value else further

  -- m[key] = value
  unfoldable pub insert : String → V → Assoc V → Assoc V
  insert key value [] = (key, value) ∷ []
  insert key value ((name, old) ∷ rest) =
      let further = insert key value rest in
      if str_eq name key then (key, value) ∷ rest else (name, old) ∷ further

  -- delete(m, key)
  unfoldable pub delete : String → Assoc V → Assoc V
  delete key [] = []
  delete key ((name, old) ∷ rest) =
      let further = delete key rest in if str_eq name key then rest else (name, old) ∷ further

  -- Each key stands once.
  abbrev pub HasUniqueKeys : Assoc V → Type ℓ
  HasUniqueKeys [] = Unit {ℓ}
  HasUniqueKeys ((name, value) ∷ rest) = (lookup name rest ≡ none) × HasUniqueKeys rest

  pub lookup-nil : (k : String) → lookup k [] ≡ none
  unfolding lookup
  lookup-nil k = refl

  pub lookup-insert :
      (key other : String) (value : V) (m : Assoc V)
      → lookup other (insert key value m)
        ≡ (if str_eq key other then some value else lookup other m)
  unfolding insert lookup
  lookup-insert key other value [] = refl
  lookup-insert key other value ((name, old) ∷ rest) =
      let hyp = lookup-insert key other value rest in
      ground (arith, hyp, eq_iff name other, eq_iff name key, eq_iff key other)

  pub lookup-delete_ne :
      (k j : String) (m : Assoc V) → str_eq k j ≡ false → lookup j (delete k m) ≡ lookup j m
  unfolding lookup delete
  lookup-delete_ne k j [] h = refl
  lookup-delete_ne k j ((i, w) ∷ m) h =
      ground (arith, eq_iff k j, eq_iff i k, eq_iff i j, lookup-delete_ne k j m h)

  pub lookup-delete_self :
      (k : String) (m : Assoc V) → HasUniqueKeys m → lookup k (delete k m) ≡ none
  unfolding lookup delete
  lookup-delete_self k [] u = refl
  lookup-delete_self k ((i, w) ∷ m) u = ground (arith, eq_iff i k, lookup-delete_self k m u.1)

  pub insert-HasUniqueKeys :
      (k : String) (v : V) (m : Assoc V) → HasUniqueKeys m → HasUniqueKeys (insert k v m)
  unfolding insert lookup
  insert-HasUniqueKeys k v [] u = (refl, tt)
  insert-HasUniqueKeys k v ((i, w) ∷ m) u =
      ground (arith, eq_iff i k, eq_iff k i, lookup-insert k i v m, insert-HasUniqueKeys k v m u.1)

  pub lookup-delete-none :
      (k j : String) (m : Assoc V) → lookup j m ≡ none → lookup j (delete k m) ≡ none
  unfolding lookup delete
  lookup-delete-none k j [] h = refl
  lookup-delete-none k j ((i, w) ∷ m) h =
      ground (arith, eq_iff i k, eq_iff i j, lookup-delete-none k j m)

  pub delete-HasUniqueKeys :
      (k : String) (m : Assoc V) → HasUniqueKeys m → HasUniqueKeys (delete k m)
  unfolding delete lookup
  delete-HasUniqueKeys k [] u = tt
  delete-HasUniqueKeys k ((i, w) ∷ m) u =
      ground (arith, eq_iff i k, lookup-delete-none k i m u.0, delete-HasUniqueKeys k m u.1)

  pub length-insert :
      (k : String) (v : V) (m : Assoc V)
      → length (insert k v m) ≡ (if is_some (lookup k m) then length m else length m + 1)
  unfolding lookup insert
  length-insert k v [] = refl
  length-insert k v ((i, w) ∷ m) = ground (arith, eq_iff i k, length-insert k v m)

  pub length-delete :
      (k : String) (m : Assoc V)
      → length m ≡ (if is_some (lookup k m) then length (delete k m) + 1 else length (delete k m))
  unfolding lookup delete
  length-delete k [] = refl
  length-delete k ((i, w) ∷ m) = ground (arith, eq_iff i k, length-delete k m)
