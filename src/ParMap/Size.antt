-- ===== src/ParMap/Size.antt =====
-- Count and Iter of a ParMap: what they deliver, and how the operations change it.
use passive_bitcoin.Prelude.{
  In-append, ℕ, zero, suc, ◌+◌, String, ◌≡◌, refl, sym, ap, ◌∙◌, inl, inr, some, List, [], ◌∷◌,
  arith, str_eq, eq_iff, if◌then◌else◌, length, get_elem?, set, is_some, Bool-cases, some-injective,
  length-append, In, ◌↔◌, subst,
}
use text.Mathlib.TextPositions.{eq_refl}
use passive_bitcoin.Assoc
use passive_bitcoin.Assoc.{Assoc, lookup-insert, length-insert, length-delete, lookup-nil}
use passive_bitcoin.ParMap.{
  Stringer, ParMap, remove_key, insert, size, sizes, iter, values, all_values,
}
use passive_bitcoin.ParMap.Valid.{home, IsValid, replace, get_shard-home, home_shard}
use passive_bitcoin.ParMap.Lookup.{view}

module _ {V : Type 0} where
  sizes-set :
      (shards : List (Assoc V)) (i : ℕ) (index index' : Assoc V)
      → get_elem? shards i ≡ some index
      → sizes (set shards i index') + length index ≡ sizes shards + length index'
  sizes-set [] i index index' e = cc
  sizes-set (s ∷ shards) zero index index' e = ground arith
  sizes-set (s ∷ shards) (suc i) index index' e = omega (arith, sizes-set shards i index index' e)

  length-values : (index : Assoc V) → length (values index) ≡ length index
  length-values [] = refl
  length-values ((k, v) ∷ index) = ap suc (length-values index)

  length-all_values : (shards : List (Assoc V)) → length (all_values shards) ≡ sizes shards
  length-all_values [] = refl
  length-all_values (index ∷ rest) = omega (
    arith,
    length-append (values index) (all_values rest),
    length-values index,
    length-all_values rest,
  )

  -- Count is the number of items that Iter delivers.
  pub length-iter : (pm : ParMap V) → length (iter pm) ≡ size pm
  unfolding iter size
  length-iter pm = length-all_values pm.shards

  values_sound :
      (x : V) (index : Assoc V)
      → Assoc.HasUniqueKeys index
      → In x (values index)
      → (k : String) × (Assoc.lookup k index ≡ some x)
  unfolding Assoc.lookup
  values_sound x [] u h = absurd h
  values_sound x ((k, v) ∷ index) u (inl e) = (k, rw eq_refl (ap some (sym e)))
  values_sound x ((k, v) ∷ index) u (inr m) =
      let (j, e) = values_sound x index u.1 m in (j, ground (arith, eq_iff k j, u.0, e))

  values_complete :
      (x : V) (k : String) (index : Assoc V) → Assoc.lookup k index ≡ some x → In x (values index)
  unfolding Assoc.lookup
  values_complete x k [] e = cc
  values_complete x k ((j, v) ∷ index) e = elim (Bool-cases (str_eq j k)) [
    | inl h ↦ inl (sym (some-injective v x (rw h at e)))
    | inr h ↦ inr (values_complete x k index (rw h at e))
  ]

  iter_at :
      (x : V) (shards : List (Assoc V)) (i : ℕ) (index : Assoc V)
      → get_elem? shards i ≡ some index
      → In x (values index)
      → In x (all_values shards)
  iter_at x [] i index e m = cc
  iter_at x (s ∷ shards) zero index e m =
      (In-append x (values s) (all_values shards)).1
        (inl (subst (λ t. In x (values t)) (sym (some-injective s index e)) m))
  iter_at x (s ∷ shards) (suc i) index e m =
      (In-append x (values s) (all_values shards)).1 (inr (iter_at x shards i index e m))

  iter_from :
      (x : V) (shards : List (Assoc V))
      → In x (all_values shards)
      → (i : ℕ) × (index : Assoc V) × (get_elem? shards i ≡ some index) × In x (values index)
  iter_from x [] m = absurd m
  iter_from x (s ∷ shards) m = elim ((In-append x (values s) (all_values shards)).0 m) [
    | inl h ↦ (0, s, refl, h)
    | inr h ↦ let (i, index, e, n) = iter_from x shards h in (suc i, index, e, n)
  ]

  view-at :
      (pm : ParMap V) (k : String) (i : ℕ) (index : Assoc V)
      → home pm.count k ≡ i
      → get_elem? pm.shards i ≡ some index
      → view pm k ≡ Assoc.lookup k index
  unfolding view
  view-at pm k i index h e = rw h (rw e)

  -- Iter delivers exactly the items that the finite map has at some key.
  pub iter_iff-view :
      (pm : ParMap V) (x : V) → IsValid pm → In x (iter pm) ↔ ((k : String) × (view pm k ≡ some x))
  unfolding iter
  iter_iff-view pm x v = (
    λ m.
        let (i, index, e, n) = iter_from x pm.shards m in
        let (k, found) = values_sound x index (v.placed i index e).unique n in
        (k, view-at pm k i index ((v.placed i index e).at_home k x found) e ∙ found),
    λ h.
        let (index, e) = home_shard pm h.0 v in
        iter_at x pm.shards (home pm.count h.0) index e
          (values_complete x h.0 index (sym (view-at pm h.0 _ index refl e) ∙ h.1)),
  )

  -- RemoveKey lowers Count by one where the key is present, and leaves it where it is not.
  size-remove_key :
      (pm q : ParMap V) (k : String)
      → IsValid pm
      → remove_key pm k ≡ some q
      → size pm ≡ (if is_some (view pm k) then size q + 1 else size q)
  unfolding remove_key size
  size-remove_key pm q k v r =
      let (index, e) = home_shard pm k v in
      let shape : some (replace pm (home pm.count k) (Assoc.delete k index)) ≡ some q =
        rw (get_shard-home pm k v, e) at r in
      ground (
        arith,
        shape,
        view-at pm k (home pm.count k) index refl e,
        sizes-set pm.shards (home pm.count k) index (Assoc.delete k index) e,
        length-delete k index,
      )

module _ {V : Type 0} ⦃s : Stringer V⦄ where
  -- Insert raises Count by one where the key is new, and leaves it where an item is replaced.
  size-insert :
      (pm q : ParMap V) (item : V)
      → IsValid pm
      → insert pm item ≡ some q
      → size q ≡ (if is_some (view pm (s.string item)) then size pm else size pm + 1)
  unfolding insert size
  size-insert pm q item v r =
      let k = s.string item in
      let (index, e) = home_shard pm k v in
      let shape : some (replace pm (home pm.count k) (Assoc.insert k item index)) ≡ some q =
        rw (get_shard-home pm k v, e) at r in
      ground (
        arith,
        shape,
        view-at pm k (home pm.count k) index refl e,
        sizes-set pm.shards (home pm.count k) index (Assoc.insert k item index) e,
        length-insert k item index,
      )
