-- ===== src/ParMap/Lookup.antt =====
-- The accesses of a ParMap by key, against the plain finite map that it stands for.
use passive_bitcoin.Prelude.{
  codes, codes, ℕ, ◌<◌, String, ◌≡◌, refl, false, Option, none, some, List, arith, str_eq, eq_iff,
  if◌then◌else◌, codes, get_elem?, is_some, get_elem?-set_self, get_elem?-set_ne,
  get_elem?-replicate,
}
use text.Mathlib.TextPositions.{eq_refl}
use native.Mathlib.Decide.{ℕ_discrete}
use native.Mathlib.Nat.{mod-lt}
use passive_bitcoin.Assoc
use passive_bitcoin.Assoc.{
  Assoc, lookup-insert, lookup-delete_ne, lookup-delete_self, insert-HasUniqueKeys,
  delete-HasUniqueKeys, lookup-delete-none, lookup-nil,
}
use passive_bitcoin.ParMap.{
  sum32, offset32, Stringer, ParMap, MapOption, new, new_shard, get, has_key, remove_key, insert,
}
use passive_bitcoin.ParMap.Valid.{
  home, IsPlaced, IsValid, replace, get_shard-home, home_shard, home-lt, replace-IsValid,
  new-IsValid,
}

module _ {V : Type 0} where
  abbrev lookup_at : String → Option (Assoc V) → Option V
  lookup_at k none = none
  lookup_at k (some index) = Assoc.lookup k index

  -- The finite map that a ParMap stands for.
  unfoldable pub view : ParMap V → String → Option V
  view pm k = lookup_at k (get_elem? pm.shards (home pm.count k))

  -- On a valid map Get does not panic and returns what the finite map has at the key.
  get-view : (pm : ParMap V) (k : String) → IsValid pm → get pm k ≡ some (view pm k)
  unfolding get view
  get-view pm k v = let (index, e) = home_shard pm k v in rw (get_shard-home pm k v, e)

  -- On a valid map HasKey does not panic and says whether the finite map has the key.
  pub has_key-view :
      (pm : ParMap V) (k : String) → IsValid pm → has_key pm k ≡ some (is_some (view pm k))
  unfolding has_key view
  has_key-view pm k v = let (index, e) = home_shard pm k v in rw (get_shard-home pm k v, e)

  -- A write at the home of `k` changes the finite map as it changes the shard.
  view-replace :
      (pm : ParMap V) (k j : String) (index index' : Assoc V)
      → IsValid pm
      → get_elem? pm.shards (home pm.count k) ≡ some index
      → IsPlaced pm.count (home pm.count k) index'
      → (str_eq k j ≡ false → Assoc.lookup j index' ≡ Assoc.lookup j index)
      → view (replace pm (home pm.count k) index') j
        ≡ (if str_eq k j then Assoc.lookup k index' else view pm j)
  unfolding view
  view-replace pm k j index index' v e p same =
      elim (ℕ_discrete (home pm.count k) (home pm.count j)) [
        | yes h ↦ ground (
          arith,
          eq_iff k j,
          get_elem?-set_self pm.shards (home pm.count k) index' (home-lt pm k v),
        )
        | no h ↦ ground (
          arith,
          eq_iff k j,
          get_elem?-set_ne pm.shards (home pm.count k) (home pm.count j) index' h,
        )
      ]

  IsPlaced-insert :
      (n i : ℕ) (k : String) (x : V) (index : Assoc V)
      → IsPlaced n i index
      → home n k ≡ i
      → IsPlaced n i (Assoc.insert k x index)
  IsPlaced-insert n i k x index p h = record {
    unique = insert-HasUniqueKeys k x index p.unique;
    at_home = λ j y e. ground (arith, lookup-insert k j x index, eq_iff k j, p.at_home j y);
  }

  IsPlaced-delete :
      (n i : ℕ) (k : String) (index : Assoc V)
      → IsPlaced n i index
      → IsPlaced n i (Assoc.delete k index)
  IsPlaced-delete n i k index p = record {
    unique = delete-HasUniqueKeys k index p.unique;
    at_home = λ j y e. ground (
      arith,
      lookup-delete_ne k j index,
      lookup-delete_self k index p.unique,
      eq_iff k j,
      p.at_home j y,
    );
  }

  -- RemoveKey succeeds on a valid map, keeps it valid, and forgets exactly the key.
  pub remove_key-view :
      (pm : ParMap V) (k : String)
      → IsValid pm
      → (q : ParMap V) × (remove_key pm k ≡ some q)
        × IsValid q
        × ((j : String) → view q j ≡ (if str_eq k j then none else view pm j))
  unfolding remove_key
  remove_key-view pm k v =
      let (index, e) = home_shard pm k v in
      let placed = v.placed (home pm.count k) index e in
      let p = IsPlaced-delete pm.count (home pm.count k) k index placed in
      (
        replace pm (home pm.count k) (Assoc.delete k index),
        rw (get_shard-home pm k v, e),
        replace-IsValid pm (home pm.count k) (Assoc.delete k index) v p,
        λ j.
            rw (view-replace pm k j index (Assoc.delete k index) v e p (lookup-delete_ne k j index))
              (rw (lookup-delete_self k index placed.unique)),
      )

module _ {V : Type 0} ⦃s : Stringer V⦄ where
  -- Insert succeeds on a valid map, keeps it valid, and stores the item at its text only.
  pub insert-view :
      (pm : ParMap V) (item : V)
      → IsValid pm
      → (q : ParMap V) × (insert pm item ≡ some q)
        × IsValid q
        × ((j : String) → view q j ≡ (if str_eq (s.string item) j then some item else view pm j))
  unfolding insert
  insert-view pm item v =
      let k = s.string item in
      let (index, e) = home_shard pm k v in
      let index' = Assoc.insert k item index in
      let p = IsPlaced-insert pm.count (home pm.count k) k item index (v.placed _ index e) refl in
      (
        replace pm (home pm.count k) index',
        rw (get_shard-home pm k v, e),
        replace-IsValid pm (home pm.count k) index' v p,
        λ j.
            rw
              (view-replace pm k j index index' v e p
                (λ d. ground (arith, lookup-insert k j item index, d)))
              (simp (lookup-insert, eq_refl)),
      )

module _ {V : Type 0} where
  -- A new map with a positive number of shards is valid and has no item.
  pub new-view :
      (options : List (MapOption V))
      → 0 < (new options).count
      → IsValid (new options) × ((k : String) → view (new options) k ≡ none)
  unfolding new view
  new-view options h = (
    new-IsValid options h,
    λ k.
        let n = (new options).count in
        rw
          (get_elem?-replicate n (new_shard {V = V}) (home n k)
            (mod-lt (sum32 offset32 (codes k)) h))
          (lookup-nil k),
  )
