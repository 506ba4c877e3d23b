-- ===== src/ParMap/Valid.antt =====
-- What holds of a ParMap between two operations, and the shard that a key belongs to.
use passive_bitcoin.Prelude.{
  ℕ, ◌%◌, ◌<◌, String, ◌≡◌, ◌∙◌, some, List, arith, codes, length, get_elem?, set, length-set,
  get_elem?-set_all, get_elem?-replicate_eq, subst, length-replicate, get_elem?-lt,
}
use native.Mathlib.Nat.{mod-lt}
use passive_bitcoin.Assoc
use passive_bitcoin.Assoc.{Assoc, lookup-nil}
use passive_bitcoin.ParMap.{ParMap, MapOption, sum32, offset32, get_shard, new, new_shard}

-- The place that the hash of a key selects among `count` shards.
abbrev pub home : ℕ → String → ℕ
home count key = sum32 offset32 (codes key) % count

-- A shard has each key once, and only keys that its place is home to.
pub record IsPlaced {V : Type 0} (count i : ℕ) (index : Assoc V) : Type 0 where
  pub unique : Assoc.HasUniqueKeys index
  pub at_home : (k : String) (v : V) → Assoc.lookup k index ≡ some v → home count k ≡ i

-- There is a shard for every hash value, and each shard is in order.
pub record IsValid {V : Type 0} (pm : ParMap V) : Type 0 where
  pub count_pos : 0 < pm.count
  pub count_shards : length pm.shards ≡ pm.count
  pub placed :
      (i : ℕ) (index : Assoc V) → get_elem? pm.shards i ≡ some index → IsPlaced pm.count i index

-- The map with one shard replaced.
abbrev pub replace : {V : Type 0} → ParMap V → ℕ → Assoc V → ParMap V
replace pm i index = record pm { shards = set pm.shards i index }

module _ {V : Type 0} where
  pub get_shard-home :
      (pm : ParMap V) (k : String) → IsValid pm → get_shard pm k ≡ some (home pm.count k)
  unfolding get_shard
  get_shard-home pm k v =
      let p : home pm.count k < pm.count = mod-lt (sum32 offset32 (codes k)) v.count_pos in
      ground (arith, v.count_pos, v.count_shards, p)

  -- The home shard of a key is there.
  pub home_shard :
      (pm : ParMap V) (k : String)
      → IsValid pm
      → (index : Assoc V) × (get_elem? pm.shards (home pm.count k) ≡ some index)
  home_shard pm k v =
      let p : home pm.count k < pm.count = mod-lt (sum32 offset32 (codes k)) v.count_pos in
      get_elem?-lt pm.shards (home pm.count k) (omega (arith, v.count_shards))

  pub home-lt : (pm : ParMap V) (k : String) → IsValid pm → home pm.count k < length pm.shards
  home-lt pm k v =
      let p : home pm.count k < pm.count = mod-lt (sum32 offset32 (codes k)) v.count_pos in
      omega (arith, v.count_shards)

  pub replace-IsValid :
      (pm : ParMap V) (i : ℕ) (index : Assoc V)
      → IsValid pm
      → IsPlaced pm.count i index
      → IsValid (replace pm i index)
  replace-IsValid pm i index v p = record {
    count_pos = v.count_pos;
    count_shards = length-set pm.shards i index ∙ v.count_shards;
    placed = get_elem?-set_all (IsPlaced pm.count) pm.shards i index v.placed p;
  }

  new_shard-IsPlaced : (n i : ℕ) → IsPlaced n i (new_shard {V = V})
  new_shard-IsPlaced n i = record { unique = tt; at_home = λ k v e. cc (lookup-nil {V = V} k) }

  -- A map built with a positive number of shards is valid, whatever its options did before.
  pub new-IsValid : (options : List (MapOption V)) → 0 < (new options).count → IsValid (new options)
  unfolding new
  new-IsValid options h = record {
    count_pos = h;
    count_shards = length-replicate _ _;
    placed = λ i index e.
        subst (IsPlaced _ i) (get_elem?-replicate_eq _ _ i index e) (new_shard-IsPlaced _ i);
  }
