-- ===== src/ParMap.antt =====
-- parmap/parmap.go and parmap/shard.go: a map of items by their text, in shards chosen by the
-- FNV-1 hash of the key. A shard is locked for each access, so an access is one step; `none` is a
-- run-time panic. The proofs are in the modules below.
pub mod Valid
pub mod Lookup
pub mod Size
pub mod Order
use mathlib.Core.List.{foldl, map}
use passive_bitcoin.Prelude.{
  ℕ, ◌+◌, ◌*◌, ◌%◌, bit_xor, String, Bool, Option, none, some, List, [], ◌∷◌, ◌++◌, ltb, ◌==◌,
  if◌then◌else◌, is_some, ◌>>=◌, codes, length, get_elem?, set, replicate,
}
use passive_bitcoin.Assoc
use passive_bitcoin.Assoc.{Assoc}

-- fmt.Stringer
pub record Stringer (V : Type 0) : Type 0 where
  pub string : V → String

-- fnv.New32 and Write: multiply by the prime, then exclusive or with the byte
unfoldable pub sum32 : ℕ → List ℕ → ℕ
sum32 h [] = h
sum32 h (c ∷ cs) = sum32 (bit_xor (h * 16777619 % 4294967296) c) cs

abbrev pub offset32 : ℕ
offset32 = 2166136261

pub record ParMap (V : Type 0) : Type 0 where
  pub count : ℕ  -- uint32
  pub shards : List (Assoc V)

-- newShard
abbrev pub new_shard : {V : Type 0} → Assoc V
new_shard = []

-- An option is a function on the map, as in the source.
abbrev pub MapOption : Type 0 → Type 0
MapOption V = ParMap V → ParMap V

module _ {V : Type 0} where
  -- New
  unfoldable pub new : List (MapOption V) → ParMap V
  new options =
      let pm = foldl (λ pm option. option pm) (record { count = 32; shards = [] }) options in
      record pm { shards = replicate pm.count new_shard }

  -- SetShardCount
  unfoldable pub set_shard_count : ℕ → MapOption V
  set_shard_count count pm = record pm { count = count }

  -- getShard: the place of the shard; the remainder by zero and a place out of range panic.
  unfoldable pub get_shard : ParMap V → String → Option ℕ
  get_shard pm key =
      let i = sum32 offset32 (codes key) % pm.count in
      if pm.count == 0 then none else if ltb i (length pm.shards) then some i else none

  -- Get
  unfoldable pub get : ParMap V → String → Option (Option V)
  get pm key = do i ← get_shard pm key; index ← get_elem? pm.shards i; some (Assoc.lookup key index)

  -- HasKey
  unfoldable pub has_key : ParMap V → String → Option Bool
  has_key pm key = do
    i ← get_shard pm key
    index ← get_elem? pm.shards i
    some (is_some (Assoc.lookup key index))

  -- RemoveKey
  unfoldable pub remove_key : ParMap V → String → Option (ParMap V)
  remove_key pm key = do
    i ← get_shard pm key
    index ← get_elem? pm.shards i
    some (record pm { shards = set pm.shards i (Assoc.delete key index) })

  -- The loop of Count
  abbrev pub sizes : List (Assoc V) → ℕ
  sizes [] = 0
  sizes (index ∷ rest) = length index + sizes rest

  -- Count
  unfoldable pub size : ParMap V → ℕ
  size pm = sizes pm.shards

  -- The values of one shard, in an order of iteration.
  abbrev pub values : Assoc V → List V
  values [] = []
  values ((k, v) ∷ index) = v ∷ values index

  -- The loop of Iter
  abbrev pub all_values : List (Assoc V) → List V
  all_values [] = []
  all_values (index ∷ rest) = values index ++ all_values rest

  -- Iter: what the channel delivers before it is closed.
  unfoldable pub iter : ParMap V → List V
  iter pm = all_values pm.shards

module _ {V : Type 0} ⦃s : Stringer V⦄ where
  -- Insert
  unfoldable pub insert : ParMap V → V → Option (ParMap V)
  insert pm item =
      let key = s.string item in
      do
        i ← get_shard pm key
        index ← get_elem? pm.shards i
        some (record pm { shards = set pm.shards i (Assoc.insert key item index) })

  -- Has
  unfoldable pub has : ParMap V → V → Option Bool
  unfolding has_key
  has pm item = has_key pm (s.string item)

  -- Remove
  unfoldable pub remove : ParMap V → V → Option (ParMap V)
  unfolding remove_key
  remove pm item = remove_key pm (s.string item)
