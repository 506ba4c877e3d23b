-- ===== src/Tests/ParMapRuns.antt =====
-- Runs of the maps of parmap/parmap.go and of the tracker of tracker/tracker.go, with texts as the
-- items.
use Prim.Native.Nat
use passive_bitcoin.Prelude.{
  ℕ, String, some, [], ◌∷◌, ◌≡◌, refl, arith, get_elem?, subst, some-injective, eq_iff, str_eq,
  if◌then◌else◌, is_some,
}
use passive_bitcoin.Assoc
use passive_bitcoin.Assoc.{Assoc}
use passive_bitcoin.ParMap
use passive_bitcoin.ParMap.{ParMap}
use passive_bitcoin.ParMap.Valid.{IsValid, IsPlaced, home}
use passive_bitcoin.ParMap.Lookup.{view, has_key-view, insert-view}
use passive_bitcoin.ParMap.Order.{ValidMap, AbstractMap, insert_all, insert_all-Perm}
use mathlib.Core.Quot
use mathlib.Core.List.{Permᴰ}
use passive_bitcoin.Tests.{text_stringer}

-- A map of one shard with one peer in it.
abbrev pub one_peer : ParMap String
one_peer = record { count = 1; shards = (("a", "a") ∷ []) ∷ [] }

one_peer-IsPlaced :
    (i : ℕ) (index : Assoc String) → get_elem? one_peer.shards i ≡ some index → IsPlaced 1 i index
unfolding Assoc.lookup
one_peer-IsPlaced Nat.zero index e =
    subst (IsPlaced 1 0) (some-injective (("a", "a") ∷ []) index e)
      (record { unique = (unfold Assoc.lookup in refl, tt); at_home = λ k v h. omega arith })
one_peer-IsPlaced (Nat.suc i) index e = ground arith

pub one_peer-IsValid : IsValid one_peer
one_peer-IsValid = record {
  count_pos = omega arith;
  count_shards = refl;
  placed = one_peer-IsPlaced;
}

pub one_peer-keyed : (k p : String) → view one_peer k ≡ some p → p ≡ k
unfolding view Assoc.lookup
one_peer-keyed k p e =
    let first : home 1 k ≡ 0 = omega arith in
    let found = rw first at e in ground (arith, found, eq_iff "a" k)

has_key-view_example : ParMap.has_key one_peer "a" ≡ some (is_some (view one_peer "a"))
has_key-view_example = has_key-view one_peer "a" one_peer-IsValid

insert-view_example :
    (q : ParMap String) × (ParMap.insert one_peer "b" ≡ some q)
    × IsValid q
    × ((j : String) → view q j ≡ (if str_eq "b" j then some "b" else view one_peer j))
unfolding text_stringer
insert-view_example = insert-view one_peer "b" one_peer-IsValid

-- The map with a second peer.
abbrev two_peers : ParMap String
two_peers = record { count = 1; shards = (("a", "a") ∷ ("b", "b") ∷ []) ∷ [] }

b_in : ParMap.insert one_peer "b" ≡ some two_peers
unfolding ParMap.insert Assoc.insert text_stringer ParMap.sum32 ParMap.get_shard
b_in = refl

-- Two items inserted in two orders
insert_all-Perm_example :
    (b c : ValidMap String) × (insert_all ("b" ∷ "c" ∷ []) one_peer ≡ some b.0)
    × (insert_all ("c" ∷ "b" ∷ []) one_peer ≡ some c.0)
    × (Path (AbstractMap String) (Quot.mk b) (Quot.mk c))
unfolding text_stringer
insert_all-Perm_example =
    insert_all-Perm (one_peer, one_peer-IsValid) ("b" ∷ "c" ∷ []) ("c" ∷ "b" ∷ []) (λ x y i j e. e)
      ∣ Permᴰ.swap refl refl ∣₁
