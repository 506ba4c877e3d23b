-- ===== src/Repository/Backup.antt =====
-- save and restore of repository/repository.go, with GobEncode and GobDecode of repository/node.go.
use mathlib.Core.Option
use mathlib.Core.List.{foldl}
use passive_bitcoin.Prelude.{
  ◌≡◌, refl, ◌∙◌, String, Bool, true, Option, none, some, List, [], ◌∷◌, arith, eq_iff, inl, inr,
  some-injective, Bool-cases, subst,
}
use passive_bitcoin.Assoc
use passive_bitcoin.Assoc.{Assoc, lookup-insert}
use passive_bitcoin.Repository.{
  Repository, Node, Contents, SaveIo, gob_encode, gob_decode, encode_index, decode_index, save,
  restore, new, Setting, apply, defaults, add_range, reserved, IpRange, set_seeds_list,
  set_seeds_port, set_backup_path, set_backup_rate, set_node_limit,
}

-- What is left of a node that was encoded and decoded: the count of sightings is not encoded.
abbrev pub unseen : Node → Node
unseen n = record n { num_seen = 0 }

-- The operations of `save` all succeed.
abbrev pub save_ok : SaveIo
save_ok = record { truncate_ok = true; seek_ok = true; encode_err = none }

-- Decoding what GobEncode wrote for one node into another gives the first, with the count of
-- sightings of the second; what follows in the stream does not matter.
pub gob_decode-encode :
    (n m : Node) → gob_decode (gob_encode n) m ≡ some (record n { num_seen = m.num_seen })
unfolding gob_decode gob_encode
gob_decode-encode n m = refl

abbrev first : Option Node → Option Node → Option Node
first none o = o
first (some n) o = some n

first-none : (o : Option Node) → first o none ≡ o
first-none none = refl
first-none (some n) = refl

lookup-decode_index :
    (index acc : Assoc Node) (k : String)
    → Assoc.HasUniqueKeys index
    → Assoc.lookup k (decode_index (encode_index index) acc)
      ≡ first (Option.map unseen (Assoc.lookup k index)) (Assoc.lookup k acc)
unfolding decode_index encode_index Assoc.lookup gob_decode gob_encode
lookup-decode_index [] acc k u = refl
lookup-decode_index ((j, n) ∷ index) acc k u = ground (
  arith,
  u.0,
  eq_iff j k,
  lookup-insert j k (unseen n) acc,
  lookup-decode_index index (Assoc.insert j (unseen n) acc) k u.1,
)

-- A successful save followed by a restore into an empty index gives, at each key, the node that was
-- saved there with its count of sightings reset to zero, and no other.
pub restore-save :
    (repo : Repository) (old : Contents) (k : String)
    → repo.file ≡ some old
    → Assoc.HasUniqueKeys repo.node_index
    → Assoc.lookup k (restore true (record (save save_ok repo) { node_index = [] })).node_index
      ≡ Option.map unseen (Assoc.lookup k repo.node_index)
unfolding save restore Assoc.lookup
restore-save repo old k there u =
    let saved : (save save_ok repo).file ≡ some (some (encode_index repo.node_index)) =
      rw (there, save) in
    rw (saved, restore)
      (lookup-decode_index repo.node_index [] k u
        ∙ first-none (Option.map unseen (Assoc.lookup k repo.node_index)))

add_ranges-index :
    (repo : Repository) (rs : List IpRange)
    → ((foldl add_range repo rs).node_index ≡ repo.node_index)
      × ((foldl add_range repo rs).file ≡ repo.file)
unfolding add_range
add_ranges-index repo [] = (refl, refl)
add_ranges-index repo (r ∷ rs) = add_ranges-index (add_range repo r) rs

apply-node_index :
    (repo : Repository) (settings : List Setting)
    → (foldl apply repo settings).node_index ≡ repo.node_index
unfolding apply
apply-node_index repo [] = refl
apply-node_index repo (setting ∷ rest) =
    apply-node_index (apply repo setting) rest ∙ one repo setting
  where
    one :
        (repo : Repository) (setting : Setting) → (apply repo setting).node_index ≡ repo.node_index
    one repo (set_seeds_list seeds) = refl
    one repo (set_seeds_port port) = refl
    one repo (set_backup_path path) = refl
    one repo (set_backup_rate rate) = refl
    one repo (set_node_limit limit) = refl

-- New leaves an empty backup file, whatever the path held before: a restore in the repository that
-- it returns finds no node.
restore-new :
    (create : String → Bool) (settings : List Setting) (repo : Repository) (seek_ok : Bool)
    → new create settings ≡ some repo
    → (restore seek_ok repo).node_index ≡ []
unfolding new restore
restore-new create settings repo seek_ok h =
    let base = foldl apply defaults settings in
    let opened = record base { file = some none } in
    let built = foldl add_range opened reserved in
    elim (Bool-cases (create base.backup_path)) [
      | inl y ↦
          let same = some-injective built repo (rw y at h) in
          subst (λ (r : Repository). (restore seek_ok r).node_index ≡ []) same
            (rw ((add_ranges-index opened reserved).1, restore)
              ((add_ranges-index opened reserved).0 ∙ apply-node_index defaults settings))
      | inr n ↦ cc (n, h)
    ]
