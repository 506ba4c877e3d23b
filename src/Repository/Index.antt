-- ===== src/Repository/Index.antt =====
-- What the loop of goAddresses keeps of the index, and what each event does to it.
use mathlib.Core.Option
use passive_bitcoin.Prelude.{
  ◌+◌, ◌^◌, ◌≤◌, ◌<◌, String, ◌≡◌, refl, ap, ◌∙◌, Bool, false, none, some, List, [], ◌∷◌, arith,
  str_eq, eq_iff, if◌then◌else◌, length, is_some, Bool-cases, Option-cases, inl, inr, leb,
}
use passive_bitcoin.Assoc
use passive_bitcoin.Assoc.{Assoc, lookup-insert, length-insert, insert-HasUniqueKeys}
use passive_bitcoin.Net.{TcpAddr}
use passive_bitcoin.Repository.{Repository, Node, new_node}
use passive_bitcoin.Repository.Addresses.{
  Event, sig_closed, backup_tick, poll_tick, discovered, attempted, connected, succeeded, ends,
  goes_on, u32, change, filtered, discover, mark_attempted, mark_connected, mark_succeeded, step,
  run, runs_on,
}

-- The node at a key after `change`: changed at the key, if it is there, and the same elsewhere.
pub lookup-change :
    (repo : Repository) (k j : String) (f : Node → Node)
    → Assoc.lookup j (change repo k f).node_index ≡ (
        if str_eq k j
        then Option.map f (Assoc.lookup j repo.node_index)
        else Assoc.lookup j repo.node_index)
unfolding change
lookup-change repo k j f = elim (Option-cases (Assoc.lookup k repo.node_index)) [
  | inl e ↦ ground (arith, e, eq_iff k j)
  | inr (n, e) ↦ ground (arith, e, lookup-insert k j (f n) repo.node_index, eq_iff k j)
]

module _ (addr_string : TcpAddr → String) where
  -- Each key stands once and is the text of its node's address, and the node limit holds.
  pub record IsValid (repo : Repository) : Type 0 where
    pub unique : Assoc.HasUniqueKeys repo.node_index
    pub keyed :
        (k : String) (n : Node) → Assoc.lookup k repo.node_index ≡ some n → addr_string n.addr ≡ k
    pub within : length repo.node_index ≤ repo.node_limit
    pub limit_fits : repo.node_limit < 2 ^ 32

  -- A write at a key that is there, or while there is room, of a node that has the key's text.
  insert-IsValid :
      (repo : Repository) (k : String) (n : Node)
      → IsValid repo
      → addr_string n.addr ≡ k
      → (is_some (Assoc.lookup k repo.node_index) ≡ false
          → length repo.node_index < repo.node_limit)
      → IsValid (record repo { node_index = Assoc.insert k n repo.node_index })
  insert-IsValid repo k n v e room = record {
    unique = insert-HasUniqueKeys k n repo.node_index v.unique;
    keyed = λ j m h. ground (arith, lookup-insert k j n repo.node_index, eq_iff k j, v.keyed j m);
    within = ground (arith, length-insert k n repo.node_index, v.within, room);
    limit_fits = v.limit_fits;
  }

  change-IsValid :
      (repo : Repository) (k : String) (f : Node → Node)
      → ((n : Node) → (f n).addr ≡ n.addr)
      → IsValid repo
      → IsValid (change repo k f)
  unfolding change
  change-IsValid repo k f same v = elim (Option-cases (Assoc.lookup k repo.node_index)) [
    | inl e ↦ rw (e, change) v
    | inr (n, e) ↦
        rw (e, change)
          (insert-IsValid repo k (f n) v (ap addr_string (same n) ∙ v.keyed k n e)
            (λ h. cc (ap is_some e)))
  ]

  module _ (repo : Repository) (addr : TcpAddr) where
    abbrev pub seen_again : Node → Repository
    seen_again n =
        let again = record n { num_seen = u32 (n.num_seen + 1) } in
        record repo { node_index = Assoc.insert (addr_string addr) again repo.node_index }

    abbrev pub with_new : Repository
    with_new = record repo {
      node_index = Assoc.insert (addr_string addr) (new_node addr) repo.node_index;
    }

    abbrev pub is_full : Bool
    is_full = leb repo.node_limit (u32 (length repo.node_index))

    pub discover-known :
        (n : Node)
        → Assoc.lookup (addr_string addr) repo.node_index ≡ some n
        → discover addr_string repo addr ≡ (seen_again n, goes_on)
    unfolding discover
    discover-known n e = rw (e, discover)

    pub discover-unknown :
        Assoc.lookup (addr_string addr) repo.node_index ≡ none
        → discover addr_string repo addr ≡ (
            if is_full
            then (repo, ends)
            else if filtered repo addr
            then (repo, goes_on)
            else (with_new, goes_on))
    unfolding discover
    discover-unknown e = rw (e, discover)

    discover-IsValid : IsValid repo → IsValid (discover addr_string repo addr).0
    discover-IsValid v = elim (Option-cases (Assoc.lookup (addr_string addr) repo.node_index)) [
      | inr (n, e) ↦ rw (discover-known n e) (
          insert-IsValid repo (addr_string addr) (record n { num_seen = u32 (n.num_seen + 1) }) v
            (v.keyed (addr_string addr) n e) (λ h. cc (ap is_some e)))
      | inl e ↦ rw (discover-unknown e) (elim (Bool-cases is_full) [
        | inl full ↦ rw full v
        | inr room ↦ rw room (elim (Bool-cases (filtered repo addr)) [
          | inl out ↦ rw out v
          | inr kept ↦ rw kept (
              insert-IsValid repo (addr_string addr) (new_node addr) v (unfold new_node in refl)
                (λ h. ground (arith, v.within, v.limit_fits, room)))
        ])
      ])
    ]

  -- Every event keeps the index valid.
  step-IsValid :
      (repo : Repository) (e : Event) → IsValid repo → IsValid (step addr_string repo e).0
  unfolding step
  step-IsValid repo sig_closed v = v
  step-IsValid repo backup_tick v = v
  step-IsValid repo poll_tick v = v
  step-IsValid repo (discovered addr) v = discover-IsValid repo addr v
  step-IsValid repo (attempted addr now) v =
      change-IsValid repo (addr_string addr) (mark_attempted now) (λ n. refl) v
  step-IsValid repo (connected addr now) v =
      change-IsValid repo (addr_string addr) (mark_connected now) (λ n. refl) v
  step-IsValid repo (succeeded addr now) v =
      change-IsValid repo (addr_string addr) (mark_succeeded now) (λ n. refl) v

  -- What every event keeps, the loop keeps.
  pub run_induction :
      (P : Repository → Type 0)
      → ((repo : Repository) (e : Event) → P repo → P (step addr_string repo e).0)
      → (repo : Repository) (es : List Event) → P repo
      → P (run addr_string repo es).0
  unfolding run
  run_induction P keep repo [] p = p
  run_induction P keep repo (e ∷ es) p = elim (Bool-cases (runs_on (step addr_string repo e).1)) [
    | inl on ↦ rw on (run_induction P keep (step addr_string repo e).0 es (keep repo e p))
    | inr off ↦ rw off (keep repo e p)
  ]

  -- From a valid index, whatever events arrive, the index stays valid: each key stands once, under
  -- the text of its node's address, and the index never outgrows the node limit.
  pub run-IsValid :
      (repo : Repository) (es : List Event) → IsValid repo → IsValid (run addr_string repo es).0
  run-IsValid = run_induction IsValid step-IsValid
