-- ===== src/Repository/Growth.antt =====
-- What goAddresses adds to the index, and when it stops.
use passive_bitcoin.Prelude.{
  ◌+◌, ◌<◌, String, ◌≡◌, refl, ◌∙◌, Bool, true, false, Option, none, some, List, ◌∷◌, arith, str_eq,
  eq_iff, if◌then◌else◌, length, Option-cases, inl, inr, subst,
}
use passive_bitcoin.Assoc
use passive_bitcoin.Assoc.{Assoc, lookup-insert, length-insert, insert-HasUniqueKeys}
use passive_bitcoin.Net.{TcpAddr, to4}
use passive_bitcoin.Repository.{Repository, Node, Setting, new, new_node}
use passive_bitcoin.Repository.Addresses.{
  Event, sig_closed, backup_tick, poll_tick, discovered, attempted, connected, succeeded, u32,
  filtered, discover, step, run,
}
use passive_bitcoin.Repository.Ranges.{any-reserved, new-invalid_range}
use passive_bitcoin.Repository.Index.{
  IsValid, discover-known, discover-unknown, run_induction, is_full,
}

-- What an address that is seen makes of its entry.
abbrev pub seen_once_more : TcpAddr → Option Node → Option Node
seen_once_more addr none = some (new_node addr)
seen_once_more addr (some n) = some (record n { num_seen = u32 (n.num_seen + 1) })

module _ (addr_string : TcpAddr → String) where
  -- What a new repository has; no event changes its limit or its ranges.
  step-invalid_range :
      (repo : Repository) (e : Event)
      → (step addr_string repo e).0.invalid_range ≡ repo.invalid_range
  unfolding step
  step-invalid_range repo sig_closed = refl
  step-invalid_range repo backup_tick = refl
  step-invalid_range repo poll_tick = refl
  step-invalid_range repo (discovered addr) = unfold discover in ground arith
  step-invalid_range repo (attempted addr now) = ground arith
  step-invalid_range repo (connected addr now) = ground arith
  step-invalid_range repo (succeeded addr now) = ground arith

  -- A repository that New returned drops no IPv4 address as reserved, after any events.
  pub run-filtered :
      (create : String → Bool) (settings : List Setting) (repo : Repository)
      → new create settings ≡ some repo
      → (es : List Event) (addr : TcpAddr) → filtered (run addr_string repo es).0 addr ≡ false
  unfolding filtered
  run-filtered create settings repo built es addr =
      let kept =
        run_induction addr_string (λ r. r.invalid_range ≡ repo.invalid_range)
          (λ r e p. step-invalid_range r e ∙ p) repo es refl in
      let ranges = kept ∙ new-invalid_range create settings repo built in
      elim (Option-cases (to4 addr.ip)) [
        | inl e ↦ rw (e, filtered)
        | inr (short, e) ↦ rw (e, filtered, ranges) (any-reserved addr.ip short e)
      ]

  -- In a full index an unknown address ends the goroutine: whatever is sent later, the index does
  -- not change any more.
  run-full :
      (repo : Repository) (addr : TcpAddr) (es : List Event)
      → IsValid addr_string repo
      → Assoc.lookup (addr_string addr) repo.node_index ≡ none
      → length repo.node_index ≡ repo.node_limit
      → run addr_string repo (discovered addr ∷ es) ≡ (repo, false)
  unfolding run step
  run-full repo addr es v unknown full =
      let ended : is_full addr_string repo addr ≡ true = ground (arith, v.limit_fits, full) in
      rw (discover-unknown addr_string repo addr unknown, ended)

  lookup-discover :
      (r : Repository) (addr : TcpAddr) (j : String)
      → filtered r addr ≡ false
      → u32 (length r.node_index) < r.node_limit
      → Assoc.lookup j (discover addr_string r addr).0.node_index ≡ (
          if str_eq (addr_string addr) j
          then seen_once_more addr (Assoc.lookup j r.node_index)
          else Assoc.lookup j r.node_index)
  lookup-discover r addr j kept room =
      elim (Option-cases (Assoc.lookup (addr_string addr) r.node_index)) [
        | inr (n, e) ↦ rw (discover-known addr_string r addr n e) (
            ground (
              arith,
              e,
              eq_iff (addr_string addr) j,
              lookup-insert (addr_string addr) j (record n { num_seen = u32 (n.num_seen + 1) })
                  r.node_index,
            ))
        | inl e ↦
            let open_ : is_full addr_string r addr ≡ false = ground (arith, room) in
            rw (discover-unknown addr_string r addr e, open_, kept)
              (ground (
                arith,
                e,
                eq_iff (addr_string addr) j,
                lookup-insert (addr_string addr) j (new_node addr) r.node_index,
              ))
      ]

  -- While there is room, an unknown address enters the index of a repository that New returned,
  -- after any events and whatever its range; of a known one only the counter is raised; no other
  -- node changes.
  pub lookup-discovered :
      (create : String → Bool) (settings : List Setting) (repo : Repository)
      → new create settings ≡ some repo
      → (es : List Event) (r : Repository) (addr : TcpAddr) (j : String)
      → (run addr_string repo es).0 ≡ r
      → u32 (length r.node_index) < r.node_limit
      → Assoc.lookup j (step addr_string r (discovered addr)).0.node_index ≡ (
          if str_eq (addr_string addr) j
          then seen_once_more addr (Assoc.lookup j r.node_index)
          else Assoc.lookup j r.node_index)
  unfolding step
  lookup-discovered create settings repo built es r addr j after room =
      let passes =
        subst (λ t. filtered t addr ≡ false) after
          (run-filtered create settings repo built es addr) in
      lookup-discover r addr j passes room
