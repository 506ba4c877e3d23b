-- ===== src/Repository/Addresses.antt =====
-- goAddresses of repository/repository.go: one step on each event of its select, and the loop.
use passive_bitcoin.Prelude.{
  ℕ, ◌+◌, ◌%◌, ◌^◌, String, Bool, true, false, none, some, List, [], ◌∷◌, leb, if◌then◌else◌, any,
  length,
}
use passive_bitcoin.Assoc
use passive_bitcoin.Net.{TcpAddr, Time, to4}
use passive_bitcoin.Repository.{Repository, Node, new_node, includes}

abbrev pub u32 : ℕ → ℕ
u32 n = n % 2 ^ 32

-- What the select receives; the last three come with the time that time.Now returns.
pub data Event : Type 0 where
  sig_closed backup_tick poll_tick : Event
  discovered : TcpAddr → Event
  attempted connected succeeded : TcpAddr → Time → Event

-- What the loop does next: it goes on, goes on and starts a save or a bootstrap, or ends.
pub data Outcome : Type 0 where
  goes_on starts_save starts_bootstrap ends : Outcome

-- The index with the node at a key changed; a key that is not there is logged and ignored.
unfoldable pub change : Repository → String → (Node → Node) → Repository
change repo key f = elim (Assoc.lookup key repo.node_index) [
  | none ↦ repo
  | some n ↦ record repo { node_index = Assoc.insert key (f n) repo.node_index }
]

unfoldable pub filtered : Repository → TcpAddr → Bool
filtered repo addr = elim (to4 addr.ip) [
  | none ↦ false
  | some ip ↦ any (λ r. includes r ip) repo.invalid_range
]

unfoldable pub mark_attempted : Time → Node → Node
mark_attempted now n = record n { num_attempts = u32 (n.num_attempts + 1); last_attempted = now }

unfoldable pub mark_connected : Time → Node → Node
mark_connected now n = record n { last_connected = now }

unfoldable pub mark_succeeded : Time → Node → Node
mark_succeeded now n = record n { num_attempts = 0; last_succeeded = now }

-- Whether the goroutine still runs after a round.
abbrev pub runs_on : Outcome → Bool
runs_on ends = false
runs_on _ = true

module _ (addr_string : TcpAddr → String) where
  -- case addr := <-repo.addrDiscovered
  unfoldable pub discover : Repository → TcpAddr → Repository × Outcome
  unfolding filtered
  discover repo addr =
      let key = addr_string addr in
      elim (Assoc.lookup key repo.node_index) [
        | some n ↦ (
          record repo {
            node_index =
                Assoc.insert key (record n { num_seen = u32 (n.num_seen + 1) }) repo.node_index;
          },
          goes_on,
        )
        | none ↦
            if leb repo.node_limit (u32 (length repo.node_index))
            then (repo, ends)
            else if filtered repo addr
            then (repo, goes_on)
            else (
              record repo { node_index = Assoc.insert key (new_node addr) repo.node_index },
              goes_on,
            )
      ]

  -- One round of the loop.
  unfoldable pub step : Repository → Event → Repository × Outcome
  unfolding discover change mark_attempted mark_connected mark_succeeded
  step repo sig_closed = (repo, ends)
  step repo backup_tick = (repo, starts_save)
  step repo poll_tick = (repo, starts_bootstrap)
  step repo (discovered addr) = discover repo addr
  step repo (attempted addr now) = (change repo (addr_string addr) (mark_attempted now), goes_on)
  step repo (connected addr now) = (change repo (addr_string addr) (mark_connected now), goes_on)
  step repo (succeeded addr now) = (change repo (addr_string addr) (mark_succeeded now), goes_on)

  -- goAddresses over the events that are sent; once it has returned it receives none.
  unfoldable pub run : Repository → List Event → Repository × Bool
  run repo [] = (repo, true)
  run repo (e ∷ es) =
      let (next, outcome) = step repo e in
      let rest = run next es in if runs_on outcome then rest else (next, false)
