-- ===== src/Tests/RepositoryRuns.antt =====
-- Runs of the repository of repository/repository.go.
use passive_bitcoin.Prelude.{
  ◌*◌, ◌≤◌, ◌⊎◌, String, true, false, some, none, [], ◌∷◌, ◌≡◌, refl, arith, All, In, str_eq,
  if◌then◌else◌, ◌==◌, eq_iff,
}
use mathlib.Core.Option
use passive_bitcoin.Assoc
use passive_bitcoin.Net.{TcpAddr, minute, compare_bytes, parse_ip, to4}
use passive_bitcoin.Repository.{
  Repository, Node, new, defaults, reserved, save, restore, includes, apply, set_node_limit,
  add_range, new_ip_range, new_node,
}
use passive_bitcoin.Repository.Addresses.{
  step, run, filtered, discovered, change, mark_attempted, mark_connected, connected, discover,
}
use passive_bitcoin.Repository.Retrieval.{retrieve, IsEligible, retrieve_cases}
use passive_bitcoin.Repository.Index.{IsValid, run-IsValid}
use passive_bitcoin.Repository.Growth.{run-filtered, lookup-discovered, seen_once_more}
use passive_bitcoin.Repository.Attempts.{attempted-not-IsEligible}
use passive_bitcoin.Repository.Backup.{restore-save, unseen, save_ok}
use passive_bitcoin.Repository.Queues
use passive_bitcoin.Repository.Queues.{
  Call, call_discovered, call_attempted, same, event, Queues, round, Reach, here, further,
  change as change_queue,
}
use passive_bitcoin.Repository.Waiting.{count, space, full-waits}
use passive_bitcoin.Tests.{local, remote}

-- The texts of the two addresses.
abbrev pub text : TcpAddr → String
text a = if a.port == 18333 then "203.0.113.7:18333" else "10.0.0.2:50123"

abbrev tried : Node
tried = record {
  addr = remote;
  num_seen = 3;
  num_attempts = 0;
  last_attempted = 5;
  last_connected = 6;
  last_succeeded = 6;
}

-- A new repository with room for ten nodes.
abbrev fresh : Repository
fresh = record defaults { file = some none; invalid_range = reserved; node_limit = 10 }

-- A repository that is full with one node.
abbrev full : Repository
full = record fresh { node_index = ("203.0.113.7:18333", tried) ∷ []; node_limit = 1 }

fresh-new : new (λ path. true) (set_node_limit 10 ∷ []) ≡ some fresh
unfolding new reserved apply add_range
fresh-new = refl

full-IsValid : IsValid text full
unfolding Assoc.lookup
full-IsValid = record {
  unique = (refl, tt);
  keyed = λ k n e. ground (arith, e, eq_iff "203.0.113.7:18333" k);
  within = omega arith;
  limit_fits = omega arith;
}

run-IsValid_example : IsValid text (run text full (discovered remote ∷ discovered local ∷ [])).0
run-IsValid_example = run-IsValid text full (discovered remote ∷ discovered local ∷ []) full-IsValid

run-filtered_example : filtered (run text fresh (discovered remote ∷ [])).0 local ≡ false
run-filtered_example =
    run-filtered text (λ path. true) (set_node_limit 10 ∷ []) fresh fresh-new
      (discovered remote ∷ []) local

-- A first address enters the index.
first_in :
    run text fresh (discovered remote ∷ [])
    ≡ (record fresh { node_index = ("203.0.113.7:18333", new_node remote) ∷ [] }, true)
unfolding run step discover filtered Assoc.lookup Assoc.insert reserved new_ip_range parse_ip
    includes compare_bytes to4 new_node
first_in = refl

-- So does a private address.
lookup-discovered_example :
    Assoc.lookup "10.0.0.2:50123"
      (step text (run text fresh (discovered remote ∷ [])).0 (discovered local)).0.node_index
    ≡ (if str_eq (text local) "10.0.0.2:50123"
        then seen_once_more local
            (Assoc.lookup "10.0.0.2:50123" (run text fresh (discovered remote ∷ [])).0.node_index)
        else Assoc.lookup "10.0.0.2:50123" (run text fresh (discovered remote ∷ [])).0.node_index)
lookup-discovered_example =
    lookup-discovered text (λ path. true) (set_node_limit 10 ∷ []) fresh fresh-new
      (discovered remote ∷ []) (run text fresh (discovered remote ∷ [])).0 local "10.0.0.2:50123"
      refl (rw first_in (omega arith))

attempted-not-IsEligible_example :
    ¬ IsEligible
      (60 * minute)
      (record tried { num_attempts = 1; last_attempted = 50; last_connected = 51; num_seen = 4 })
unfolding Assoc.lookup run step change mark_attempted mark_connected discover Assoc.insert
attempted-not-IsEligible_example =
    attempted-not-IsEligible text full remote 50 (60 * minute) tried
      (record tried { num_attempts = 1; last_attempted = 50; last_connected = 51; num_seen = 4 })
      (connected remote 51 ∷ discovered remote ∷ []) refl (tt, (tt, tt)) (omega arith) refl

retrieve_cases_example :
    ((n : Node) × (retrieve (60 * minute) (tried ∷ []) ≡ some n)
      × In n (tried ∷ [])
      × IsEligible (60 * minute) n)
    ⊎ ((retrieve (60 * minute) (tried ∷ []) ≡ none)
        × All (λ n. ¬ IsEligible (60 * minute) n) (tried ∷ []))
retrieve_cases_example = retrieve_cases (60 * minute) (tried ∷ [])

restore-save_example :
    Assoc.lookup "203.0.113.7:18333"
      (restore true (record (save save_ok full) { node_index = [] })).node_index
    ≡ Option.map unseen (Assoc.lookup "203.0.113.7:18333" full.node_index)
restore-save_example = restore-save full none "203.0.113.7:18333" refl full-IsValid.unique

-- The full repository with an unknown address queued, and an attempt that is to be noted
abbrev queues : Queues
queues = record {
  repo = full;
  queue = λ c.
      if same call_discovered c
      then some local
      else if same call_attempted c
      then some remote
      else none;
  running = true;
}

abbrev after : Queues
after =
    round text (event call_discovered local 9)
      (record queues { queue = change_queue call_discovered none queues.queue })

abbrev queued_again : Queues
queued_again = record after { queue = change_queue call_discovered (some remote) after.queue }

full-waits_example :
    (queued_again.running ≡ false)
    × (queued_again.repo ≡ full)
    × (count call_discovered (call_discovered ∷ []) ≤ 1)
    × ((c : Call)
        → same call_discovered c ≡ false
        → count c (call_discovered ∷ []) ≤ space (queues.queue c))
unfolding Assoc.lookup
full-waits_example =
    full-waits text queues local 9 full-IsValid refl refl (call_discovered ∷ []) queued_again (
      further after [] after (call_discovered ∷ []) queued_again (here after)
        (Queues.returns after call_discovered remote refl))
