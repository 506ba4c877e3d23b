-- ===== src/Repository/Attempts.antt =====
-- What goAddresses of repository/repository.go leaves of a node after an attempt to connect to it.
use passive_bitcoin.Prelude.{
  ℕ, ◌+◌, ◌^◌, ◌≤◌, ◌<◌, String, ◌≡◌, ◌≢◌, sym, ◌∙◌, Bool-cases, some, List, [], ◌∷◌, arith, str_eq,
  eq_iff, length, Option-cases, inl, inr, some-injective, All, ap,
}
use text.Mathlib.TextPositions.{eq_refl}
use passive_bitcoin.Assoc
use passive_bitcoin.Assoc.{lookup-insert}
use passive_bitcoin.Net.{TcpAddr, Time}
use passive_bitcoin.Repository.{Repository, Node, new_node}
use passive_bitcoin.Repository.Addresses.{
  Event, sig_closed, backup_tick, poll_tick, discovered, attempted, connected, succeeded, u32,
  filtered, runs_on, change, mark_attempted, mark_connected, mark_succeeded, step, run,
}
use passive_bitcoin.Repository.Retrieval.{IsEligible}
use passive_bitcoin.Repository.Index.{lookup-change, discover-known, discover-unknown, is_full}

-- The node at a key has open attempts, and at most so many.
record IsSpent (k : String) (most : ℕ) (repo : Repository) : Type 0 where
  node : Node
  found : Assoc.lookup k repo.node_index ≡ some node
  some_attempt : 1 ≤ node.num_attempts
  at_most : node.num_attempts ≤ most

-- A change of the node, or of another one
change-IsSpent :
    (k j : String) (f : Node → Node) (most more : ℕ) (repo : Repository)
    → ((n : Node)
        → j ≡ k
        → 1 ≤ n.num_attempts
        → n.num_attempts ≤ most
        → (1 ≤ (f n).num_attempts) × ((f n).num_attempts ≤ more))
    → most ≤ more
    → IsSpent k most repo
    → IsSpent k more (change repo j f)
change-IsSpent k j f most more repo keeps le s = elim (Bool-cases (str_eq j k)) [
  | inl e ↦
      let same : j ≡ k = ground (arith, e, eq_iff j k) in
      let (low, high) = keeps s.node same s.some_attempt s.at_most in
      record {
        node = f s.node;
        found = rw (e, s.found) at (lookup-change repo j k f);
        some_attempt = low;
        at_most = high;
      }
  | inr e ↦ record {
    node = s.node;
    found = rw (e, s.found) at (lookup-change repo j k f);
    some_attempt = s.some_attempt;
    at_most = omega (arith, s.at_most, le);
  }
]

-- A write at a key
insert-IsSpent :
    (k j : String) (n : Node) (most more : ℕ) (repo : Repository)
    → (j ≡ k → (1 ≤ n.num_attempts) × (n.num_attempts ≤ more))
    → most ≤ more
    → IsSpent k most repo
    → IsSpent k more (record repo { node_index = Assoc.insert j n repo.node_index })
insert-IsSpent k j n most more repo keeps le s = elim (Bool-cases (str_eq j k)) [
  | inl e ↦
      let same : j ≡ k = ground (arith, e, eq_iff j k) in
      let (low, high) = keeps same in
      record {
        node = n;
        found = rw e at (lookup-insert j k n repo.node_index);
        some_attempt = low;
        at_most = high;
      }
  | inr e ↦ record {
    node = s.node;
    found = rw (e, s.found) at (lookup-insert j k n repo.node_index);
    some_attempt = s.some_attempt;
    at_most = omega (arith, s.at_most, le);
  }
]

widen-IsSpent :
    (k : String) (most more : ℕ) (repo : Repository)
    → most ≤ more
    → IsSpent k most repo
    → IsSpent k more repo
widen-IsSpent k most more repo le s = record {
  node = s.node;
  found = s.found;
  some_attempt = s.some_attempt;
  at_most = omega (arith, s.at_most, le);
}

more-IsSpent :
    (k : String) (most : ℕ) (repo : Repository) → IsSpent k most repo → IsSpent k (most + 1) repo
more-IsSpent k most repo s = widen-IsSpent k most (most + 1) repo (omega arith) s

module _ (addr_string : TcpAddr → String) where
  -- The event is no success of the address.
  abbrev pub Spares : String → Event → Type 0
  Spares k (succeeded addr now) = addr_string addr ≢ k
  Spares k _ = Unit

  discover-IsSpent :
      (k : String) (most : ℕ) (repo : Repository) (addr : TcpAddr)
      → IsSpent k most repo
      → IsSpent k (most + 1) (step addr_string repo (discovered addr)).0
  unfolding step
  discover-IsSpent k most repo addr s =
      let j = addr_string addr in
      elim (Option-cases (Assoc.lookup j repo.node_index)) [
        | inr (n, e) ↦
            rw (step, discover-known addr_string repo addr n e)
              (insert-IsSpent k j (record n { num_seen = u32 (n.num_seen + 1) }) most (most + 1)
                repo
                (λ same.
                  let is_node =
                    some-injective n s.node
                      (sym e ∙ ap (λ i. Assoc.lookup i repo.node_index) same ∙ s.found) in
                  rw is_node (s.some_attempt, omega (arith, s.at_most)))
                (omega arith) s)
        | inl e ↦
            let other : j ≢ k =
              λ same. cc (ap (λ i. Assoc.lookup i repo.node_index) same, e, s.found) in
            rw (step, discover-unknown addr_string repo addr e)
              (elim (Bool-cases (is_full addr_string repo addr)) [
                | inl full ↦ rw full (more-IsSpent k most repo s)
                | inr room ↦ rw room (elim (Bool-cases (filtered repo addr)) [
                  | inl out ↦ rw out (more-IsSpent k most repo s)
                  | inr kept ↦ rw kept (
                      insert-IsSpent k j (new_node addr) most (most + 1) repo
                        (λ same. absurd (other same)) (omega arith) s)
                ])
              ])
      ]

  step-IsSpent :
      (k : String) (most : ℕ) (repo : Repository) (e : Event)
      → most + 1 < 2 ^ 32
      → Spares k e
      → IsSpent k most repo
      → IsSpent k (most + 1) (step addr_string repo e).0
  unfolding step
  step-IsSpent k most repo sig_closed fits spared s = more-IsSpent k most repo s
  step-IsSpent k most repo backup_tick fits spared s = more-IsSpent k most repo s
  step-IsSpent k most repo poll_tick fits spared s = more-IsSpent k most repo s
  step-IsSpent k most repo (discovered addr) fits spared s = discover-IsSpent k most repo addr s
  step-IsSpent k most repo (attempted addr now) fits spared s =
      change-IsSpent k (addr_string addr) (mark_attempted now) most (most + 1) repo
        (λ n same low high. unfold mark_attempted in omega (arith, fits, low, high)) (omega arith) s
  step-IsSpent k most repo (connected addr now) fits spared s =
      change-IsSpent k (addr_string addr) (mark_connected now) most (most + 1) repo
        (λ n same low high. unfold mark_connected in omega (arith, low, high)) (omega arith) s
  step-IsSpent k most repo (succeeded addr now) fits spared s =
      change-IsSpent k (addr_string addr) (mark_succeeded now) most (most + 1) repo
        (λ n same low high. absurd (spared same)) (omega arith) s

  run-IsSpent :
      (k : String) (most : ℕ) (repo : Repository) (es : List Event)
      → most + length es < 2 ^ 32
      → All (Spares k) es
      → IsSpent k most repo
      → IsSpent k (most + length es) (run addr_string repo es).0
  unfolding run
  run-IsSpent k most repo [] fits spared s = widen-IsSpent k most (most + 0) repo (omega arith) s
  run-IsSpent k most repo (e ∷ es) fits spared s =
      let next = step-IsSpent k most repo e (omega (arith, fits)) spared.0 s in
      elim (Bool-cases (runs_on (step addr_string repo e).1)) [
        | inl on ↦ rw on (
            widen-IsSpent k (most + 1 + length es) (most + length (e ∷ es)) _ (omega arith) (
              run-IsSpent k (most + 1) (step addr_string repo e).0 es (omega (arith, fits)) spared.1
                next))
        | inr off ↦ rw off (
            widen-IsSpent k (most + 1) (most + length (e ∷ es)) (step addr_string repo e).0
              (omega arith) next)
      ]

  -- After an attempt on a known address, whatever events follow other than a success of that address,
  -- its node is not eligible at any time, provided that its counter of attempts, which each event
  -- raises by 1 at most, cannot wrap over these events.
  pub attempted-not-IsEligible :
      (repo : Repository) (addr : TcpAddr) (now later : Time) (m n : Node) (es : List Event)
      → Assoc.lookup (addr_string addr) repo.node_index ≡ some m
      → All (Spares (addr_string addr)) es
      → m.num_attempts + 1 + length es < 2 ^ 32
      → Assoc.lookup
          (addr_string addr)
          (run addr_string repo (attempted addr now ∷ es)).0.node_index
        ≡ some n
      → ¬ IsEligible later n
  unfolding run step
  attempted-not-IsEligible repo addr now later m n es known spared fits found h =
      let k = addr_string addr in
      let first : IsSpent k (m.num_attempts + 1) (change repo k (mark_attempted now)) = record {
        node = mark_attempted now m;
        found = rw (eq_refl, known) at (lookup-change repo k k (mark_attempted now));
        some_attempt = unfold mark_attempted in omega (arith, fits);
        at_most = unfold mark_attempted in omega (arith, fits);
      } in
      let last = run-IsSpent k (m.num_attempts + 1) _ es fits spared first in
      let same = some-injective last.node n (sym last.found ∙ found) in
      omega (arith, last.some_attempt, ap (λ (x : Node). x.num_attempts) same, h.no_attempts)
