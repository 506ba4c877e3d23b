-- ===== src/Processor/Pipeline/Bounded.antt =====
-- How far the goroutines of processor/ get by themselves: a bound on the steps that they make before
-- they rest.
use Prim.Native.Nat
use passive_bitcoin.Prelude.{
  ℕ, ◌+◌, ◌≤◌, ◌<◌, String, Bool, true, false, Option, none, some, List, [], ◌∷◌, ◌≡◌, refl, inl,
  inr, arith, In,
}
use passive_bitcoin.Processor.{Record, Processor, process}
use passive_bitcoin.Processor.Routes.{process_sound}
use passive_bitcoin.Processor.Pipeline.{
  Worker, Delivery, Net, alter, enqueue, handed, finish, receive, Step,
}
use passive_bitcoin.Processor.Pipeline
use passive_bitcoin.Processor.Pipeline.Progress.{is_own}
use passive_bitcoin.Processor.Pipeline.Sums.{Distinct, sum, sum-less, sum-more}

abbrev running_cost : Bool → ℕ
running_cost true = 1
running_cost false = 0

module _ {R : Type 0} where
  -- Each call costs one step and what it brings about.
  abbrev calls_cost : (String → R → ℕ) → List (String × R) → ℕ
  calls_cost cost [] = 0
  calls_cost cost (d ∷ ds) = 1 + cost d.0 d.1 + calls_cost cost ds

  abbrev queue_cost : (R → ℕ) → Option R → ℕ
  queue_cost cost none = 0
  queue_cost cost (some r) = cost r

  calls_cost-le :
      (cost cost' : String → R → ℕ) (ds : List (String × R))
      → ((d : String × R) → In d ds → cost d.0 d.1 ≤ cost' d.0 d.1)
      → calls_cost cost ds ≤ calls_cost cost' ds
  calls_cost-le cost cost' [] h = omega arith
  calls_cost-le cost cost' (d ∷ ds) h =
      omega (arith, h d (inl refl), calls_cost-le cost cost' ds (λ e m. h e (inr m)))

module _ {R : Type 0} ⦃i : Record R⦄ (net : String → Processor String) where
  -- The steps that a record in a queue brings about within some hops: it is received, and each call
  -- is made and brings about its own.
  abbrev record_cost : ℕ → String → R → ℕ
  record_cost Nat.zero q r = 0
  record_cost (Nat.suc hops) q r = 1 + calls_cost (record_cost hops) (process (net q) r)

  cost-le : (k hops : ℕ) (q : String) (r : R) → hops ≤ k → record_cost hops q r ≤ record_cost k q r
  cost-le k Nat.zero q r h = omega arith
  cost-le Nat.zero (Nat.suc hops) q r h = absurd (omega (arith, h))
  cost-le (Nat.suc k) (Nat.suc hops) q r h = omega (
    arith,
    calls_cost-le (record_cost hops) (record_cost k) (process (net q) r)
        (λ d m. cost-le k hops d.0 d.1 (omega (arith, h))),
  )

  -- The processor that makes a step, or on which it is made
  abbrev pub actor : {s t : Net R} → Step net s t → String
  actor (Pipeline.put _ q _ _) = q
  actor (Pipeline.take _ q _ _ _ _) = q
  actor (Pipeline.hand _ q _ _ _ _ _) = q
  actor (Pipeline.close _ q _) = q
  actor (Pipeline.end _ q _ _ _) = q

  -- Some steps that goroutines of named processors make by themselves, and how many they are
  pub data Runs (names : List String) : Net R → ℕ → Net R → Type 0 where
    done : (s : Net R) → Runs names s 0 s
    more :
        (s : Net R) (n : ℕ) (t u : Net R)
        → Runs names s n t
        → (step : Step net t u) → is_own net step ≡ true
        → In (actor step) names
        → Runs names s (Nat.suc n) u

  module _ (rank : String → ℕ) where
    -- A link goes down in rank, so the rank is hops enough.
    abbrev cost_at : String → R → ℕ
    cost_at q r = record_cost (Nat.suc (rank q)) q r

    -- The steps that a worker still brings about
    abbrev pub worker_cost : String → Worker R → ℕ
    worker_cost q w =
        calls_cost cost_at w.handing + queue_cost (cost_at q) w.queue + running_cost w.running

    receive_cost :
        ((p next : String) → In next (net p).next → rank next < rank p)
        → (q : String) (r : R) → calls_cost cost_at (process (net q) r) + 1 ≤ cost_at q r
    receive_cost down q r = omega (
      arith,
      calls_cost-le cost_at (record_cost (rank q)) (process (net q) r) (λ d m.
          cost-le (rank q) (Nat.suc (rank d.0)) d.0 d.1
            (down q d.0 (process_sound (net q) r d m).1)),
    )

    -- The steps that the named workers bring about
    abbrev pub potential : List String → Net R → ℕ
    potential names s = sum worker_cost names s.workers

    less :
        (s : Net R) (q : String) (g : Worker R → Worker R) (names : List String)
        → worker_cost q (g (s.workers q)) + 1 ≤ worker_cost q (s.workers q)
        → In q names
        → sum worker_cost names (alter q g s.workers) + 1 ≤ sum worker_cost names s.workers
    less s q g names h m = sum-less worker_cost q g s.workers 1 h names m

    take_less :
        ((p next : String) → In next (net p).next → rank next < rank p)
        → (q : String) (r : R) (w : Worker R) → w.handing ≡ []
        → w.queue ≡ some r
        → worker_cost q (receive (net q) r w) + 1 ≤ worker_cost q w
    take_less down q r w e e' = rw (e, e') (omega (arith, receive_cost down q r))

    hand_less :
        (q next : String) (r : R) (rest : List (String × R)) (w : Worker R)
        → w.handing ≡ (next, r) ∷ rest
        → worker_cost q (handed rest w) + (1 + cost_at next r) ≤ worker_cost q w
    hand_less q next r rest w e = rw e (omega arith)

    end_less :
        (q : String) (w : Worker R)
        → w.running ≡ true
        → worker_cost q (finish w) + 1 ≤ worker_cost q w
    end_less q w e = rw e (omega arith)

    enqueue_more :
        (q : String) (r : R) (w : Worker R)
        → worker_cost q (enqueue r w) ≤ worker_cost q w + cost_at q r
    enqueue_more q r w = omega arith

    -- Each step that a named goroutine makes by itself uses up some of the potential.
    step_less :
        (names : List String) (s t : Net R)
        → Distinct names
        → ((p next : String) → In next (net p).next → rank next < rank p)
        → (step : Step net s t) → is_own net step ≡ true
        → In (actor step) names
        → potential names t + 1 ≤ potential names s
    step_less names _ _ distinct down (Pipeline.put s q r e) own m = ground (arith, own)
    step_less names _ _ distinct down (Pipeline.close s q e) own m = ground (arith, own)
    step_less names _ _ distinct down (Pipeline.take s q r e e' e'') own m =
        less s q (receive (net q) r) names (take_less down q r (s.workers q) e' e'') m
    step_less names _ _ distinct down (Pipeline.end s q e e' e'') own m =
        less s q finish names (end_less q (s.workers q) e) m
    step_less names _ _ distinct down (Pipeline.hand s q next r rest e e') own m = omega (
      arith,
      sum-less worker_cost q (handed rest) s.workers (1 + cost_at next r)
          (hand_less q next r rest (s.workers q) e) names m,
      sum-more worker_cost next (enqueue r) (alter q (handed rest) s.workers) (cost_at next r)
          (enqueue_more next r (alter q (handed rest) s.workers next)) names distinct,
    )

    -- In a graph of processors without a cycle, in which every link goes down in rank, the steps that
    -- the goroutines of distinct processors make by themselves, without another call of Process by a
    -- peer and without another Stop, are at most as many as the potential of these processors loses.
    -- The potential counts 1 for the return of each goroutine that runs, 1 to receive each record in a
    -- queue, and 1 for each call in hand and for each call that a filter makes for a record, with what
    -- the record that is handed over brings about in the next processor in turn.
    pub Runs-bounded :
        (names : List String) (s t : Net R) (n : ℕ)
        → Distinct names
        → ((p next : String) → In next (net p).next → rank next < rank p)
        → Runs names s n t
        → n + potential names t ≤ potential names s
    Runs-bounded names _ _ _ distinct down (done s) = omega arith
    Runs-bounded names _ _ _ distinct down (more s n t u runs step own m) = omega (
      arith,
      Runs-bounded names s t n distinct down runs,
      step_less names t u distinct down step own m,
    )
