-- ===== src/Supervisor/Delivery.antt =====
-- The processors of a supervisor that New of supervisor/supervisor.go returns, as the graph in which
-- their goroutines of processor/ hand on records.
use passive_bitcoin.Prelude.{
  ℕ, ◌<◌, String, ◌≡◌, sym, ap, ◌∙◌, arith, true, Option, none, some, some-injective, List, [], ◌∷◌,
  inl, inr, In, All-In, is_some, Option-cases, Bool-cases, str_eq, eq_iff, subst,
}
use passive_bitcoin.Assoc
use passive_bitcoin.Assoc.{Assoc}
use passive_bitcoin.ParMap.{Stringer}
use passive_bitcoin.Processor.{Record, Processor, process, dummy_filter}
use passive_bitcoin.Processor.Routes.{each}
use passive_bitcoin.Processor.Pipeline.{Net, Reach, start}
use passive_bitcoin.Processor.Pipeline.Balance.{incoming, outgoing}
use passive_bitcoin.Processor.Pipeline.Progress.{Moves, rest-delivered}
use passive_bitcoin.Supervisor.{Config, ProcessorConfig}
use passive_bitcoin.Supervisor.Init.{Env, Built}
use passive_bitcoin.Supervisor.Modules.{Supervisor, Module, present}
use passive_bitcoin.Supervisor.Build.{new}
use passive_bitcoin.Supervisor.Entries.{In-Has}
use passive_bitcoin.Supervisor.Typed.{HasType, new-HasType}

-- The processor of a key; under any other key there is none, and nothing is handed to it.
abbrev pub graph_of : Option (Module (Built String)) → Processor String
graph_of none = record { kind = dummy_filter; next = [] }
graph_of (some m) = m.body.pro

abbrev pub graph : {F P H : Type 0} → Supervisor F P H → String → Processor String
graph sup q = graph_of (Assoc.lookup q sup.pro)

-- Every name that an entry gives as next is lower in rank than the entry.
abbrev pub IsRanked : Config → (String → ℕ) → Type 0
IsRanked cfg rank =
    (q : String) (c : ProcessorConfig) (next : String)
    → Assoc.lookup q cfg.processor ≡ some c
    → In next c.next
    → rank next < rank q

lookup-In :
    {X : Type 0} (q : String) (x : X) (m : Assoc X) → Assoc.lookup q m ≡ some x → In (q, x) m
unfolding Assoc.lookup
lookup-In q x [] e = ground (arith, e)
lookup-In q x ((key, y) ∷ rest) e = elim (Bool-cases (str_eq key q)) [
  | inl own ↦ inl (
      sym (
        ap (λ k. (k, y)) ((eq_iff key q).0 own)
        ∙ ap (λ v. (q, v)) (some-injective y x (rw own at e))))
  | inr other ↦ inr (lookup-In q x rest (rw other at e))
]

present-In :
    {X : Type 0} (m : Assoc X) (names : List String) (name : String)
    → In name (present m names)
    → In name names
unfolding present
present-In m [] name h = h
present-In m (other ∷ names) name h = elim (Bool-cases (is_some (Assoc.lookup other m))) [
  | inl found ↦ elim (rw found at h) [
    | inl e ↦ inl e
    | inr rest ↦ inr (present-In m names name rest)
  ]
  | inr missing ↦ inr (present-In m names name (rw missing at h))
]

module _ {F P H : Type 0} ⦃i : Stringer H⦄ (env : Env F) (cfg : Config) where
  next_of :
      (sup : Supervisor F P H) (q next : String) (m : Module (Built String))
      → HasType env cfg sup (q, m)
      → In next m.body.pro.next
      → (c : ProcessorConfig) × (Assoc.lookup q cfg.processor ≡ some c) × In next c.next
  next_of sup q next m has linked =
      let from = has.0 in
      elim (Option-cases (Assoc.lookup q cfg.processor)) [
        | inl e ↦ absurd (cc (e, In-Has q from.0 cfg.processor from.1))
        | inr (c, e) ↦
            (c, e, present-In sup.pro c.next next (subst (λ l. In next l) (has.1 c e) linked))
      ]

  graph-down :
      (sup : Supervisor F P H) (rank : String → ℕ)
      → new env cfg ≡ some sup
      → IsRanked cfg rank
      → (q next : String) → In next (graph sup q).next
      → rank next < rank q
  graph-down sup rank made ranked q next linked = elim (Option-cases (Assoc.lookup q sup.pro)) [
    | inl e ↦ absurd (rw e at linked)
    | inr (m, e) ↦
        let (c, found, named) =
          next_of sup q next m
            (All-In (HasType env cfg sup) (q, m) sup.pro (new-HasType env cfg sup made)
              (lookup-In q m sup.pro e))
            (rw e at linked) in
        ranked q c next found named
  ]

  -- If the next names of the processors in the configuration have no cycle, so that every entry has a
  -- rank above those of its next names, then the processors that New builds deliver: whatever the
  -- order in which their goroutines move, once none can move and none has returned, each has made
  -- exactly the calls of Process that its filter gives for the records that were put in its queue, in
  -- that order.
  pub new-delivered :
      {R : Type 0} ⦃record_of : Record R⦄ (sup : Supervisor F P H) (rank : String → ℕ) (s : Net R)
      → new env cfg ≡ some sup
      → IsRanked cfg rank
      → Reach (graph sup) start s
      → ((q : String) → (s.workers q).running ≡ true)
      → (Moves (graph sup) s → ⊥)
      → (q : String) → outgoing q s.log ≡ each (process (graph sup q)) (incoming q s.log)
  new-delivered sup rank s made ranked way runs still q =
      (rest-delivered (graph sup) rank s (graph-down sup rank made ranked) way runs still q).0
