-- ===== src/Collector/Facts.antt =====
-- What has happened when main of collector/pbtc.go is at a place, which stays true afterwards.
use passive_bitcoin.Prelude.{
  ◌≤◌, true, Option, none, some, List, [], ◌∷◌, ◌++◌, ◌≡◌, ◌≢◌, inl, inr, sym, In, subst, arith,
  Option-cases,
}
use mathlib.Core.List.{append_assoc}
use passive_bitcoin.ParMap.{Stringer}
use passive_bitcoin.Supervisor.{Config}
use passive_bitcoin.Supervisor.Init.{Env}
use passive_bitcoin.Supervisor.Modules.{Supervisor}
use passive_bitcoin.Supervisor.Build
use passive_bitcoin.Supervisor.Running
use passive_bitcoin.Collector.{
  Signal, sigint, sighup, Outcome, exit, panicked, forced, Place, initializing, starting, waiting,
  stopping, ended, Main, Event, arrives, proceeds, receives_signal, receives_stopped, stop_returns,
  step, main,
}
use passive_bitcoin.Collector
use Prim.Native.Nat
use passive_bitcoin.Collector.Signals.{
  arrivals, arrivals-append, earlier, Buffered, later-Buffered, held, held-ended, held-idle,
}

module _ {F : Type 0} (P H : Type 0) ⦃i : Stringer H⦄ (env : Env F) (cfg : Config) where
  -- New returns this supervisor, and its Start returns.
  abbrev pub Serves : Supervisor F P H → Type 0
  Serves sup = (Build.new env cfg ≡ some sup) × (Running.start sup ≢ none)

  -- Stop of the supervisor has returned: the event came when main was at its last select.
  abbrev pub Returned : List Event → Type 0
  Returned past =
      (ys : List Event) × (sup : Supervisor F P H) × (zs : List Event) × (past
        ≡ ys ++ stop_returns ∷ zs)
      × ((main env cfg ys).place ≡ stopping sup)

  pub later-Returned : (past : List Event) (e : Event) → Returned past → Returned (past ++ e ∷ [])
  later-Returned past e (ys, sup, zs, whole, place) = (
    ys,
    sup,
    zs ++ e ∷ [],
    subst (λ l. l ++ e ∷ [] ≡ ys ++ stop_returns ∷ (zs ++ e ∷ [])) (sym whole)
        (append_assoc ys (stop_returns ∷ zs) (e ∷ [])),
    place,
  )

  -- What has happened when main ends in a way
  abbrev pub Reason : List Event → Outcome → Type 0
  Reason past (exit Nat.zero) =
      ((sup : Supervisor F P H) × Serves sup) × In (arrives sigint) past × Returned past
  Reason past (exit (Nat.suc n)) = (n ≡ 0) × (Build.new {P = P} {H = H} env cfg ≡ none)
  Reason past panicked =
      (sup : Supervisor F P H) × (Build.new env cfg ≡ some sup) × (Running.start sup ≡ none)
  Reason past (forced sig) =
      ((sup : Supervisor F P H) × Serves sup)
      × In (arrives sigint) past
      × In (arrives sig) past
      × (2 ≤ arrivals past)

  abbrev pub Reached : List Event → Place F P H → Type 0
  Reached past initializing = Unit
  Reached past (starting sup) = Build.new env cfg ≡ some sup
  Reached past (waiting sup) = Serves sup
  Reached past (stopping sup) = Serves sup × In (arrives sigint) past
  Reached past (ended o) = Reason past o

  pub held-proceed :
      (place : Place F P H) (sigc : Option Signal)
      → held (Collector.proceed env cfg place) sigc ≤ held place sigc
  held-proceed initializing sigc =
      let first : Place F P H = initializing in
      elim (Option-cases (Build.new {P = P} {H = H} env cfg)) [
        | inl e ↦ rw e (held-ended (exit 1) first sigc)
        | inr (sup, e) ↦ rw e (held-idle sup first sigc).0
      ]
  held-proceed (starting sup) sigc = elim (Option-cases (Running.start sup)) [
    | inl e ↦ rw e (held-ended panicked (starting sup) sigc)
    | inr (order, e) ↦ rw e (held-idle sup (starting sup) sigc).1
  ]
  held-proceed (waiting sup) sigc = omega arith
  held-proceed (stopping sup) sigc = omega arith
  held-proceed (ended o) sigc = omega arith

  pub record IsTrue (past : List Event) (s : Main F P H) : Type 0 where
    pub reached : Reached past s.place
    pub buffered : Buffered past s.sigc
    pub returned : s.stopped ≡ true → Returned past
    pub enough : held s.place s.sigc ≤ arrivals past

  later-Reason :
      (past : List Event) (e : Event) (o : Outcome) → Reason past o → Reason (past ++ e ∷ []) o
  later-Reason past e (exit Nat.zero) (h, m, k) = (h, earlier _ past e m, later-Returned past e k)
  later-Reason past e (exit (Nat.suc n)) h = h
  later-Reason past e panicked h = h
  later-Reason past e (forced sig) (h, m, k, n) =
      (h, earlier _ past e m, earlier _ past e k, omega (arith, n, arrivals-append past (e ∷ [])))

  later-Reached :
      (past : List Event) (e : Event) (place : Place F P H)
      → Reached past place
      → Reached (past ++ e ∷ []) place
  later-Reached past e initializing h = tt
  later-Reached past e (starting sup) h = h
  later-Reached past e (waiting sup) h = h
  later-Reached past e (stopping sup) (h, m) = (h, earlier _ past e m)
  later-Reached past e (ended o) h = later-Reason past e o h

  pub later :
      (past : List Event) (e : Event) (s : Main F P H) → IsTrue past s → IsTrue (past ++ e ∷ []) s
  later past e s h = record {
    reached = later-Reached past e s.place h.reached;
    buffered = later-Buffered past e s.sigc h.buffered;
    returned = λ done. later-Returned past e (h.returned done);
    enough = omega (arith, h.enough, arrivals-append past (e ∷ []));
  }
