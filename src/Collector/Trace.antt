-- ===== src/Collector/Trace.antt =====
-- Each event of main of collector/pbtc.go leaves it where what has happened allows it to be.
use passive_bitcoin.Prelude.{
  Bool, true, false, Option, none, some, List, [], ◌∷◌, ◌++◌, ◌≡◌, inl, inr, refl, sym, ap, subst,
  arith, Option-cases,
}
use mathlib.Core.List.{foldl-append, append_assoc, append-nil}
use passive_bitcoin.ParMap.{Stringer}
use passive_bitcoin.Supervisor.{Config}
use passive_bitcoin.Supervisor.Init.{Env}
use passive_bitcoin.Supervisor.Modules.{Supervisor}
use passive_bitcoin.Supervisor.Build
use passive_bitcoin.Supervisor.Running
use passive_bitcoin.Collector.{
  Signal, sigint, sighup, Outcome, exit, panicked, forced, Place, initializing, starting, waiting,
  stopping, ended, Main, Event, arrives, proceeds, receives_signal, receives_stopped, stop_returns,
  step, main,
}
use passive_bitcoin.Collector
use passive_bitcoin.Collector.Signals.{arrivals-append, latest, held-some, held-ended}
use passive_bitcoin.Collector.Facts.{Reached, Returned, later-Returned, IsTrue, later, held-proceed}

module _ {F : Type 0} (P H : Type 0) ⦃i : Stringer H⦄ (env : Env F) (cfg : Config) where
  initialized-Reached :
      (past : List Event) (made : Option (Supervisor F P H))
      → Build.new env cfg ≡ made
      → Reached P H env cfg past (Collector.initialized made)
  initialized-Reached past none e = (refl, e)
  initialized-Reached past (some sup) e = e

  served-Reached :
      (past : List Event) (sup : Supervisor F P H)
      → Build.new env cfg ≡ some sup
      → Reached P H env cfg past (Collector.served sup (Running.start sup))
  served-Reached past sup e = elim (Option-cases (Running.start sup)) [
    | inl bad ↦ rw bad (sup, e, bad)
    | inr (order, ok) ↦ rw ok (e, λ bad. absurd (cc (ok, bad)))
  ]

  proceed-Reached :
      (past : List Event) (place : Place F P H)
      → Reached P H env cfg past place
      → Reached P H env cfg past (Collector.proceed env cfg place)
  proceed-Reached past initializing h = initialized-Reached past (Build.new env cfg) refl
  proceed-Reached past (starting sup) h = served-Reached past sup h
  proceed-Reached past (waiting sup) h = h
  proceed-Reached past (stopping sup) h = h
  proceed-Reached past (ended o) h = h

  -- A signal more in the channel
  arrives-IsTrue :
      (past : List Event) (sig : Signal) (place : Place F P H) (sigc : Option Signal)
      (stopped : Bool)
      → IsTrue P H env cfg past (record { place = place; sigc = sigc; stopped = stopped })
      → IsTrue P H env cfg
          (past ++ arrives sig ∷ [])
          (record { place = place; sigc = Collector.arrive sig sigc; stopped = stopped })
  arrives-IsTrue past sig place (some old) stopped h = later P H env cfg past (arrives sig) _ h
  arrives-IsTrue past sig place none stopped h =
      let all = later P H env cfg past (arrives sig) _ h in
      record {
        reached = all.reached;
        buffered = latest past (arrives sig);
        returned = all.returned;
        enough =
            omega (arith, h.enough, held-some place sig, arrivals-append past (arrives sig ∷ []));
      }

  -- main has received what the channel held.
  received-IsTrue :
      (past : List Event) (place : Place F P H) (sigc : Option Signal) (stopped : Bool)
      → IsTrue P H env cfg past (record { place = place; sigc = sigc; stopped = stopped })
      → IsTrue P H env cfg past (
          Collector.receive_signal
            (record { place = place; sigc = sigc; stopped = stopped })
            (Collector.receives place)
            sigc)
  received-IsTrue past (waiting sup) (some sigint) stopped h = record {
    reached = (h.reached, h.buffered);
    buffered = tt;
    returned = h.returned;
    enough = h.enough;
  }
  received-IsTrue past (waiting sup) (some sighup) stopped h = record {
    reached = h.reached;
    buffered = tt;
    returned = h.returned;
    enough = omega arith;
  }
  received-IsTrue past (waiting sup) none stopped h = h
  received-IsTrue past (stopping sup) (some sig) stopped h = record {
    reached = ((sup, h.reached.0), h.reached.1, h.buffered, h.enough);
    buffered = tt;
    returned = h.returned;
    enough = omega arith;
  }
  received-IsTrue past (stopping sup) none stopped h = h
  received-IsTrue past initializing (some sig) stopped h = h
  received-IsTrue past initializing none stopped h = h
  received-IsTrue past (starting sup) (some sig) stopped h = h
  received-IsTrue past (starting sup) none stopped h = h
  received-IsTrue past (ended o) (some sig) stopped h = h
  received-IsTrue past (ended o) none stopped h = h

  shut_down-IsTrue :
      (past : List Event) (place : Place F P H) (sigc : Option Signal) (stopped : Bool)
      → IsTrue P H env cfg past (record { place = place; sigc = sigc; stopped = stopped })
      → IsTrue P H env cfg past
          (record { place = Collector.shut_down place stopped; sigc = sigc; stopped = stopped })
  shut_down-IsTrue past (stopping sup) sigc true h = record {
    reached = ((sup, h.reached.0), h.reached.1, h.returned refl);
    buffered = h.buffered;
    returned = h.returned;
    enough = omega (arith, h.enough, held-ended (exit 0) (stopping sup) sigc);
  }
  shut_down-IsTrue past (stopping sup) sigc false h = h
  shut_down-IsTrue past initializing sigc stopped h = h
  shut_down-IsTrue past (starting sup) sigc stopped h = h
  shut_down-IsTrue past (waiting sup) sigc stopped h = h
  shut_down-IsTrue past (ended o) sigc stopped h = h

  proceed-IsTrue :
      (past : List Event) (place : Place F P H) (sigc : Option Signal) (stopped : Bool)
      → IsTrue P H env cfg past (record { place = place; sigc = sigc; stopped = stopped })
      → IsTrue P H env cfg past
          (record { place = Collector.proceed env cfg place; sigc = sigc; stopped = stopped })
  proceed-IsTrue past place sigc stopped h = record {
    reached = proceed-Reached past place h.reached;
    buffered = h.buffered;
    returned = h.returned;
    enough = omega (arith, h.enough, held-proceed P H env cfg place sigc);
  }

  -- The goroutine in the shutdown is the only one that makes the event count.
  done-Returned :
      (past : List Event) (place : Place F P H) (stopped : Bool)
      → (main env cfg past).place ≡ place
      → (stopped ≡ true → Returned P H env cfg past)
      → Collector.stop_done place stopped ≡ true
      → Returned P H env cfg (past ++ stop_returns ∷ [])
  done-Returned past (stopping sup) stopped same h done = (past, sup, [], refl, same)
  done-Returned past initializing stopped same h done =
      later-Returned P H env cfg past stop_returns (h done)
  done-Returned past (starting sup) stopped same h done =
      later-Returned P H env cfg past stop_returns (h done)
  done-Returned past (waiting sup) stopped same h done =
      later-Returned P H env cfg past stop_returns (h done)
  done-Returned past (ended o) stopped same h done =
      later-Returned P H env cfg past stop_returns (h done)

  step-IsTrue :
      (past : List Event) (s : Main F P H) (e : Event)
      → s ≡ main env cfg past
      → IsTrue P H env cfg past s
      → IsTrue P H env cfg (past ++ e ∷ []) (step env cfg s e)
  unfolding step
  step-IsTrue past s (arrives sig) same h = arrives-IsTrue past sig s.place s.sigc s.stopped h
  step-IsTrue past s proceeds same h =
      proceed-IsTrue _ s.place s.sigc s.stopped (later P H env cfg past proceeds s h)
  step-IsTrue past s receives_signal same h =
      received-IsTrue _ s.place s.sigc s.stopped (later P H env cfg past receives_signal s h)
  step-IsTrue past s receives_stopped same h =
      shut_down-IsTrue _ s.place s.sigc s.stopped (later P H env cfg past receives_stopped s h)
  step-IsTrue past s stop_returns same h =
      let all = later P H env cfg past stop_returns s h in
      record {
        reached = all.reached;
        buffered = all.buffered;
        returned = λ done.
            done-Returned past s.place s.stopped (ap (λ m. m.place) (sym same)) h.returned done;
        enough = all.enough;
      }

  main-snoc :
      (past : List Event) (e : Event)
      → main {P = P} {H = H} env cfg (past ++ e ∷ []) ≡ step env cfg (main env cfg past) e
  unfolding main
  main-snoc past e =
      foldl-append (step env cfg) (record { place = initializing; sigc = none; stopped = false })
        past (e ∷ [])

  run-IsTrue :
      (past events : List Event)
      → IsTrue P H env cfg past (main env cfg past)
      → IsTrue P H env cfg (past ++ events) (main env cfg (past ++ events))
  run-IsTrue past [] h =
      subst (λ l. IsTrue P H env cfg l (main env cfg l)) (sym (append-nil past)) h
  run-IsTrue past (e ∷ events) h =
      let next =
        subst (λ s. IsTrue P H env cfg (past ++ e ∷ []) s) (sym (main-snoc past e))
          (step-IsTrue past (main env cfg past) e refl h) in
      subst (λ l. IsTrue P H env cfg l (main env cfg l)) (append_assoc past (e ∷ []) events)
        (run-IsTrue (past ++ e ∷ []) events next)

  pub main-IsTrue : (events : List Event) → IsTrue P H env cfg events (main env cfg events)
  unfolding main
  main-IsTrue events = run-IsTrue [] events (record {
    reached = tt;
    buffered = tt;
    returned = λ done. ground (arith, done);
    enough = omega arith;
  })
