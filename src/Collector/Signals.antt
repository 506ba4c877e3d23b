-- ===== src/Collector/Signals.antt =====
-- The signals that main of collector/pbtc.go has got, and those that it has used or holds.
use passive_bitcoin.Prelude.{
  ℕ, ◌+◌, ◌≤◌, Option, none, some, List, [], ◌∷◌, ◌++◌, ◌≡◌, inl, inr, refl, In, In-append, arith,
}
use passive_bitcoin.Supervisor.Modules.{Supervisor}
use passive_bitcoin.Collector.{
  Signal, Outcome, panicked, Place, initializing, starting, waiting, stopping, ended, Event,
  arrives, proceeds, receives_signal, receives_stopped, stop_returns,
}

-- How many signals have arrived
abbrev pub arrivals : List Event → ℕ
arrivals [] = 0
arrivals (arrives sig ∷ events) = 1 + arrivals events
arrivals (proceeds ∷ events) = arrivals events
arrivals (receives_signal ∷ events) = arrivals events
arrivals (receives_stopped ∷ events) = arrivals events
arrivals (stop_returns ∷ events) = arrivals events

pub arrivals-append : (xs ys : List Event) → arrivals (xs ++ ys) ≡ arrivals xs + arrivals ys
arrivals-append [] ys = omega arith
arrivals-append (arrives sig ∷ xs) ys = omega (arith, arrivals-append xs ys)
arrivals-append (proceeds ∷ xs) ys = arrivals-append xs ys
arrivals-append (receives_signal ∷ xs) ys = arrivals-append xs ys
arrivals-append (receives_stopped ∷ xs) ys = arrivals-append xs ys
arrivals-append (stop_returns ∷ xs) ys = arrivals-append xs ys

-- What has happened still has after one event more.
pub earlier : (x : Event) (past : List Event) (e : Event) → In x past → In x (past ++ e ∷ [])
earlier x past e h = (In-append x past (e ∷ [])).1 (inl h)

pub latest : (past : List Event) (e : Event) → In e (past ++ e ∷ [])
latest past e = (In-append e past (e ∷ [])).1 (inr (inl refl))

-- What sigc holds has arrived.
abbrev pub Buffered : List Event → Option Signal → Type 0
Buffered past none = Unit
Buffered past (some sig) = In (arrives sig) past

pub later-Buffered :
    (past : List Event) (e : Event) (sigc : Option Signal)
    → Buffered past sigc
    → Buffered (past ++ e ∷ []) sigc
later-Buffered past e none h = tt
later-Buffered past e (some sig) h = earlier _ past e h

module _ {F P H : Type 0} where
  -- The signals that have been used or are held
  abbrev pub held : Place F P H → Option Signal → ℕ
  held (stopping sup) none = 1
  held (stopping sup) (some sig) = 2
  held _ none = 0
  held _ (some sig) = 1

  pub held-some : (place : Place F P H) (sig : Signal) → held place (some sig) ≤ 1 + held place none
  held-some initializing sig = omega arith
  held-some (starting sup) sig = omega arith
  held-some (waiting sup) sig = omega arith
  held-some (stopping sup) sig = omega arith
  held-some (ended o) sig = omega arith

  -- An end holds no more than any place.
  pub held-ended :
      (o : Outcome) (place : Place F P H) (sigc : Option Signal)
      → held (ended o) sigc ≤ held place sigc
  held-ended o (stopping sup) none = omega arith
  held-ended o (stopping sup) (some sig) = omega arith
  held-ended o initializing none = omega arith
  held-ended o initializing (some sig) = omega arith
  held-ended o (starting sup) none = omega arith
  held-ended o (starting sup) (some sig) = omega arith
  held-ended o (waiting sup) none = omega arith
  held-ended o (waiting sup) (some sig) = omega arith
  held-ended o (ended o') none = omega arith
  held-ended o (ended o') (some sig) = omega arith

  -- Nor do the places before the shutdown.
  pub held-idle :
      (sup : Supervisor F P H) (place : Place F P H) (sigc : Option Signal)
      → (held (starting sup) sigc ≤ held place sigc) × (held (waiting sup) sigc ≤ held place sigc)
  held-idle sup place none = (held-ended panicked place none, held-ended panicked place none)
  held-idle sup place (some sig) =
      (held-ended panicked place (some sig), held-ended panicked place (some sig))
