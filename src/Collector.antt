-- ===== src/Collector.antt =====
-- collector/pbtc.go: main with the channel of its signals, which holds one, as a machine that moves
-- on one event after the other. What is printed is left out.
pub mod Signals
pub mod Facts
pub mod Trace
pub mod Shutdown
use passive_bitcoin.Prelude.{ℕ, Bool, true, false, Option, none, some, List, [], ◌∷◌}
use mathlib.Core.List.{foldl}
use passive_bitcoin.ParMap.{Stringer}
use passive_bitcoin.Supervisor.{Config}
use passive_bitcoin.Supervisor.Init.{Env}
use passive_bitcoin.Supervisor.Modules.{Supervisor}
use passive_bitcoin.Supervisor.Build
use passive_bitcoin.Supervisor.Running

-- The signals that main asks for with signal.Notify
pub data Signal : Type 0 where
  sigint sighup : Signal

-- How main ends: os.Exit with a code, a panic of the supervisor's Start, or its own panic for a
-- signal during the shutdown
pub data Outcome : Type 0 where
  exit : ℕ → Outcome
  panicked : Outcome
  forced : Signal → Outcome

-- Where main is: before New, before Start, in SigLoop, at the select after it, or at its end
pub data Place (F P H : Type 0) : Type 0 where
  initializing : Place F P H
  starting waiting stopping : Supervisor F P H → Place F P H
  ended : Outcome → Place F P H

-- The program, with what sigc holds, and whether the goroutine that calls Stop waits to send on c.
pub record Main (F P H : Type 0) : Type 0 where
  pub place : Place F P H
  pub sigc : Option Signal
  pub stopped : Bool

-- A signal arrives, main makes its next step outside the two waits, receives from sigc or from c, or
-- Stop of the supervisor returns.
pub data Event : Type 0 where
  arrives : Signal → Event
  proceeds receives_signal receives_stopped stop_returns : Event

-- A signal that finds the channel full is dropped, which signal.Notify documents.
abbrev arrive : Signal → Option Signal → Option Signal
arrive sig none = some sig
arrive sig (some earlier) = some earlier

module _ {F P H : Type 0} where
  -- New, with os.Exit(1) for its error
  abbrev initialized : Option (Supervisor F P H) → Place F P H
  initialized none = ended (exit 1)
  initialized (some sup) = starting sup

  -- Start
  abbrev served : {A : Type 0} → Supervisor F P H → Option A → Place F P H
  served sup none = ended panicked
  served sup (some order) = waiting sup

  -- A signal in SigLoop, and one at the select after it
  abbrev signalled : Place F P H → Signal → Place F P H
  signalled (waiting sup) sigint = stopping sup
  signalled (waiting sup) sighup = waiting sup
  signalled (stopping sup) sig = ended (forced sig)
  signalled place sig = place

  abbrev receives : Place F P H → Bool
  receives (waiting sup) = true
  receives (stopping sup) = true
  receives _ = false

  -- The receive from sigc, which waits while there is no signal
  abbrev receive_signal : Main F P H → Bool → Option Signal → Main F P H
  receive_signal s true (some sig) = record s { place = signalled s.place sig; sigc = none }
  receive_signal s _ _ = s

  -- The receive from c
  abbrev shut_down : Place F P H → Bool → Place F P H
  shut_down (stopping sup) true = ended (exit 0)
  shut_down place _ = place

  -- The goroutine that calls Stop exists only in the shutdown.
  abbrev stop_done : Place F P H → Bool → Bool
  stop_done (stopping sup) _ = true
  stop_done _ stopped = stopped

module _ {F P H : Type 0} ⦃i : Stringer H⦄ (env : Env F) (cfg : Config) where
  abbrev proceed : Place F P H → Place F P H
  proceed initializing = initialized (Build.new env cfg)
  proceed (starting sup) = served sup (Running.start sup)
  proceed place = place

  -- What main does for an event
  unfoldable pub step : Main F P H → Event → Main F P H
  step s (arrives sig) = record s { sigc = arrive sig s.sigc }
  step s proceeds = record s { place = proceed s.place }
  step s receives_signal = receive_signal s (receives s.place) s.sigc
  step s receives_stopped = record s { place = shut_down s.place s.stopped }
  step s stop_returns = record s { stopped = stop_done s.place s.stopped }

  -- main
  unfoldable pub main : List Event → Main F P H
  unfolding step
  main events = foldl step (record { place = initializing; sigc = none; stopped = false }) events
