-- ===== src/Repository/Queues.antt =====
-- goAddresses of repository/repository.go with the four queues that Discovered, Attempted, Connected
-- and Succeeded write to, each of which holds one address: a step relation, where any goroutine calls
-- at any time, and a call returns when its queue has room.
use passive_bitcoin.Prelude.{
  ℕ, String, ◌≡◌, Bool, true, Option, none, some, List, [], ◌∷◌, ◌++◌, ◌==◌, if◌then◌else◌,
}
use passive_bitcoin.Net.{TcpAddr, Time}
use passive_bitcoin.Repository.{Repository}
use passive_bitcoin.Repository.Addresses.{
  Event, discovered, attempted, connected, succeeded, sig_closed, backup_tick, poll_tick, step,
  runs_on,
}

-- The methods that put an address in a queue
pub data Call : Type 0 where
  call_discovered call_attempted call_connected call_succeeded : Call

abbrev place : Call → ℕ
place call_discovered = 0
place call_attempted = 1
place call_connected = 2
place call_succeeded = 3

abbrev pub same : Call → Call → Bool
same c d = place c == place d

-- What the select receives of a queue, at a time
abbrev pub event : Call → TcpAddr → Time → Event
event call_discovered addr now = discovered addr
event call_attempted addr now = attempted addr now
event call_connected addr now = connected addr now
event call_succeeded addr now = succeeded addr now

-- The queues, the index, and whether goAddresses has not returned
pub record Queues : Type 0 where
  pub repo : Repository
  pub queue : Call → Option TcpAddr
  pub running : Bool

-- One queue changed
abbrev pub change : Call → Option TcpAddr → (Call → Option TcpAddr) → Call → Option TcpAddr
change c content queue d = if same c d then content else queue d

-- A round of the loop
abbrev pub round : (TcpAddr → String) → Event → Queues → Queues
round addr_string e s =
    let (next, outcome) = step addr_string s.repo e in
    record s { repo = next; running = runs_on outcome }

-- A call returns, the loop receives an address, or it receives a tick or the closed signal. A step
-- carries the calls that return.
pub data Step (addr_string : TcpAddr → String) : Queues → List Call → Queues → Type 0 where
  returns :
      (s : Queues) (c : Call) (addr : TcpAddr)
      → s.queue c ≡ none
      → Step addr_string s (c ∷ []) (record s { queue = change c (some addr) s.queue })
  receives :
      (s : Queues) (c : Call) (addr : TcpAddr) (now : Time)
      → s.running ≡ true
      → s.queue c ≡ some addr
      → Step addr_string s []
          (round addr_string (event c addr now) (record s { queue = change c none s.queue }))
  ticks : (s : Queues) → s.running ≡ true → Step addr_string s [] (round addr_string poll_tick s)
  backs_up :
      (s : Queues) → s.running ≡ true → Step addr_string s [] (round addr_string backup_tick s)
  stops : (s : Queues) → s.running ≡ true → Step addr_string s [] (round addr_string sig_closed s)

-- Steps in order, with all the calls that return
pub data Reach (addr_string : TcpAddr → String) : Queues → List Call → Queues → Type 0 where
  here : (s : Queues) → Reach addr_string s [] s
  further :
      (s : Queues) (cs : List Call) (t : Queues) (ds : List Call) (u : Queues)
      → Reach addr_string s cs t
      → Step addr_string t ds u
      → Reach addr_string s (cs ++ ds) u
