-- ===== src/Processor/Pipeline.antt =====
-- The goroutines of the processors of processor/filter_address.go, filter_command.go, filter_ip.go
-- and processor_dummy.go, and the writers behind them: each has a queue that holds one record, and
-- hands what it forwards to the queues of the next ones, for which it waits. The processors are
-- named as the supervisor names them, and any of them moves at any time.
pub mod Balance
pub mod Flow
pub mod Progress
pub mod Deadlock
pub mod Sums
pub mod Bounded
use passive_bitcoin.Prelude.{
  String, Bool, true, false, Option, none, some, List, [], ◌∷◌, ◌++◌, ◌≡◌, str_eq, if◌then◌else◌,
}
use passive_bitcoin.Processor.{Record, Processor, process}
use passive_bitcoin.Processor.Routes.{each}

-- One goroutine with its channels: recordQ, the calls of Process that forward has still to make for
-- the record in hand, whether sig is closed, and whether goProcess has not returned.
pub record Worker (R : Type 0) : Type 0 where
  pub queue : Option R
  pub handing : List (String × R)
  pub closed : Bool
  pub running : Bool

-- One record that was put in a queue: who put it there, a processor or, for none, a peer; in whose
-- queue; and the record.
pub record Delivery (R : Type 0) : Type 0 where
  pub source : Option String
  pub target : String
  pub item : R

-- All processors, with all deliveries so far, the oldest first.
pub record Net (R : Type 0) : Type 0 where
  pub workers : String → Worker R
  pub log : List (Delivery R)

module _ {R : Type 0} where
  -- NewAddressFilter, NewCommandFilter, NewIPFilter and NewDummy, up to their Start
  abbrev pub started : Worker R
  started = record { queue = none; handing = []; closed = false; running = true }

  abbrev pub start : Net R
  start = record { workers = λ q. started; log = [] }

  -- The worker of one name changed
  abbrev pub alter : String → (Worker R → Worker R) → (String → Worker R) → String → Worker R
  alter q f workers p = if str_eq q p then f (workers p) else workers p

  -- Process, once the queue has room
  abbrev pub enqueue : R → Worker R → Worker R
  enqueue r w = record w { queue = some r }

  -- A call of Process in forward has returned.
  abbrev pub handed : List (String × R) → Worker R → Worker R
  handed rest w = record w { handing = rest }

  -- Stop, up to its wait
  abbrev pub close_sig : Worker R → Worker R
  close_sig w = record w { closed = true }

  -- goProcess returns.
  abbrev pub finish : Worker R → Worker R
  finish w = record w { running = false }

module _ {R : Type 0} ⦃i : Record R⦄ where
  -- goProcess has received a record.
  abbrev pub receive : Processor String → R → Worker R → Worker R
  receive pro r w = record w { queue = none; handing = process pro r }

  -- What happens next: a peer calls Process, a goroutine receives a record, one of its calls of
  -- Process in forward returns, Stop closes the signal, or a goroutine sees it closed. A goroutine
  -- is at its select when there is nothing to hand on, and there it may take either case. `net` is
  -- the graph.
  pub data Step (net : String → Processor String) : Net R → Net R → Type 0 where
    put :
        (s : Net R) (q : String) (r : R)
        → (s.workers q).queue ≡ none
        → Step net s (record {
          workers = alter q (enqueue r) s.workers;
          log = s.log ++ record { source = none; target = q; item = r } ∷ [];
        })
    take :
        (s : Net R) (q : String) (r : R)
        → (s.workers q).running ≡ true
        → (s.workers q).handing ≡ []
        → (s.workers q).queue ≡ some r
        → Step net s (record s { workers = alter q (receive (net q) r) s.workers })
    hand :
        (s : Net R) (q next : String) (r : R) (rest : List (String × R))
        → (s.workers q).handing ≡ (next, r) ∷ rest
        → (s.workers next).queue ≡ none
        → Step net s (record {
          workers = alter next (enqueue r) (alter q (handed rest) s.workers);
          log = s.log ++ record { source = some q; target = next; item = r } ∷ [];
        })
    close :
        (s : Net R) (q : String)
        → (s.workers q).closed ≡ false
        → Step net s (record s { workers = alter q close_sig s.workers })
    end :
        (s : Net R) (q : String)
        → (s.workers q).running ≡ true
        → (s.workers q).handing ≡ []
        → (s.workers q).closed ≡ true
        → Step net s (record s { workers = alter q finish s.workers })

  -- Steps in order
  pub data Reach (net : String → Processor String) : Net R → Net R → Type 0 where
    here : (s : Net R) → Reach net s s
    further : (s t u : Net R) → Reach net s t → Step net t u → Reach net s u
