-- ===== src/Peer/Loops.antt =====
-- goSend of peer/peer.go with the queue of outgoing messages, which holds one message: a step
-- relation on the loop, the queue and what was written, where other goroutines fill the queue in
-- between. A write succeeds, is given up for a timeout or an error of the message, or disconnects. The
-- proofs are in `Peer.Sending`.
use passive_bitcoin.Prelude.{Bool, true, false, Option, none, some, List, [], ◌∷◌, ◌++◌, ◌≡◌}

-- Where goSend is: at the select of its loop, in pushPing, waiting for room in the queue, in the
-- loop that drains the queue, or at its end.
pub data Place : Type 0 where
  selecting pinging draining ended : Place

-- `stopping` says that goSend has called Stop.
pub record Sender (M : Type 0) : Type 0 where
  pub place : Place
  pub queue : Option M
  pub written : List M
  pub stopping : Bool

module _ {M : Type 0} (ping : M) where
  -- One step, with the messages that are put in the queue: by another goroutine, for which the queue
  -- must be empty, or by pushPing.
  pub data Step : Sender M → List M → Sender M → Type 0 where
    queue_up :
        (s : Sender M) (m : M) → s.queue ≡ none → Step s (m ∷ []) (record s { queue = some m })
    sig_closed :
        (s : Sender M)
        → s.place ≡ selecting
        → Step s [] (record s { place = draining; stopping = true })
    idle : (s : Sender M) → s.place ≡ selecting → Step s [] (record s { place = pinging })
    push_ping :
        (s : Sender M)
        → s.place ≡ pinging
        → s.queue ≡ none
        → Step s (ping ∷ []) (record s { place = selecting; queue = some ping })
    write :
        (s : Sender M) (m : M)
        → s.place ≡ selecting
        → s.queue ≡ some m
        → Step s [] (record s { queue = none; written = s.written ++ m ∷ [] })
    give_up :
        (s : Sender M) (m : M)
        → s.place ≡ selecting
        → s.queue ≡ some m
        → Step s [] (record s { queue = none })
    disconnect :
        (s : Sender M) (m : M)
        → s.place ≡ selecting
        → s.queue ≡ some m
        → Step s [] (record s { place = draining; queue = none; stopping = true })
    drain :
        (s : Sender M) (m : M)
        → s.place ≡ draining
        → s.queue ≡ some m
        → Step s [] (record s { queue = none })
    drain_timeout : (s : Sender M) → s.place ≡ draining → Step s [] (record s { place = ended })

  -- Steps in order, with all the messages that they put in the queue
  pub data Reach : Sender M → List M → Sender M → Type 0 where
    here : (s : Sender M) → Reach s [] s
    further :
        (s : Sender M) (ms : List M) (t : Sender M) (ns : List M) (u : Sender M)
        → Reach s ms t
        → Step t ns u
        → Reach s (ms ++ ns) u

-- A peer that has just started its goroutines
abbrev pub fresh : {M : Type 0} → Sender M
fresh = record { place = selecting; queue = none; written = []; stopping = false }
