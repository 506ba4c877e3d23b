-- ===== src/Tests/SenderRuns.antt =====
-- Runs of goSend of peer/peer.go.
use passive_bitcoin.Prelude.{String, ◌≡◌, refl, some, List, [], ◌∷◌}
use passive_bitcoin.Peer.Loops
use passive_bitcoin.Peer.Loops.{Sender, Reach, here, further, fresh}
use passive_bitcoin.Peer.Sending.{IsStuck, IsPart, handled, fresh-IsStuck, reach-IsPart}

fresh-IsStuck_example :
    (s : Sender String) × Reach "ping" fresh ("inv" ∷ []) s
    × IsStuck s "inv"
    × ((ms : List String) (t : Sender String) → Reach "ping" s ms t → t ≡ s)
fresh-IsStuck_example = fresh-IsStuck "ping" "inv"

-- A message is queued and written.
abbrev full : Sender String
full = record fresh { queue = some "inv" }

abbrev sent : Sender String
sent = record fresh { written = "inv" ∷ [] }

reach-IsPart_example : IsPart (handled sent) ("inv" ∷ [])
reach-IsPart_example = reach-IsPart "ping" ("inv" ∷ []) sent (
    further fresh ("inv" ∷ []) full [] sent
      (further fresh [] fresh ("inv" ∷ []) full (here fresh) (Loops.queue_up fresh "inv" refl))
      (Loops.write full "inv" refl refl))
