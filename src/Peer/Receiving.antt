-- ===== src/Peer/Receiving.antt =====
-- goReceive and goProcess of peer/peer.go: the loops that take messages from the connection and from
-- the queue between them, as functions on what they meet.
use passive_bitcoin.Prelude.{◌≡◌, refl, some, List, [], ◌∷◌, ◌++◌, ◌>>=◌, Option-cases, inl, inr}
use passive_bitcoin.Peer.{Wire, Message, Peer}
use passive_bitcoin.Peer.Protocol.{Knows, Done, process_message}
use passive_bitcoin.Peer.Calls.{Action, processing, run, act}

-- What a round of goReceive meets: the closed signal, the idle timer, or what recvMessage returns: a
-- timeout, an error of the message, another error, or a message.
pub data Incoming (H : Type 0) : Type 0 where
  recv_closed recv_idle recv_timeout recv_ignored recv_error : Incoming H
  received : Message H → Incoming H

-- goReceive: the messages that it puts in the queue for goProcess. It calls Stop when it ends.
unfoldable pub go_receive : {H : Type 0} → List (Incoming H) → List (Message H)
go_receive [] = []
go_receive (recv_closed ∷ rest) = []
go_receive (recv_idle ∷ rest) = []
go_receive (recv_error ∷ rest) = []
go_receive (recv_timeout ∷ rest) = go_receive rest
go_receive (recv_ignored ∷ rest) = go_receive rest
go_receive (received m ∷ rest) = m ∷ go_receive rest

-- What the select of goProcess receives: the closed signal, or a message, with what the tracker
-- knows when it is processed. After the signal messages are drained.
pub data Taken (H : Type 0) : Type 0 where
  process_closed : Taken H
  taken : Knows H → Message H → Taken H

-- The actions that goProcess does
abbrev actions : {H : Type 0} → List (Taken H) → List (Action H)
actions [] = []
actions (process_closed ∷ rest) = []
actions (taken tracker msg ∷ rest) = processing tracker msg ∷ actions rest

module _ {Q H : Type 0} where
  -- goProcess; `none` is a panic.
  unfoldable pub go_process : Wire → Peer Q → List (Taken H) → Done Q H
  unfolding process_message
  go_process wire p [] = some (p, [])
  go_process wire p (process_closed ∷ rest) = some (p, [])
  go_process wire p (taken tracker msg ∷ rest) = do
    (q, calls) ← process_message wire tracker p msg
    (r, later) ← go_process wire q rest
    some (r, calls ++ later)

  -- goProcess does to the peer what the actions do that process the messages before the signal, so
  -- what holds of all sequences of actions holds of it.
  go_process-run :
      (wire : Wire) (p : Peer Q) (events : List (Taken H))
      → go_process wire p events ≡ run wire p (actions events)
  unfolding go_process run act
  go_process-run wire p [] = refl
  go_process-run wire p (process_closed ∷ rest) = refl
  go_process-run wire p (taken tracker msg ∷ rest) =
      elim (Option-cases (process_message wire tracker p msg)) [
        | inl e ↦ rw e refl
        | inr (done, e) ↦ rw (e, go_process-run wire done.0 rest) refl
      ]
