-- ===== src/Tests/PeerRuns.antt =====
-- Runs of a peer of peer/peer.go.
use passive_bitcoin.Prelude.{
  some, List, [], ◌∷◌, ◌++◌, ◌≡◌, refl, String, true, false, ◌≤◌, ◌⊎◌, ◌+◌, In, ◌↔◌, arith,
}
use passive_bitcoin.Util.{NetAddress, min_uint32}
use passive_bitcoin.Peer.{
  Wire, Peer, Conn, VersionMsg, Message, Effect, msg_version, msg_inv, InvVect, process, send,
  msg_ver_ack, ready, msg_get_addr, close_conn, stopped, msg_ping, start_routines, stop,
  msg_get_data,
}
use passive_bitcoin.Peer.Protocol.{
  Knows, process_message, push_version, recorded, push_get_addr, push_ping,
}
use passive_bitcoin.Peer.Connection.{startup, shutdown}
use passive_bitcoin.Peer.Calls.{
  Action, run, greeting, act, polling, count, shutting_down, sends_version, is_ready, is_stop,
  pinging, is_stopped, starts_routines, starting_up,
}
use passive_bitcoin.Peer.Handshake.{accepted-never_sends, run-versions, process-ready}
use passive_bitcoin.Peer.Rules.{process-refused, process-inventory, refused, TakenAsKnown}
use passive_bitcoin.Peer.Lifetime.{run-guarded}
use passive_bitcoin.Tests.{local, remote, local_ip, remote_ip}

abbrev wire : Wire
wire = record {
  multiple_address_version = 209;
  bip0031_version = 60000;
  reject_version = 70002;
  test_net3 = 118034699;
  sf_node_network = 1;
  new_net_address = λ a. some (record { ip = a.ip; port = a.port; timestamp = 0; services = 1 });
}

abbrev conn : Conn
conn = record { local = some local; remote = some remote }

abbrev me : NetAddress
me = record { ip = local_ip; port = 50123; timestamp = 0; services = 1 }

abbrev you : NetAddress
you = record { ip = remote_ip; port = 18333; timestamp = 0; services = 1 }

-- An incoming peer that has not been greeted.
abbrev fresh : Peer String
fresh = record {
  recs = "log" ∷ [];
  network = 118034699;
  version = 60001;
  nonce = 7;
  addr = some remote;
  conn = some conn;
  me = some me;
  you = some you;
  started = 1;
  finished = 0;
  sent = 0;
  rcvd = 0;
}

abbrev hello : VersionMsg
hello = record {
  protocol_version = 70001;
  services = 1;
  addr_me = you;
  addr_you = me;
  nonce = 8;
  user_agent = ("Satoshi", "0.9.3");
}

abbrev knows : Knows String
knows = record { knows_block = λ h. true; knows_tx = λ h. false }

abbrev accepted : Peer String
accepted = record fresh { version = 70001; sent = 1; rcvd = 1 }

-- The other side's version message is acknowledged; nothing more.
abbrev hello_calls : List (Effect String String)
hello_calls = process "log" (msg_version hello) remote local ∷ send msg_ver_ack ∷ []

abbrev later_actions : List (Action String)
later_actions = greeting ∷ polling ∷ shutting_down ∷ greeting ∷ []

abbrev later_calls : List (Effect String String)
later_calls = send msg_get_addr ∷ close_conn ∷ stopped ∷ []

accepted-never_sends_example : count sends_version (hello_calls ++ later_calls) ≡ 0
unfolding process_message run act min_uint32 push_version push_get_addr shutdown
accepted-never_sends_example =
    accepted-never_sends wire knows fresh accepted (record accepted { finished = 1 })
      (msg_version hello) later_actions hello_calls later_calls refl refl refl refl

-- The own version message, after a greeting.
abbrev own_version : VersionMsg
own_version = record {
  protocol_version = 70002;
  services = 1;
  addr_me = me;
  addr_you = you;
  nonce = 7;
  user_agent = ("Satoshi", "0.9.3");
}

abbrev greeted : Peer String
greeted = record fresh { sent = 1 }

abbrev greet_calls : List (Effect String String)
greet_calls = send (msg_version own_version) ∷ send (msg_ping 7) ∷ []

run-versions_example : (count sends_version greet_calls + 0 ≤ 1) × (greeted.sent ≤ 1)
unfolding run act push_version push_ping
run-versions_example =
    run-versions wire fresh greeted (greeting ∷ greeting ∷ pinging ∷ []) greet_calls refl
      (omega arith)

-- A ping before the version message.
abbrev early_ping : Message String
early_ping = msg_ping 3

process-refused_example :
    ((refused wire fresh early_ping ≡ true)
      × (fresh ≡ record fresh { rcvd = 0 })
      × (recorded fresh conn early_ping ++ stop ∷ [] ≡ recorded fresh conn early_ping ++ stop ∷ []))
    ⊎ ((refused wire fresh early_ping ≡ false)
        × (count is_stop (recorded fresh conn early_ping ++ stop ∷ []) ≡ 0))
unfolding process_message
process-refused_example =
    process-refused wire knows fresh fresh early_ping (recorded fresh conn early_ping ++ stop ∷ [])
      conn refl refl

process-inventory_example :
    (items : List (InvVect String)) × (process_message wire knows accepted
        (msg_inv (record { type = 2; hash = "a" } ∷ []))
      ≡ some (
        accepted,
        recorded accepted conn (msg_inv (record { type = 2; hash = "a" } ∷ []))
            ++ send (msg_get_data items) ∷ [],
      ))
    × ((inv : InvVect String)
        → In inv items
          ↔ (In inv (record { type = 2; hash = "a" } ∷ []) × (¬ TakenAsKnown knows inv)))
process-inventory_example =
    process-inventory wire knows accepted conn (record { type = 2; hash = "a" } ∷ []) refl refl

abbrev ack_calls : List (Effect String String)
ack_calls = process "log" msg_ver_ack remote local ∷ ready ∷ []

process-ready_example :
    (count is_ready ack_calls ≡ 0)
    ⊎ ((count is_ready ack_calls ≡ 1) × (accepted.sent ≡ 1) × (accepted.rcvd ≡ 1))
unfolding process_message
process-ready_example = process-ready wire knows accepted accepted msg_ver_ack ack_calls refl

abbrev idle : Peer String
idle = record fresh { started = 0 }

abbrev ended : Peer String
ended = record fresh { finished = 1 }

abbrev life_calls : List (Effect String String)
life_calls = start_routines ∷ close_conn ∷ stopped ∷ []

run-guarded_example :
    (count is_stopped life_calls + 0 ≤ 1)
    × (ended.finished ≤ 1)
    × (count starts_routines life_calls + 0 ≤ 1)
    × (ended.started ≤ 1)
unfolding run act startup shutdown
run-guarded_example =
    run-guarded wire idle ended (starting_up ∷ starting_up ∷ shutting_down ∷ shutting_down ∷ [])
      life_calls refl (omega arith) (omega arith)
