-- ===== src/Tests/SupervisorBuilds.antt =====
-- Supervisors that New of supervisor/supervisor.go builds for two configurations.
use passive_bitcoin.Prelude.{String, ◌≡◌, refl, inl, true, Option, none, some, List, [], ◌∷◌, All}
use passive_bitcoin.Assoc
use passive_bitcoin.Assoc.{Assoc}
use passive_bitcoin.Repository
use passive_bitcoin.Server.{Server, Net, Accept, go_listen}
use passive_bitcoin.Peer.{Wire}
use passive_bitcoin.Supervisor.{Config, ManagerConfig}
use passive_bitcoin.Supervisor.Init.{Env}
use passive_bitcoin.Supervisor.Modules.{Supervisor, Module}
use passive_bitcoin.Supervisor.Build.{new}
use passive_bitcoin.Supervisor.Running.{start, starts}
use passive_bitcoin.Supervisor.Entries.{Has}
use passive_bitcoin.Supervisor.Wiring.{IsManaged, new-IsManaged}
use passive_bitcoin.Supervisor.Serving.{handed, heard, new-go_listen}
use passive_bitcoin.Supervisor.Typed.{HasType, new-HasType}
use passive_bitcoin.Tests.{text_stringer}
use passive_bitcoin.Text.{ℤ, pos, negsuc}
use passive_bitcoin.Net.{seconds}
use passive_bitcoin.Tests.SupervisorRuns.{config, lists}

-- Surroundings in which everything can be made.
abbrev pub env : Env String
env = record {
  formats = record { parse_format = λ text. some text; message_format = "%{message}" };
  create = λ path. true;
  mkdir = λ path. true;
  ping = λ w. true;
  socket = true;
  bind = λ addr. true;
  random = some 7;
  wire = record { test_net3 = 118034699; reject_version = 70002 };
}

abbrev manager_config : ManagerConfig
manager_config = record {
  logger = "";
  repository = "seeds";
  tracker = "gone";
  processor = "commands" ∷ "gone" ∷ [];
  log_level = "INFO";
  protocol_magic = 0;
  protocol_version = 0;
  connection_rate = pos 0;
  connection_limit = pos 0;
  ticker_interval = pos 0;
}

-- A repository, a tracker, a server, a processor and a manager
abbrev pub whole : Config
whole = record {
  supervisor_log_level = "";
  logger = [];
  repository = ("seeds", config) ∷ [];
  tracker = ("", record { logger = ""; log_level = "" }) ∷ [];
  server =
      ("", record { logger = ""; manager = ""; log_level = ""; host_address = "127.0.0.1:8333" })
      ∷ [];
  processor = ("commands", lists) ∷ [];
  manager = ("main", manager_config) ∷ [];
}

-- The same without a repository
abbrev pub partial : Config
partial = record whole { repository = [] }

abbrev pub Sup : Type 0
Sup = Supervisor String String String

abbrev empty : Sup
empty = record { logr = []; repo = []; tkr = []; svr = []; pro = []; mgr = []; levels = [] }

abbrev pub got : Option Sup → Sup
got none = empty
got (some sup) = sup

-- The supervisors that are built
abbrev whole_sup : Sup
unfolding new
whole_sup = got (new env whole)

abbrev partial_sup : Sup
unfolding new
partial_sup = got (new env partial)

new-IsManaged_example : All (IsManaged env whole whole_sup) whole_sup.mgr
unfolding new Assoc.insert
new-IsManaged_example = new-IsManaged env whole whole_sup refl

-- The same with a file writer instead of the filter, an age limit and a ticker interval
abbrev timed : ℤ → Config
timed interval = record whole {
  processor =
      ("files", record lists { processor_type = "FILE_WRITER"; file_agelimit = pos 3600 }) ∷ [];
  manager = ("main", record manager_config { ticker_interval = interval }) ∷ [];
}

abbrev timed_sup : ℤ → Sup
unfolding new
timed_sup interval = got (new env (timed interval))

-- A ticker interval of -1 seconds
negative_panics : start (timed_sup (negsuc 0)) ≡ none
unfolding start starts new Assoc.insert seconds Assoc.lookup Repository.reserved
    Repository.add_range
negative_panics = refl

-- 9223372037 seconds are too many for a time.Duration.
overflow_panics : start (timed_sup (pos 9223372037)) ≡ none
unfolding start starts new Assoc.insert seconds Assoc.lookup Repository.reserved
    Repository.add_range
overflow_panics = refl

abbrev first : Assoc (Module (Server String)) → Module (Server String)
first [] = record { body = record { host = ""; mgr = none }; log = none }
first ((key, m) ∷ rest) = m

-- The server of the first configuration
abbrev server : Module (Server String)
unfolding new
server = first whole_sup.svr

new-go_listen_example :
    (mgr : String) × Has whole_sup.mgr mgr
    × ((n : Net) (w : Wire) (events : List Accept)
        → go_listen {Q = String} n w server.body events
          ≡ some (handed w mgr (heard n server.body.host events)))
unfolding new Assoc.insert
new-go_listen_example = new-go_listen env whole String whole_sup "" server refl (inl refl)

new-HasType_example : All (HasType env whole whole_sup) whole_sup.pro
unfolding new Assoc.insert
new-HasType_example = new-HasType env whole whole_sup refl
