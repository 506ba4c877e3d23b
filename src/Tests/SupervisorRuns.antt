-- ===== src/Tests/SupervisorRuns.antt =====
-- Runs of the init functions of supervisor/supervisor.go.
use passive_bitcoin.Prelude.{some, none, [], ◌∷◌, ◌≡◌, refl, true}
use passive_bitcoin.Repository
use passive_bitcoin.Repository.{Repository}
use passive_bitcoin.Supervisor.{
  RepositoryConfig, ProcessorConfig, init_repository, repository_options, between,
}
use passive_bitcoin.Text.{pos}

-- A port and a rate out of bounds, and a limit within.
abbrev pub config : RepositoryConfig
config = record {
  logger = "";
  log_level = "";
  seeds_list = some ("seed.example" ∷ []);
  seeds_port = 65535;
  backup_rate = 60;
  backup_path = "";
  node_limit = 5000;
}

abbrev built : Repository
built = record Repository.defaults {
  file = some none;
  seeds_list = "seed.example" ∷ [];
  node_limit = 5000;
  invalid_range = Repository.reserved;
}

built_init : init_repository (λ path. true) config ≡ some built
unfolding init_repository repository_options between Repository.new Repository.reserved
    Repository.apply Repository.add_range
built_init = refl

abbrev pub lists : ProcessorConfig
lists = record {
  logger = "";
  next = [];
  log_level = "";
  processor_type = "COMMAND_FILTER";
  address_list = [];
  ip_list = [];
  command_list = "tx" ∷ [];
  file_path = "";
  file_prefix = "";
  file_name = "";
  file_suffix = "";
  file_sizelimit = pos 0;
  file_agelimit = pos 0;
  redis_host = "";
  redis_password = "";
  redis_database = pos 0;
  zeromq_host = "";
}
