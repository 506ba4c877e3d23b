-- ===== src/Supervisor/Settings.antt =====
-- What the init functions of supervisor/supervisor.go make of a configuration.
use passive_bitcoin.Assoc.{lookup-nil}
use mathlib.Core.List.{foldl, append-nil}
use passive_bitcoin.Prelude.{
  ℕ, ◌*◌, ◌<◌, String, Bool, true, false, ◌&&◌, Option, none, some, List, [], ◌∷◌, ◌++◌, ◌≡◌, ◌↔◌,
  inl, inr, refl, sym, ◌∙◌, arith, In, ltb, ◌==◌, str_eq, if◌then◌else◌, length, subst, Bool-cases,
  some-injective, not,
}
use passive_bitcoin.Assoc
use passive_bitcoin.Net.{TcpAddr, second, minute, hour}
use passive_bitcoin.Repository
use passive_bitcoin.Repository.{Repository, add_range, reserved}
use passive_bitcoin.Repository.Addresses
use passive_bitcoin.Repository.Index.{IsValid, run-IsValid, run_induction}
use passive_bitcoin.Processor.{set_commands, set_ips, Record, valid}
use passive_bitcoin.Processor.Filters.{filters_iff, commands_of, ips_of}
use passive_bitcoin.Supervisor.{
  RepositoryConfig, ProcessorConfig, between, option_if, repository_options, init_repository,
  init_command_filter, init_ip_filter, seeds_option,
}

-- The value of the configuration if it lies between the bounds, and the default otherwise.
abbrev pub pick : ℕ → ℕ → ℕ → ℕ → ℕ
pick low high default x = if between low high x then x else default

-- Adding ranges changes the ranges only.
ranges_only :
    (repo : Repository) (ranges : List Repository.IpRange)
    → foldl add_range repo ranges
      ≡ record repo { invalid_range = (foldl add_range repo ranges).invalid_range }
unfolding add_range
ranges_only repo [] = refl
ranges_only repo (r ∷ rs) = ranges_only (add_range repo r) rs

-- One option that is given under a condition.
apply-option_if :
    (b : Bool) (repo : Repository) (option : Repository.Setting) (rest : List Repository.Setting)
    → foldl Repository.apply repo (option_if b option ++ rest)
      ≡ foldl Repository.apply (if b then Repository.apply repo option else repo) rest
apply-option_if true repo option rest = refl
apply-option_if false repo option rest = refl

-- The fields that initRepository bounds.
abbrev Fields : Repository → ℕ → ℕ → ℕ → Type 0
Fields repo port rate limit =
    (repo.node_index ≡ [])
    × (repo.seeds_port ≡ port)
    × (repo.backup_rate ≡ rate)
    × (repo.node_limit ≡ limit)

collected :
    (seeds : Option (List String)) (b c d e : Bool) (port : ℕ) (path : String) (rate limit : ℕ)
    → Fields
        (foldl Repository.apply Repository.defaults (
          seeds_option seeds
          ++ option_if b (Repository.set_seeds_port port)
          ++ option_if c (Repository.set_backup_path path)
          ++ option_if d (Repository.set_backup_rate rate)
          ++ option_if e (Repository.set_node_limit limit)))
        (if b then port else 18333)
        (if d then rate else 90 * second)
        (if e then limit else 100000)
unfolding Repository.apply
collected seeds b c d e port path rate limit = ground arith

-- The test against zero is implied by the bounds.
nonzero :
    (x y low high default : ℕ)
    → (x ≡ 0 → y ≡ 0)
    → (if not (x == 0) && between low high y then y else default) ≡ pick low high default y
unfolding between
nonzero x y low high default zero = ground arith

abbrev Bounded : RepositoryConfig → Repository → Type 0
Bounded cfg repo =
    Fields repo (pick 0 65535 18333 cfg.seeds_port)
      (pick (minute * 15) (hour * 24) (90 * second) (cfg.backup_rate * second))
      (pick 1000 1000000 100000 cfg.node_limit)

configured :
    (cfg : RepositoryConfig)
    → Bounded cfg (foldl Repository.apply Repository.defaults (repository_options cfg))
unfolding repository_options between
configured cfg =
    let fields =
      collected cfg.seeds_list (not (cfg.seeds_port == 0) && between 0 65535 cfg.seeds_port)
        (not (str_eq cfg.backup_path ""))
        (not (cfg.backup_rate == 0) && between (minute * 15) (hour * 24) (cfg.backup_rate * second))
        (not (cfg.node_limit == 0) && between 1000 1000000 cfg.node_limit) cfg.seeds_port
        cfg.backup_path (cfg.backup_rate * second) cfg.node_limit in
    (
      fields.0,
      fields.1 ∙ nonzero cfg.seeds_port cfg.seeds_port 0 65535 18333 (λ z. z),
      fields.2
          ∙ nonzero cfg.backup_rate (cfg.backup_rate * second) (minute * 15) (hour * 24)
              (90 * second) (λ z. omega arith),
      fields.3 ∙ nonzero cfg.node_limit cfg.node_limit 1000 1000000 100000 (λ z. z),
    )

-- A repository that initRepository returns has an empty index, and its port, its backup rate and
-- its node limit are those of the configuration where they lie strictly between their bounds (0 and
-- 65535; 15 minutes and 24 hours; 1000 and 1000000) and the defaults of New otherwise.
pub init_repository-settings :
    (create : String → Bool) (cfg : RepositoryConfig) (repo : Repository)
    → init_repository create cfg ≡ some repo
    → (repo.node_index ≡ [])
      × (repo.seeds_port ≡ pick 0 65535 18333 cfg.seeds_port)
      × (repo.backup_rate ≡ pick (minute * 15) (hour * 24) (90 * second) (cfg.backup_rate * second))
      × (repo.node_limit ≡ pick 1000 1000000 100000 cfg.node_limit)
unfolding init_repository Repository.new
init_repository-settings create cfg repo built =
    let base = foldl Repository.apply Repository.defaults (repository_options cfg) in
    let filed : Repository = record base { file = some none } in
    let end = foldl add_range filed reserved in
    elim (Bool-cases (create base.backup_path)) [
      | inl ok ↦
          let same : end ≡ repo = some-injective end repo (rw ok at built) in
          let kept = sym (ranges_only filed reserved) ∙ same in
          subst (Bounded cfg) kept (configured cfg)
      | inr failed ↦ cc (rw failed at built)
    ]

module _ (addr_string : TcpAddr → String) where
  step-node_limit :
      (repo : Repository) (e : Addresses.Event)
      → (Addresses.step addr_string repo e).0.node_limit ≡ repo.node_limit
  unfolding Addresses.step
  step-node_limit repo Addresses.sig_closed = refl
  step-node_limit repo Addresses.backup_tick = refl
  step-node_limit repo Addresses.poll_tick = refl
  step-node_limit repo (Addresses.discovered addr) = unfold Addresses.discover in ground arith
  step-node_limit repo (Addresses.attempted addr now) = unfold Addresses.change in ground arith
  step-node_limit repo (Addresses.connected addr now) = unfold Addresses.change in ground arith
  step-node_limit repo (Addresses.succeeded addr now) = unfold Addresses.change in ground arith

  -- Whatever events a repository that initRepository returned receives, its index stays valid, and
  -- it never holds a million nodes.
  init_repository-run :
      (create : String → Bool) (cfg : RepositoryConfig) (repo : Repository)
      → init_repository create cfg ≡ some repo
      → (es : List Addresses.Event)
      → IsValid addr_string (Addresses.run addr_string repo es).0
        × (length (Addresses.run addr_string repo es).0.node_index < 1000000)
  unfolding between
  init_repository-run create cfg repo built es =
      let (empty, port, rate, limit) = init_repository-settings create cfg repo built in
      let below : repo.node_limit < 1000000 = ground (arith, limit) in
      let valid : IsValid addr_string repo = record {
        unique = subst (λ ix. Assoc.HasUniqueKeys ix) (sym empty) tt;
        keyed = λ k n e. cc (lookup-nil {V = Repository.Node} k, empty, e);
        within = rw empty (omega arith);
        limit_fits = omega (arith, below);
      } in
      let kept =
        run_induction addr_string (λ r. r.node_limit ≡ repo.node_limit)
          (λ r e p. step-node_limit r e ∙ p) repo es refl in
      let after = run-IsValid addr_string repo es valid in
      (after, omega (arith, kept, below, after.within))

commands_all :
    (xs : List String) → commands_of (option_if (ltb 0 (length xs)) (set_commands xs)) ≡ xs
commands_all [] = refl
commands_all (x ∷ xs) =
    let more : ltb 0 (length (x ∷ xs)) ≡ true = ground arith in rw more (append-nil (x ∷ xs))

ips_all : (xs : List String) → ips_of (option_if (ltb 0 (length xs)) (set_ips xs)) ≡ xs
ips_all [] = refl
ips_all (x ∷ xs) =
    let more : ltb 0 (length (x ∷ xs)) ≡ true = ground arith in rw more (append-nil (x ∷ xs))

module _ {R : Type 0} ⦃i : Record R⦄ where
  -- The filters that the init functions return accept exactly the records of the configured
  -- commands and of the configured IPs: none at all where the list is empty.
  init_filters_iff :
      (Q : Type 0) (cfg : ProcessorConfig) (r : R)
      → ((valid (init_command_filter {Q = Q} cfg).kind r ≡ true)
          ↔ In (i.command r) cfg.command_list)
        × ((valid (init_ip_filter {Q = Q} cfg).kind r ≡ true) ↔ In (i.remote_ip r) cfg.ip_list)
  unfolding init_command_filter init_ip_filter
  init_filters_iff Q cfg r =
      let cmds =
        filters_iff Q (option_if (ltb 0 (length cfg.command_list)) (set_commands cfg.command_list))
          r in
      let ips = filters_iff Q (option_if (ltb 0 (length cfg.ip_list)) (set_ips cfg.ip_list)) r in
      (
        subst (λ xs. (valid (init_command_filter {Q = Q} cfg).kind r ≡ true) ↔ In (i.command r) xs)
            (commands_all cfg.command_list) cmds.0,
        subst (λ xs. (valid (init_ip_filter {Q = Q} cfg).kind r ≡ true) ↔ In (i.remote_ip r) xs)
            (ips_all cfg.ip_list) ips.1,
      )
