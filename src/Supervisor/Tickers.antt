-- ===== src/Supervisor/Tickers.antt =====
-- When the intervals of the tickers that the modules are built with are positive.
use mathlib.Core.List.{foldl}
use passive_bitcoin.Prelude.{
  ℕ, ◌≡◌, refl, sym, ap, ◌∙◌, arith, Bool, true, false, not, Bool-cases, Option, none, some, List,
  [], ◌∷◌, ◌++◌, inl, inr, All, All-append, ◌==◌, Option-cases, some-injective, subst, >>=-eq-some,
  ◌||◌, ◌≤◌, ◌<◌,
}
use passive_bitcoin.Net.{is_zero, is_positive, seconds, per_second}
use passive_bitcoin.Text.{ℤ, pos, negsuc}
use passive_bitcoin.Manager
use passive_bitcoin.Manager.{Manager, WireConfig}
use passive_bitcoin.Processor.FileWriter
use passive_bitcoin.Processor.FileWriter.{FileWriter}
use passive_bitcoin.Processor.{ProcessorType, parse_type}
use passive_bitcoin.Processor
use passive_bitcoin.Supervisor.{ProcessorConfig, ManagerConfig, option_if}
use passive_bitcoin.Supervisor.Init.{
  given, Env, Built, init_processor, init_type, init_file_writer, init_redis_writer,
  init_zeromq_writer, manager_options, file_writer_options,
}
use passive_bitcoin.Supervisor.Modules.{Mgr}
use passive_bitcoin.Supervisor.Running.{sink_ok}

-- A number of seconds that is left out of the configuration, or that is a positive time.Duration
abbrev pub lasts : ℤ → Bool
lasts n = is_zero n || is_positive (seconds n)

lasts-positive : (n : ℤ) → lasts n ≡ true → not (is_zero n) ≡ true → is_positive (seconds n) ≡ true
lasts-positive n fits given_ = ground (arith, fits, given_)

-- A number of seconds is a positive time.Duration up to 9223372036, about 292 years.
lasts-pos : (n : ℕ) → n ≤ 9223372036 → lasts (pos n) ≡ true
unfolding seconds
lasts-pos n h = ground (arith, h)

-- A negative number is not, except where the product wraps.
lasts-negsuc : (n : ℕ) → n < 9223372036 → lasts (negsuc n) ≡ false
unfolding seconds
lasts-negsuc n h = ground (arith, h)

-- An option that is given under a condition is given where the condition holds.
pub All-option_if :
    {A : Type 0} (P : A → Type 0) (b : Bool) (a : A) → (b ≡ true → P a) → All P (option_if b a)
All-option_if P true a h = (h refl, tt)
All-option_if P false a h = tt

pub optional :
    {A : Type 0} (P : A → Type 0) (front : List A) (b : Bool) (a : A)
    → All P front
    → (b ≡ true → P a)
    → All P (front ++ option_if b a)
optional P front b a all h = All-append P front (option_if b a) all (All-option_if P b a h)

-- The ticker of a manager
abbrev Ticks : Manager.Setting → Type 0
Ticks (Manager.set_ticker_interval d) = is_positive d ≡ true
Ticks _ = Unit

module _ {P : Type 0} where
  apply-Ticks :
      (settings : List Manager.Setting) (mgr : Mgr P)
      → is_positive mgr.ticker_interval ≡ true
      → All Ticks settings
      → is_positive (foldl Manager.apply mgr settings).ticker_interval ≡ true
  unfolding Manager.apply
  apply-Ticks [] mgr h all = h
  apply-Ticks (Manager.set_protocol_magic n ∷ rest) mgr h all = apply-Ticks rest _ h all.1
  apply-Ticks (Manager.set_protocol_version n ∷ rest) mgr h all = apply-Ticks rest _ h all.1
  apply-Ticks (Manager.set_connection_limit n ∷ rest) mgr h all = apply-Ticks rest _ h all.1
  apply-Ticks (Manager.set_connection_rate n ∷ rest) mgr h all = apply-Ticks rest _ h all.1
  apply-Ticks (Manager.set_ticker_interval n ∷ rest) mgr h all = apply-Ticks rest _ all.0 all.1

  pub new-Ticks :
      (wire : WireConfig) (random : Option ℕ) (settings : List Manager.Setting) (mgr : Mgr P)
      → All Ticks settings
      → Manager.new wire random settings ≡ some mgr
      → is_positive mgr.ticker_interval ≡ true
  unfolding Manager.new
  new-Ticks wire none settings mgr all e = absurd cc
  new-Ticks wire (some nonce) settings mgr all e =
      subst (λ m. is_positive m.ticker_interval ≡ true)
        (some-injective (foldl Manager.apply (Manager.starting wire nonce) settings) mgr e)
        (apply-Ticks settings (Manager.starting wire nonce) refl all)

pub manager_options-Ticks :
    (c : ManagerConfig) → lasts c.ticker_interval ≡ true → All Ticks (manager_options c)
unfolding manager_options
manager_options-Ticks c fits =
    let ticks = lasts-positive c.ticker_interval fits in
    let limit =
      All-option_if Ticks (not (is_zero c.connection_limit))
        (Manager.set_connection_limit c.connection_limit) (λ h. tt) in
    let rate =
      optional Ticks _ (not (is_zero c.connection_rate))
        (Manager.set_connection_rate (per_second c.connection_rate)) limit (λ h. tt) in
    let magic =
      optional Ticks _ (not (c.protocol_magic == 0)) (Manager.set_protocol_magic c.protocol_magic)
        rate (λ h. tt) in
    let version =
      optional Ticks _ (not (c.protocol_version == 0))
        (Manager.set_protocol_version c.protocol_version) magic (λ h. tt) in
    optional Ticks _ (not (is_zero c.ticker_interval))
      (Manager.set_ticker_interval (seconds c.ticker_interval)) version ticks

-- The age limit of a file writer
abbrev Limits : FileWriter.Setting → Type 0
Limits (FileWriter.set_file_agelimit d) = is_positive d ≡ true
Limits _ = Unit

apply-Limits :
    (settings : List FileWriter.Setting) (w : FileWriter)
    → is_positive w.file_agelimit ≡ true
    → All Limits settings
    → is_positive (foldl FileWriter.apply w settings).file_agelimit ≡ true
unfolding FileWriter.apply
apply-Limits [] w h all = h
apply-Limits (FileWriter.set_file_compressor c ∷ rest) w h all = apply-Limits rest _ h all.1
apply-Limits (FileWriter.set_file_path s ∷ rest) w h all = apply-Limits rest _ h all.1
apply-Limits (FileWriter.set_file_prefix s ∷ rest) w h all = apply-Limits rest _ h all.1
apply-Limits (FileWriter.set_file_name s ∷ rest) w h all = apply-Limits rest _ h all.1
apply-Limits (FileWriter.set_file_suffix s ∷ rest) w h all = apply-Limits rest _ h all.1
apply-Limits (FileWriter.set_file_sizelimit n ∷ rest) w h all = apply-Limits rest _ h all.1
apply-Limits (FileWriter.set_file_agelimit n ∷ rest) w h all = apply-Limits rest _ all.0 all.1

abbrev optional_sink_ok : {Q : Type 0} → Option (Built Q) → Bool
optional_sink_ok none = true
optional_sink_ok (some b) = sink_ok b.sink

module _ {F : Type 0} (env : Env F) where
  init_file_writer-limited :
      (c : ProcessorConfig) (w : FileWriter)
      → lasts c.file_agelimit ≡ true
      → init_file_writer env c ≡ some w
      → is_positive w.file_agelimit ≡ true
  unfolding init_file_writer FileWriter.new file_writer_options
  init_file_writer-limited c w fits e =
      let limits = lasts-positive c.file_agelimit fits in
      let path =
        All-option_if Limits (given c.file_path) (FileWriter.set_file_path c.file_path) (λ h. tt) in
      let prefix =
        optional Limits _ (given c.file_prefix) (FileWriter.set_file_prefix c.file_prefix) path
          (λ h. tt) in
      let name =
        optional Limits _ (given c.file_name) (FileWriter.set_file_name c.file_name) prefix
          (λ h. tt) in
      let suffix =
        optional Limits _ (given c.file_suffix) (FileWriter.set_file_suffix c.file_suffix) name
          (λ h. tt) in
      let size =
        optional Limits _ (not (is_zero c.file_sizelimit))
          (FileWriter.set_file_sizelimit c.file_sizelimit) suffix (λ h. tt) in
      let all =
        optional Limits _ (not (is_zero c.file_agelimit))
          (FileWriter.set_file_agelimit (seconds c.file_agelimit)) size limits in
      let limited = apply-Limits (file_writer_options c) FileWriter.starting refl all in
      let built = foldl FileWriter.apply FileWriter.starting (file_writer_options c) in
      elim (Bool-cases (env.mkdir built.file_path)) [
        | inl made ↦
            subst (λ v. is_positive v.file_agelimit ≡ true) (some-injective built w (rw made at e))
              limited
        | inr failed ↦ absurd (cc (rw failed at e))
      ]

  type-sink_ok :
      {Q : Type 0} (c : ProcessorConfig) (type : ProcessorType) (b : Built Q)
      → lasts c.file_agelimit ≡ true
      → init_type env c type ≡ some b
      → sink_ok b.sink ≡ true
  unfolding init_type
  type-sink_ok c Processor.address_filter_type b fits e = ap (λ o. optional_sink_ok o) (sym e)
  type-sink_ok c Processor.command_filter_type b fits e = ap (λ o. optional_sink_ok o) (sym e)
  type-sink_ok c Processor.ip_filter_type b fits e = ap (λ o. optional_sink_ok o) (sym e)
  type-sink_ok c Processor.file_writer_type b fits e =
      elim (Option-cases (init_file_writer env c)) [
        | inl failed ↦ absurd (cc (rw failed at e))
        | inr (w, made) ↦
            let limited = init_file_writer-limited c w fits made in
            ap (λ o. optional_sink_ok o) (sym (rw made at e)) ∙ limited
      ]
  type-sink_ok c Processor.redis_writer_type b fits e =
      elim (Option-cases (init_redis_writer env c)) [
        | inl failed ↦ absurd (cc (rw failed at e))
        | inr (w, made) ↦ ap (λ o. optional_sink_ok o) (sym (rw made at e))
      ]
  type-sink_ok c Processor.zero_mq_writer_type b fits e =
      elim (Option-cases (init_zeromq_writer env c)) [
        | inl failed ↦ absurd (cc (rw failed at e))
        | inr (w, made) ↦ ap (λ o. optional_sink_ok o) (sym (rw made at e))
      ]

  pub init_processor-sink_ok :
      {Q : Type 0} (c : ProcessorConfig) (b : Built Q)
      → lasts c.file_agelimit ≡ true
      → init_processor env c ≡ some b
      → sink_ok b.sink ≡ true
  unfolding init_processor
  init_processor-sink_ok c b fits e =
      let (type, _, made) = >>=-eq-some (parse_type c.processor_type) _ b e in
      type-sink_ok c type b fits made
