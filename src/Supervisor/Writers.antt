-- ===== src/Supervisor/Writers.antt =====
-- The dynamic type of a processor that initProcessor of supervisor/supervisor.go builds, and the
-- compressor of a file writer.
use mathlib.Core.List.{foldl}
use passive_bitcoin.Prelude.{
  ◌≡◌, refl, ◌∙◌, not, Bool-cases, Option, none, some, List, [], ◌∷◌, inl, inr, All, Option-cases,
  some-injective, subst, ltb, length, >>=-eq-some,
}
use passive_bitcoin.Net.{is_zero}
use passive_bitcoin.Processor.FileWriter
use passive_bitcoin.Processor.FileWriter.{FileWriter, dummy_compressor}
use passive_bitcoin.Processor.{
  Processor, Kind, ProcessorType, parse_type, address_filter, command_filter, ip_filter,
  dummy_filter, writer, address_filter_type, command_filter_type, ip_filter_type, file_writer_type,
  redis_writer_type, zero_mq_writer_type,
}
use passive_bitcoin.Processor
use passive_bitcoin.Processor.Types.{type_text, parse_type_iff}
use passive_bitcoin.Supervisor.{
  ProcessorConfig, option_if, init_address_filter, init_command_filter, init_ip_filter,
}
use passive_bitcoin.Supervisor.Init.{
  given, Env, Built, Sink, no_sink, file_sink, redis_sink, zeromq_sink, init_processor, init_type,
  init_file_writer, init_redis_writer, init_zeromq_writer, file_writer_options,
}
use passive_bitcoin.Supervisor.Tickers.{All-option_if, optional}

-- The type of a processor; a dummy filter has none that the configuration could name.
abbrev pub kind_type : Kind → Option ProcessorType
kind_type (address_filter config) = some address_filter_type
kind_type (command_filter config) = some command_filter_type
kind_type (ip_filter config) = some ip_filter_type
kind_type dummy_filter = none
kind_type (writer type) = some type

-- The parts that a processor of a type has: a file writer has its file, with the compressor that
-- copies, the other writers have their connections, and a filter has neither.
abbrev pub Fits : ProcessorType → Sink → Type 0
Fits address_filter_type no_sink = Unit
Fits command_filter_type no_sink = Unit
Fits ip_filter_type no_sink = Unit
Fits file_writer_type (file_sink w) = w.comp ≡ dummy_compressor
Fits redis_writer_type (redis_sink w) = Unit
Fits zero_mq_writer_type (zeromq_sink w) = Unit
Fits _ _ = ⊥

-- An option that leaves the compressor alone
abbrev IsPlain : FileWriter.Setting → Type 0
IsPlain (FileWriter.set_file_compressor comp) = ⊥
IsPlain _ = Unit

comp-apply :
    (settings : List FileWriter.Setting) (w : FileWriter)
    → All IsPlain settings
    → (foldl FileWriter.apply w settings).comp ≡ w.comp
unfolding FileWriter.apply
comp-apply [] w all = refl
comp-apply (FileWriter.set_file_compressor c ∷ rest) w all = absurd (all.0)
comp-apply (FileWriter.set_file_path s ∷ rest) w all = comp-apply rest _ all.1
comp-apply (FileWriter.set_file_prefix s ∷ rest) w all = comp-apply rest _ all.1
comp-apply (FileWriter.set_file_name s ∷ rest) w all = comp-apply rest _ all.1
comp-apply (FileWriter.set_file_suffix s ∷ rest) w all = comp-apply rest _ all.1
comp-apply (FileWriter.set_file_sizelimit n ∷ rest) w all = comp-apply rest _ all.1
comp-apply (FileWriter.set_file_agelimit n ∷ rest) w all = comp-apply rest _ all.1

options-IsPlain : (c : ProcessorConfig) → All IsPlain (file_writer_options c)
unfolding file_writer_options
options-IsPlain c =
    let path =
      All-option_if IsPlain (given c.file_path) (FileWriter.set_file_path c.file_path) (λ h. tt) in
    let prefix =
      optional IsPlain _ (given c.file_prefix) (FileWriter.set_file_prefix c.file_prefix) path
        (λ h. tt) in
    let name =
      optional IsPlain _ (given c.file_name) (FileWriter.set_file_name c.file_name) prefix
        (λ h. tt) in
    let suffix =
      optional IsPlain _ (given c.file_suffix) (FileWriter.set_file_suffix c.file_suffix) name
        (λ h. tt) in
    let size =
      optional IsPlain _ (not (is_zero c.file_sizelimit))
        (FileWriter.set_file_sizelimit c.file_sizelimit) suffix (λ h. tt) in
    optional IsPlain _ (not (is_zero c.file_agelimit)) _ size (λ h. tt)

-- An option does not change the type of a filter.
apply-kind :
    (kind : Kind) (setting : Processor.Setting)
    → kind_type (Processor.apply kind setting) ≡ kind_type kind
unfolding Processor.apply
apply-kind (address_filter config) (Processor.set_addresses xs) = refl
apply-kind (address_filter config) (Processor.set_commands xs) = refl
apply-kind (address_filter config) (Processor.set_ips xs) = refl
apply-kind (command_filter config) (Processor.set_addresses xs) = refl
apply-kind (command_filter config) (Processor.set_commands xs) = refl
apply-kind (command_filter config) (Processor.set_ips xs) = refl
apply-kind (ip_filter config) (Processor.set_addresses xs) = refl
apply-kind (ip_filter config) (Processor.set_commands xs) = refl
apply-kind (ip_filter config) (Processor.set_ips xs) = refl
apply-kind dummy_filter (Processor.set_addresses xs) = refl
apply-kind dummy_filter (Processor.set_commands xs) = refl
apply-kind dummy_filter (Processor.set_ips xs) = refl
apply-kind (writer type) (Processor.set_addresses xs) = refl
apply-kind (writer type) (Processor.set_commands xs) = refl
apply-kind (writer type) (Processor.set_ips xs) = refl

kind_type-apply :
    (settings : List Processor.Setting) (kind : Kind)
    → kind_type (foldl Processor.apply kind settings) ≡ kind_type kind
kind_type-apply [] kind = refl
kind_type-apply (setting ∷ settings) kind =
    kind_type-apply settings (Processor.apply kind setting) ∙ apply-kind kind setting

module _ {F : Type 0} (env : Env F) where
  init_file_writer-comp :
      (c : ProcessorConfig) (w : FileWriter)
      → init_file_writer env c ≡ some w
      → w.comp ≡ dummy_compressor
  unfolding init_file_writer FileWriter.new
  init_file_writer-comp c w e =
      let built = foldl FileWriter.apply FileWriter.starting (file_writer_options c) in
      elim (Bool-cases (env.mkdir built.file_path)) [
        | inl made ↦
            subst (λ v. v.comp ≡ dummy_compressor) (some-injective built w (rw made at e))
              (comp-apply (file_writer_options c) FileWriter.starting (options-IsPlain c))
        | inr failed ↦ absurd (cc (rw failed at e))
      ]

  -- What a processor is that was built for a type
  abbrev pub Typed : {Q : Type 0} → ProcessorType → Built Q → Type 0
  Typed type b = (kind_type b.pro.kind ≡ some type) × Fits type b.sink × (b.pro.next ≡ [])

  init_type-Typed :
      {Q : Type 0} (c : ProcessorConfig) (type : ProcessorType) (b : Built Q)
      → init_type env c type ≡ some b
      → Typed type b
  unfolding init_type init_address_filter init_command_filter init_ip_filter
      Processor.new_address_filter Processor.new_command_filter Processor.new_ip_filter
  init_type-Typed c address_filter_type b e =
      subst (λ v. Typed address_filter_type v) (some-injective _ b e)
        (
          kind_type-apply
              (option_if (ltb 0 (length c.address_list)) (Processor.set_addresses c.address_list))
              (address_filter []),
          tt,
          refl,
        )
  init_type-Typed c command_filter_type b e =
      subst (λ v. Typed command_filter_type v) (some-injective _ b e)
        (
          kind_type-apply
              (option_if (ltb 0 (length c.command_list)) (Processor.set_commands c.command_list))
              (command_filter []),
          tt,
          refl,
        )
  init_type-Typed c ip_filter_type b e =
      subst (λ v. Typed ip_filter_type v) (some-injective _ b e)
        (
          kind_type-apply (option_if (ltb 0 (length c.ip_list)) (Processor.set_ips c.ip_list))
              (ip_filter []),
          tt,
          refl,
        )
  init_type-Typed c file_writer_type b e = elim (Option-cases (init_file_writer env c)) [
    | inl failed ↦ absurd (cc (rw failed at e))
    | inr (w, made) ↦
        subst (λ v. Typed file_writer_type v) (some-injective _ b (rw made at e))
          (refl, init_file_writer-comp c w made, refl)
  ]
  init_type-Typed c redis_writer_type b e = elim (Option-cases (init_redis_writer env c)) [
    | inl failed ↦ absurd (cc (rw failed at e))
    | inr (w, made) ↦
        subst (λ v. Typed redis_writer_type v) (some-injective _ b (rw made at e)) (refl, tt, refl)
  ]
  init_type-Typed c zero_mq_writer_type b e = elim (Option-cases (init_zeromq_writer env c)) [
    | inl failed ↦ absurd (cc (rw failed at e))
    | inr (w, made) ↦
        subst (λ v. Typed zero_mq_writer_type v) (some-injective _ b (rw made at e))
          (refl, tt, refl)
  ]

  pub init_processor-Typed :
      {Q : Type 0} (c : ProcessorConfig) (b : Built Q)
      → init_processor env c ≡ some b
      → (type : ProcessorType) × (c.processor_type ≡ type_text type) × Typed type b
  unfolding init_processor
  init_processor-Typed c b e =
      let (type, named, made) = >>=-eq-some (parse_type c.processor_type) _ b e in
      (type, (parse_type_iff c.processor_type type).0 named, init_type-Typed c type b made)
