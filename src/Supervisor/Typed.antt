-- ===== src/Supervisor/Typed.antt =====
-- The dynamic types of the processors that New of supervisor/supervisor.go builds, and what becomes
-- of the type that the configuration names.
use mathlib.Core.List.{foldl, append-nil, append_assoc}
use passive_bitcoin.Prelude.{
  String, ◌≡◌, sym, ap, ◌∙◌, Option, none, some, List, [], ◌∷◌, ◌++◌, All, In, subst,
}
use passive_bitcoin.Assoc
use passive_bitcoin.Assoc.{Assoc}
use passive_bitcoin.ParMap.{Stringer}
use passive_bitcoin.Processor.{
  Processor, Kind, ProcessorType, parse_type, address_filter, command_filter, ip_filter,
  dummy_filter, writer, address_filter_type, command_filter_type, ip_filter_type, file_writer_type,
  redis_writer_type, zero_mq_writer_type,
}
use passive_bitcoin.Processor
use passive_bitcoin.Processor.Types.{type_text}
use passive_bitcoin.Supervisor.{Config, ProcessorConfig}
use passive_bitcoin.Supervisor.Init.{Env, Built, init_processor}
use passive_bitcoin.Supervisor.Modules.{
  Supervisor, Module, link_processor, inject_logs, bare, present,
}
use passive_bitcoin.Supervisor.Build.{new, wire_up, processors}
use passive_bitcoin.Supervisor.Entries.{All-update_all, All-init_all, bare-made, present-update_all}
use passive_bitcoin.Supervisor.Wiring.{new-Maps}
use passive_bitcoin.Supervisor.Writers.{kind_type, Fits, init_processor-Typed}

-- The links of a processor that had none
added :
    (names : List String) (pro : Processor String)
    → foldl Processor.add_next pro names ≡ record pro { next = pro.next ++ names }
unfolding Processor.add_next
added [] pro = ap (λ l. record pro { next = l }) (sym (append-nil pro.next))
added (name ∷ names) pro =
    added names (record pro { next = pro.next ++ name ∷ [] })
    ∙ ap (λ l. record pro { next = l }) (append_assoc pro.next (name ∷ []) names)

module _ {F : Type 0} (env : Env F) (cfg : Config) where
  -- A processor comes from an entry of the configuration, whose type it has.
  abbrev FromEntry : String × Module (Built String) → Type 0
  FromEntry e =
      (c : ProcessorConfig) × In (e.0, c) cfg.processor
      × ((type : ProcessorType) × (c.processor_type ≡ type_text type)
          × (kind_type e.1.body.pro.kind ≡ some type)
          × Fits type e.1.body.sink)

  -- Nothing comes behind it yet.
  abbrev IsFresh : String × Module (Built String) → Type 0
  IsFresh e = FromEntry e × (e.1.body.pro.next ≡ [])

  IsFresh-processors : All IsFresh (processors env cfg)
  unfolding processors
  IsFresh-processors =
      All-init_all IsFresh (λ c. bare (init_processor env c)) cfg.processor []
        (λ key c m here made.
          let (type, named, (kind, fits, alone)) =
            init_processor-Typed env c m.body (bare-made (init_processor env c) m made).0 in
          ((c, here, (type, named, kind, fits)), alone))
        tt

  link-FromEntry :
      (pro : Assoc (Module (Built String))) (key : String) (o : Option ProcessorConfig)
      (m : Module (Built String))
      → FromEntry (key, m)
      → FromEntry (key, link_processor pro o m)
  unfolding link_processor
  link-FromEntry pro key none m h = h
  link-FromEntry pro key (some c) m h =
      subst
        (λ (p : Processor String). FromEntry (key, record m { body = record m.body { pro = p } }))
        (sym (added (present pro c.next) m.body.pro)) h

  link-next :
      (pro : Assoc (Module (Built String))) (c : ProcessorConfig) (m : Module (Built String))
      → m.body.pro.next ≡ []
      → (link_processor pro (some c) m).body.pro.next ≡ present pro c.next
  unfolding link_processor
  link-next pro c m alone =
      ap (λ p. p.next) (added (present pro c.next) m.body.pro)
      ∙ ap (λ l. l ++ present pro c.next) alone

module _ {F P H : Type 0} ⦃i : Stringer H⦄ (env : Env F) (cfg : Config) where
  -- The next ones are those that the entry of its key names and that are there.
  abbrev pub HasType : Supervisor F P H → String × Module (Built String) → Type 0
  HasType sup e =
      FromEntry env cfg e
      × ((c : ProcessorConfig)
          → Assoc.lookup e.0 cfg.processor ≡ some c
          → e.1.body.pro.next ≡ present sup.pro c.next)

  -- Every processor of a supervisor that New returns comes from an entry of the configuration and has
  -- the dynamic type that the text of the entry names, whatever else the entry sets: a filter of that
  -- kind, or a writer with the file or the connection of that type, where a file writer has the
  -- compressor that copies, since the configured compression reaches none. Its next processors are
  -- exactly those that the entry of its key names and that are there, in order.
  pub new-HasType : (sup : Supervisor F P H) → new env cfg ≡ some sup → All (HasType sup) sup.pro
  unfolding wire_up inject_logs
  new-HasType sup e =
      let maps = new-Maps env cfg sup e in
      let pro = processors env cfg in
      let built = wire_up env cfg maps.logr maps.repo maps.tkr maps.mgr in
      let injected =
        All-update_all (IsFresh env cfg) (IsFresh env cfg) _ pro (λ key m h. h)
          (IsFresh-processors env cfg) in
      subst (λ s. All (HasType s) s.pro) maps.wired
        (All-update_all (IsFresh env cfg) (HasType built) _ _
          (λ key m h. (
            link-FromEntry env cfg pro key (Assoc.lookup key cfg.processor) m h.0,
            λ c found. rw found (
                link-next env cfg pro c m h.1
                ∙ sym (present-update_all _ _ c.next ∙ present-update_all _ pro c.next)),
          ))
          injected)
