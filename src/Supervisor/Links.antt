-- ===== src/Supervisor/Links.antt =====
-- What the modules that New builds are given of each other.
use mathlib.Core.List.{foldl, append-nil, append_assoc}
use passive_bitcoin.Prelude.{
  String, ◌≡◌, refl, sym, ap, ◌∙◌, Option, none, some, List, [], ◌∷◌, ◌++◌, inl, inr, All,
  Option-cases, some-injective, subst,
}
use passive_bitcoin.Assoc.{Assoc}
use passive_bitcoin.Manager
use passive_bitcoin.Manager.{Manager, WireConfig}
use passive_bitcoin.Supervisor.{ManagerConfig}
use passive_bitcoin.Supervisor.Modules.{Module, Mgr, resolve, present, link_manager}
use passive_bitcoin.Supervisor.Entries.{Has}

-- Nothing was given yet.
abbrev pub IsUnlinked : {P : Type 0} → Mgr P → Type 0
IsUnlinked mgr = (mgr.repo ≡ none) × (mgr.tkr ≡ none) × (mgr.pro ≡ [])

module _ {P : Type 0} where
  unlinked :
      (settings : List Manager.Setting) (mgr : Mgr P)
      → IsUnlinked mgr
      → IsUnlinked (foldl Manager.apply mgr settings)
  unfolding Manager.apply
  unlinked [] mgr h = h
  unlinked (Manager.set_protocol_magic n ∷ rest) mgr h = unlinked rest _ h
  unlinked (Manager.set_protocol_version n ∷ rest) mgr h = unlinked rest _ h
  unlinked (Manager.set_connection_limit n ∷ rest) mgr h = unlinked rest _ h
  unlinked (Manager.set_connection_rate n ∷ rest) mgr h = unlinked rest _ h
  unlinked (Manager.set_ticker_interval n ∷ rest) mgr h = unlinked rest _ h

  pub new-IsUnlinked :
      (wire : WireConfig) (random : Option _) (settings : List Manager.Setting) (mgr : Mgr P)
      → Manager.new wire random settings ≡ some mgr
      → IsUnlinked mgr
  unfolding Manager.new
  new-IsUnlinked wire none settings mgr e = absurd cc
  new-IsUnlinked wire (some nonce) settings mgr e =
      subst IsUnlinked
        (some-injective (foldl Manager.apply (Manager.starting wire nonce) settings) mgr e)
        (unlinked settings (Manager.starting wire nonce) (refl, refl, refl))

  -- What the injections give: the keys of modules that are there
  abbrev pub Links : {X Y Z : Type 0} → Assoc X → Assoc Y → Assoc Z → Mgr P → Type 0
  Links repo tkr pro mgr =
      ((key : String) → mgr.repo ≡ some key → Has repo key)
      × ((key : String) → mgr.tkr ≡ some key → Has tkr key)
      × All (Has pro) mgr.pro

  pub added :
      (names : List String) (mgr : Mgr P)
      → foldl Manager.add_processor mgr names ≡ record mgr { pro = mgr.pro ++ names }
  unfolding Manager.add_processor
  added [] mgr = ap (λ pro. record mgr { pro = pro }) (sym (append-nil mgr.pro))
  added (name ∷ names) mgr =
      added names (record mgr { pro = mgr.pro ++ name ∷ [] })
      ∙ ap (λ pro. record mgr { pro = pro }) (append_assoc mgr.pro (name ∷ []) names)

  pub linked :
      {X Y Z : Type 0} (repo : Assoc X) (tkr : Assoc Y) (pro : Assoc Z) (cfg : ManagerConfig)
      (m : Module (Mgr P))
      → IsUnlinked m.body
      → let m' = (link_manager repo tkr pro (some cfg) m).body in
        (m'.repo ≡ resolve cfg.repository repo)
        × (m'.tkr ≡ resolve cfg.tracker tkr)
        × (m'.pro ≡ present pro cfg.processor)
  unfolding link_manager Manager.set_repository Manager.set_tracker
  linked repo tkr pro cfg m h = elim (Option-cases (resolve cfg.repository repo)) [
    | inl e ↦ elim (Option-cases (resolve cfg.tracker tkr)) [
      | inl e' ↦ rw (e, e', added) (h.0, h.1, ap (λ p. p ++ present pro cfg.processor) h.2)
      | inr (key, e') ↦ rw (e, e', added) (h.0, refl, ap (λ p. p ++ present pro cfg.processor) h.2)
    ]
    | inr (key, e) ↦ elim (Option-cases (resolve cfg.tracker tkr)) [
      | inl e' ↦ rw (e, e', added) (refl, h.1, ap (λ p. p ++ present pro cfg.processor) h.2)
      | inr (key', e') ↦
          rw (e, e', added) (refl, refl, ap (λ p. p ++ present pro cfg.processor) h.2)
    ]
  ]
