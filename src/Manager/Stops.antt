-- ===== src/Manager/Stops.antt =====
-- goEvents of manager/manager.go in a manager that New returned, into whose index nothing is put.
use mathlib.Core.List.{foldl}
use passive_bitcoin.Prelude.{
  ◌≡◌, refl, sym, ap, ◌∙◌, String, Option, none, some, List, [], ◌∷◌, ◌++◌, arith, All, ◌≢◌,
  All-append, some-injective, subst,
}
use passive_bitcoin.ParMap
use passive_bitcoin.ParMap.{ParMap, Stringer}
use passive_bitcoin.ParMap.Valid
use passive_bitcoin.ParMap.Lookup.{view, new-view}
use passive_bitcoin.Manager.{
  Manager, Setting, WireConfig, Event, Call, start, greet, poll, stop, repo_connected,
  repo_succeeded, Phase, serving, draining, done, Round, apply, new, step, run, set_repository, ℕ,
  starting,
}
use passive_bitcoin.Manager.Peers.{IsAllowed, step-IsSound}

-- The call stops a peer.
abbrev pub IsStop : {P : Type 0} → Call P → Type 0
IsStop (stop p) = Unit
IsStop _ = ⊥

module _ {P R T Q : Type 0} ⦃s : Stringer P⦄ where
  IsEmpty : Manager P R T Q → Type 0
  IsEmpty mgr = (k : String) → view mgr.peer_index k ≡ none

  allowed_stops :
      (mgr : Manager P R T Q) (calls : List (Call P))
      → IsEmpty mgr
      → All (IsAllowed mgr) calls
      → All IsStop calls
  unfolding IsEmpty
  allowed_stops mgr [] none_at ok = tt
  allowed_stops mgr (c ∷ calls) none_at ok = (one c ok.0, allowed_stops mgr calls none_at ok.1)
    where
      one : (c : Call P) → IsAllowed mgr c → IsStop c
      one (repo_connected p) h = cc (none_at (s.string p), h)
      one (repo_succeeded p) h = cc (none_at (s.string p), h)
      one (start p) h = cc (none_at (s.string p), h)
      one (greet p) h = cc (none_at (s.string p), h)
      one (poll p) h = cc (none_at (s.string p), h)
      one (stop p) h = tt

  -- Runs from an empty index.
  abbrev OnlyStops : Option (Round P R T Q) → Type 0
  OnlyStops o = (r : Round P R T Q) × (o ≡ some r) × All IsStop r.calls × IsEmpty r.mgr

  -- A round of the loop, or of the draining, from an empty index
  open_step-IsEmpty :
      (phase : Phase) (mgr : Manager P R T Q) (repo : R) (e : Event P)
      → phase ≢ done
      → Valid.IsValid mgr.peer_index
      → IsEmpty mgr
      → mgr.repo ≡ some repo
      → (r : Round P R T Q) × (step phase mgr e ≡ some r)
        × All IsStop r.calls
        × Valid.IsValid r.mgr.peer_index
        × IsEmpty r.mgr
        × (r.mgr.repo ≡ some repo)
  unfolding IsEmpty
  open_step-IsEmpty phase mgr repo e open_ v none_at set =
      let (r, eq, ok) = step-IsSound mgr v phase repo e open_ set in
      (
        r,
        eq,
        allowed_stops mgr r.calls none_at ok.allowed,
        ok.index_valid,
        λ k. ok.index_after k ∙ ground (arith, none_at k),
        ok.same_repo ∙ set,
      )

  step-IsEmpty :
      (phase : Phase) (mgr : Manager P R T Q) (repo : R) (e : Event P)
      → Valid.IsValid mgr.peer_index
      → IsEmpty mgr
      → mgr.repo ≡ some repo
      → (r : Round P R T Q) × (step phase mgr e ≡ some r)
        × All IsStop r.calls
        × Valid.IsValid r.mgr.peer_index
        × IsEmpty r.mgr
        × (r.mgr.repo ≡ some repo)
  unfolding step
  step-IsEmpty done mgr repo e v none_at set = (_, refl, tt, v, none_at, set)
  step-IsEmpty serving mgr repo e v none_at set =
      open_step-IsEmpty serving mgr repo e (λ q. cc) v none_at set
  step-IsEmpty draining mgr repo e v none_at set =
      open_step-IsEmpty draining mgr repo e (λ q. cc) v none_at set

  run_empty :
      (phase : Phase) (mgr : Manager P R T Q) (repo : R) (es : List (Event P))
      → Valid.IsValid mgr.peer_index
      → IsEmpty mgr
      → mgr.repo ≡ some repo
      → OnlyStops (run phase mgr es)
  unfolding run
  run_empty phase mgr repo [] v none_at set = (_, refl, tt, none_at)
  run_empty phase mgr repo (e ∷ es) v none_at set =
      let (r, eq, stops, valid, none_later, set_later) =
        step-IsEmpty phase mgr repo e v none_at set in
      let (rest, eq', stops', none_end) =
        run_empty r.phase r.mgr repo es valid none_later set_later in
      (
        record rest { calls = r.calls ++ rest.calls },
        rw (eq, eq'),
        All-append IsStop r.calls rest.calls stops stops',
        none_end,
      )

  apply-peer_index :
      (mgr : Manager P R T Q) (settings : List Setting)
      → (foldl apply mgr settings).peer_index ≡ mgr.peer_index
  unfolding apply
  apply-peer_index mgr [] = refl
  apply-peer_index mgr (setting ∷ rest) = apply-peer_index (apply mgr setting) rest ∙ one setting
    where
      one : (setting : Setting) → (apply mgr setting).peer_index ≡ mgr.peer_index
      one setting = ground arith

  -- A manager that New returned, with a repository injected, stops every peer that reports to it:
  -- whatever messages arrive, it makes no call but stops, and its index stays empty.
  pub new-only_stops :
      (wire : WireConfig) (nonce : ℕ) (settings : List Setting) (mgr : Manager P R T Q) (repo : R)
      → new wire (some nonce) settings ≡ some mgr
      → (es : List (Event P))
      → (r : Round P R T Q) × (run serving (set_repository mgr repo) es ≡ some r)
        × All IsStop r.calls
        × ((k : String) → view r.mgr.peer_index k ≡ none)
  unfolding new set_repository IsEmpty
  new-only_stops wire nonce settings mgr repo built es =
      let (v, none_at) = new-view {V = P} [] (unfold ParMap.new in omega arith) in
      let base = foldl apply (starting wire nonce) settings in
      let same : base ≡ mgr = some-injective base mgr built in
      let index : ParMap.new [] ≡ mgr.peer_index =
        sym (apply-peer_index (starting wire nonce) settings)
        ∙ ap (λ (m : Manager P R T Q). m.peer_index) same in
      let (valid, none_there) =
        subst (λ ix. Valid.IsValid ix × ((k : String) → view ix k ≡ none)) index (v, none_at) in
      run_empty serving (record mgr { repo = some repo }) repo es valid none_there refl
