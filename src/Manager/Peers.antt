-- ===== src/Manager/Peers.antt =====
-- goEvents of manager/manager.go in its loop: which peers it starts, and which it stops.
use passive_bitcoin.Prelude.{
  ◌≡◌, refl, String, Bool, true, false, Option, none, some, List, [], ◌∷◌, arith, str_eq,
  if◌then◌else◌, is_some, All, Bool-cases, inl, inr, eq_iff, ◌≢◌,
}
use passive_bitcoin.ParMap
use passive_bitcoin.ParMap.{ParMap, Stringer}
use passive_bitcoin.ParMap.Valid
use passive_bitcoin.ParMap.Lookup.{view, has_key-view, remove_key-view}
use passive_bitcoin.Manager.{
  Manager, Event, sig_closed, connected, ready, stopped, Call, start, greet, poll, stop,
  repo_connected, repo_succeeded, Phase, serving, draining, done, Round, serve, drain, drain_phase,
  step,
}

module _ {P : Type 0} ⦃s : Stringer P⦄ where
  -- The key leaves the index: a stopped peer has it as its text.
  abbrev pub leaves : Event P → String → Bool
  leaves (stopped p) k = str_eq (s.string p) k
  leaves _ k = false

module _ {P R T Q : Type 0} ⦃s : Stringer P⦄ where
  -- The peer is in the index.
  abbrev pub IsManaged : Manager P R T Q → P → Type 0
  IsManaged mgr p = is_some (view mgr.peer_index (s.string p)) ≡ true

  pub has-view :
      (mgr : Manager P R T Q) (p : P)
      → Valid.IsValid mgr.peer_index
      → ParMap.has mgr.peer_index p ≡ some (is_some (view mgr.peer_index (s.string p)))
  unfolding ParMap.has
  has-view mgr p v = has_key-view mgr.peer_index (s.string p) v

  -- A call that starts, greets or polls a peer, or tells the repository of it, is made for a peer in
  -- the index only; a stop is always allowed.
  abbrev pub IsAllowed : Manager P R T Q → Call P → Type 0
  IsAllowed mgr (repo_connected p) = IsManaged mgr p
  IsAllowed mgr (repo_succeeded p) = IsManaged mgr p
  IsAllowed mgr (start p) = IsManaged mgr p
  IsAllowed mgr (greet p) = IsManaged mgr p
  IsAllowed mgr (poll p) = IsManaged mgr p
  IsAllowed mgr (stop p) = Unit

  -- What a round does: its calls are allowed, the index stays valid and loses a stopped peer only,
  -- and the repository is kept.
  pub record IsSound (mgr : Manager P R T Q) (e : Event P) (r : Round P R T Q) : Type 0 where
    pub allowed : All (IsAllowed mgr) r.calls
    pub index_valid : Valid.IsValid r.mgr.peer_index
    pub index_after :
        (k : String)
        → view r.mgr.peer_index k ≡ (if leaves e k then none else view mgr.peer_index k)
    pub same_repo : r.mgr.repo ≡ mgr.repo

  module _ (mgr : Manager P R T Q) (v : Valid.IsValid mgr.peer_index) where
    stays :
        (phase : Phase) (e : Event P) (calls : List (Call P))
        → ((k : String) → leaves e k ≡ false)
        → All (IsAllowed mgr) calls
        → IsSound mgr e (record { phase = phase; mgr = mgr; calls = calls })
    stays phase e calls none_leaves ok = record {
      allowed = ok;
      index_valid = v;
      index_after = λ k. rw (none_leaves k);
      same_repo = refl;
    }

    removed :
        (p : P)
        → (index : ParMap P) × (ParMap.remove mgr.peer_index p ≡ some index)
          × ((phase : Phase)
              → IsSound mgr
                  (stopped p)
                  (record { phase = phase; mgr = record mgr { peer_index = index }; calls = [] }))
    unfolding ParMap.remove
    removed p =
        let (index, e, valid, at) = remove_key-view mgr.peer_index (s.string p) v in
        (
          index,
          e,
          λ phase. record { allowed = tt; index_valid = valid; index_after = at; same_repo = refl },
        )

    -- From an unknown peer nothing leaves the index.
    absent :
        (p : P)
        → is_some (view mgr.peer_index (s.string p)) ≡ false
        → IsSound mgr (stopped p) (record { phase = serving; mgr = mgr; calls = [] })
    absent p gone = record {
      allowed = tt;
      index_valid = v;
      index_after = λ k. ground (arith, eq_iff (s.string p) k, gone);
      same_repo = refl;
    }

    abbrev Sound : Event P → Option (Round P R T Q) → Type 0
    Sound e o = (r : Round P R T Q) × (o ≡ some r) × IsSound mgr e r

    serve-IsSound : (repo : R) (e : Event P) → mgr.repo ≡ some repo → Sound e (serve mgr e)
    unfolding serve
    serve-IsSound repo sig_closed set = (_, refl, stays _ sig_closed [] (λ k. refl) tt)
    serve-IsSound repo (connected p) set =
        elim (Bool-cases (is_some (view mgr.peer_index (s.string p)))) [
          | inl known ↦ (
            _,
            rw (has-view mgr p v, known, set),
            stays serving (connected p) (repo_connected p ∷ start p ∷ greet p ∷ []) (λ k. refl)
                (known, (known, (known, tt))),
          )
          | inr unknown ↦ (
            _,
            rw (has-view mgr p v, unknown),
            stays serving (connected p) (stop p ∷ []) (λ k. refl) (tt, tt),
          )
        ]
    serve-IsSound repo (ready p) set =
        elim (Bool-cases (is_some (view mgr.peer_index (s.string p)))) [
          | inl known ↦ (
            _,
            rw (has-view mgr p v, known, set),
            stays serving (ready p) (repo_succeeded p ∷ poll p ∷ []) (λ k. refl)
                (known, (known, tt)),
          )
          | inr unknown ↦ (
            _,
            rw (has-view mgr p v, unknown),
            stays serving (ready p) (stop p ∷ []) (λ k. refl) (tt, tt),
          )
        ]
    serve-IsSound repo (stopped p) set =
        elim (Bool-cases (is_some (view mgr.peer_index (s.string p)))) [
          | inl known ↦
              let (index, e, ok) = removed p in (_, rw (has-view mgr p v, known, e), ok serving)
          | inr unknown ↦ (_, rw (has-view mgr p v, unknown), absent p unknown)
        ]

    drain-IsSound : (e : Event P) → Sound e (drain mgr e)
    unfolding drain
    drain-IsSound sig_closed = (_, refl, stays _ sig_closed [] (λ k. refl) tt)
    drain-IsSound (connected p) =
        (_, refl, stays _ (connected p) (stop p ∷ []) (λ k. refl) (tt, tt))
    drain-IsSound (ready p) = (_, refl, stays _ (ready p) (stop p ∷ []) (λ k. refl) (tt, tt))
    drain-IsSound (stopped p) =
        let (index, e, ok) = removed p in
        let left : Manager P R T Q = record mgr { peer_index = index } in
        (record { phase = drain_phase left; mgr = left; calls = [] }, rw e, ok (drain_phase left))

    -- On a valid index, with a repository injected, no round of goEvents panics, in its loop or
    -- while it drains: it starts, greets and polls, and reports to the repository, only peers in the
    -- index, keeps the index valid, and takes exactly a stopped peer out of it.
    pub step-IsSound :
        (phase : Phase) (repo : R) (e : Event P)
        → phase ≢ done
        → mgr.repo ≡ some repo
        → (r : Round P R T Q) × (step phase mgr e ≡ some r) × IsSound mgr e r
    unfolding step
    step-IsSound serving repo e open_ set = serve-IsSound repo e set
    step-IsSound draining repo e open_ set = drain-IsSound e
    step-IsSound done repo e open_ set = absurd (open_ refl)
