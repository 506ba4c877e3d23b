-- ===== src/Manager/Drain.antt =====
-- The end of goEvents of manager/manager.go: the loop that drains the queues.
use passive_bitcoin.Prelude.{
  ◌++◌, ◌≡◌, refl, sym, ◌∙◌, String, false, none, some, List, [], ◌∷◌, arith, str_eq, eq_iff,
  if◌then◌else◌, map, length, In, Option-cases, Bool-cases, inl, inr, ltb, ap,
}
use passive_bitcoin.ParMap
use passive_bitcoin.ParMap.{Stringer, ParMap}
use passive_bitcoin.ParMap.Valid
use passive_bitcoin.ParMap.Lookup.{view, remove_key-view}
use passive_bitcoin.ParMap.Size.{length-iter, iter_iff-view}
use passive_bitcoin.Manager.{
  Manager, Event, sig_closed, stopped, serving, draining, done, Round, serve, drain, drain_phase,
  step, run,
}

module _ {P : Type 0} ⦃s : Stringer P⦄ where
  -- A map with no key has size 0.
  empty_size :
      (pm : ParMap P) → Valid.IsValid pm → ((k : String) → view pm k ≡ none) → ParMap.size pm ≡ 0
  empty_size pm v none_at =
      sym (length-iter pm) ∙ no_items (ParMap.iter pm) (λ x m. (iter_iff-view pm x v).0 m)
    where
      no_items :
          (xs : List P) → ((x : P) → In x xs → (k : String) × (view pm k ≡ some x)) → length xs ≡ 0
      no_items [] found = refl
      no_items (x ∷ xs) found = let (k, e) = found x (inl refl) in cc (none_at k, e)

  -- Every key of the index is the text of a peer of the list.
  abbrev Covers : List P → ParMap P → Type 0
  Covers ps pm = (k : String) (x : P) → view pm k ≡ some x → (p : P) × In p ps × (s.string p ≡ k)

  -- Once the first peer of the list has left, the others cover what is left.
  Covers-rest :
      (p : P) (ps : List P) (pm index : ParMap P)
      → Covers (p ∷ ps) pm
      → ((k : String) → view index k ≡ (if str_eq (s.string p) k then none else view pm k))
      → Covers ps index
  Covers-rest p ps pm index covers at k x found = elim (Bool-cases (str_eq (s.string p) k)) [
    | inl same ↦ cc (found, (rw same at (at k)))
    | inr other ↦
        let (q, m, e) = covers k x (sym (rw other at (at k)) ∙ found) in
        elim m [ inl here ↦ absurd (differs q k here e other) | inr later ↦ (q, later, e) ]
  ]
    where
      differs : (q : P) (k : String) → q ≡ p → s.string q ≡ k → ¬ (str_eq (s.string p) k ≡ false)
      differs q k same e other =
          ground (arith, eq_iff (s.string p) k, ap (λ (t : P). s.string t) same, e, other)

module _ {P R T Q : Type 0} ⦃s : Stringer P⦄ where
  run_done :
      (mgr : Manager P R T Q) (es : List (Event P))
      → (r : Round P R T Q) × (run done mgr es ≡ some r) × (r.phase ≡ done) × (r.calls ≡ [])
  unfolding run step
  run_done mgr [] = (_, refl, refl, refl)
  run_done mgr (e ∷ es) = let (r, eq, ended, calls) = run_done mgr es in (r, rw eq, ended, calls)

  drain_run :
      (mgr : Manager P R T Q) (ps : List P)
      → Valid.IsValid mgr.peer_index
      → Covers ps mgr.peer_index
      → (r : Round P R T Q) × (run (drain_phase mgr) mgr (map stopped ps) ≡ some r)
        × (r.phase ≡ done)
        × (r.calls ≡ [])
  unfolding run step drain ParMap.remove
  drain_run mgr [] v covers =
      let none_at = λ (k : String).
        elim (Option-cases (view mgr.peer_index k)) as (λ _. view mgr.peer_index k ≡ none) [
          | inl e ↦ e
          | inr (x, e) ↦ absurd ((covers k x e).1)
        ] in
      let ended : drain_phase mgr ≡ done = rw (empty_size mgr.peer_index v none_at, drain_phase) in
      (record { phase = drain_phase mgr; mgr = mgr; calls = [] }, unfold run in refl, ended, refl)
  drain_run mgr (p ∷ ps) v covers = elim (Bool-cases (ltb 0 (ParMap.size mgr.peer_index))) [
    | inl more ↦
        let (index, e, valid, at) = remove_key-view mgr.peer_index (s.string p) v in
        let left : Manager P R T Q = record mgr { peer_index = index } in
        let over : drain_phase mgr ≡ draining = rw (more, drain_phase) in
        let (r, eq, ended, calls) =
          drain_run left ps valid (Covers-rest p ps mgr.peer_index index covers at) in
        (record r { calls = [] ++ r.calls }, rw (over, e, eq), ended, calls)
    | inr ended ↦
        let over : drain_phase mgr ≡ done = rw (ended, drain_phase) in
        rw over (run_done mgr (map stopped (p ∷ ps)))
  ]

  -- With a valid index that has every peer under its text: when the manager is stopped and every
  -- peer of its index then reports that it has stopped, in any order and among others, goEvents
  -- ends without a call.
  pub drain-done :
      (mgr : Manager P R T Q) (ps : List P)
      → Valid.IsValid mgr.peer_index
      → ((p : P) → In p (ParMap.iter mgr.peer_index) → In p ps)
      → ((k : String) (p : P) → view mgr.peer_index k ≡ some p → s.string p ≡ k)
      → (r : Round P R T Q) × (run serving mgr (sig_closed ∷ map stopped ps) ≡ some r)
        × (r.phase ≡ done)
        × (r.calls ≡ [])
  unfolding run step serve
  drain-done mgr ps v all keyed =
      let covers : Covers ps mgr.peer_index =
        λ k x e. (x, all x ((iter_iff-view mgr.peer_index x v).1 (k, e)), keyed k x e) in
      let (r, eq, ended, calls) = drain_run mgr ps v covers in
      (record r { calls = [] ++ r.calls }, rw eq, ended, calls)
