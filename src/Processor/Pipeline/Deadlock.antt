-- ===== src/Processor/Pipeline/Deadlock.antt =====
-- When goroutines of processor/ wait for good.
use passive_bitcoin.Prelude.{
  String, true, false, none, some, List, [], ◌∷◌, ◌≡◌, refl, sym, ◌∙◌, ◌⊎◌, inl, inr, str_eq,
  eq_iff, Bool-cases, subst,
}
use passive_bitcoin.Processor.{Record, Processor}
use passive_bitcoin.Processor.Pipeline.{
  Worker, Net, alter, enqueue, handed, close_sig, finish, receive, Step, Reach, here, further,
}
use passive_bitcoin.Processor.Pipeline

module _ {R : Type 0} where
  -- A goroutine waits in forward for the full queue of a processor that has returned, or whose
  -- goroutine is one of those that `S` holds of.
  pub record IsWaiting (S : String → Type 0) (s : Net R) (q : String) : Type 0 where
    pub next : String
    pub item : R
    pub rest : List (String × R)
    pub kept : R
    pub waits : (s.workers q).handing ≡ (next, item) ∷ rest
    pub runs : (s.workers q).running ≡ true
    pub full : (s.workers next).queue ≡ some kept
    pub gone : (s.workers next).running ≡ false ⊎ S next

  -- The goroutines that `S` holds of wait for each other, or for processors that have returned.
  abbrev pub IsDeadlocked : (String → Type 0) → Net R → Type 0
  IsDeadlocked S s = (q : String) → S q → IsWaiting S s q

  -- What holds of a worker, and is kept by a change of it, holds after the change.
  alter-keeps :
      (P : Worker R → Type 0) (q p : String) (f : Worker R → Worker R) (workers : String → Worker R)
      → (q ≡ p → P (workers p) → P (f (workers p)))
      → P (workers p)
      → P (alter q f workers p)
  alter-keeps P q p f workers kept h = elim (Bool-cases (str_eq q p)) [
    | inl e ↦ rw e (kept ((eq_iff q p).0 e) h)
    | inr e ↦ rw e h
  ]

  -- A fact on the worker of one name, for the name that equals it
  at_name :
      {A : Type 0} (field : Worker R → A) (s : Net R) (q p : String) (v : A)
      → q ≡ p
      → field (s.workers q) ≡ v
      → field (s.workers p) ≡ v
  at_name field s q p v e h = subst (λ x. field (s.workers x) ≡ v) e h

module _ {R : Type 0} ⦃i : Record R⦄ (net : String → Processor String) (S : String → Type 0) where
  abbrev Waits : (w : Worker R) → List (String × R) → Type 0
  Waits w calls = (w.handing ≡ calls) × (w.running ≡ true)

  -- The goroutine that waits makes no step.
  Waits-Step :
      (s t : Net R) (q : String)
      → Step net s t
      → (h : IsWaiting S s q) → Waits (t.workers q) ((h.next, h.item) ∷ h.rest)
  Waits-Step _ _ q (Pipeline.put s p x e) h =
      alter-keeps (λ w. Waits w ((h.next, h.item) ∷ h.rest)) p q (enqueue x) s.workers (λ own k. k)
        (h.waits, h.runs)
  Waits-Step _ _ q (Pipeline.take s p x e e' e'') h =
      alter-keeps (λ w. Waits w ((h.next, h.item) ∷ h.rest)) p q (receive (net p) x) s.workers
        (λ own k. absurd (cc (at_name (λ w. w.handing) s p q [] own e', h.waits))) (h.waits, h.runs)
  Waits-Step _ _ q (Pipeline.hand s p to x more e e') h =
      alter-keeps (λ w. Waits w ((h.next, h.item) ∷ h.rest)) to q (enqueue x)
        (alter p (handed more) s.workers) (λ own k. k)
        (alter-keeps (λ w. Waits w ((h.next, h.item) ∷ h.rest)) p q (handed more) s.workers
          (λ own k.
            absurd
              (cc (at_name (λ w. w.handing) s p q ((to, x) ∷ more) own e, h.waits, e', h.full)))
          (h.waits, h.runs))
  Waits-Step _ _ q (Pipeline.close s p e) h =
      alter-keeps (λ w. Waits w ((h.next, h.item) ∷ h.rest)) p q close_sig s.workers (λ own k. k)
        (h.waits, h.runs)
  Waits-Step _ _ q (Pipeline.end s p e e' e'') h =
      alter-keeps (λ w. Waits w ((h.next, h.item) ∷ h.rest)) p q finish s.workers
        (λ own k. absurd (cc (at_name (λ w. w.handing) s p q [] own e', h.waits))) (h.waits, h.runs)

  -- A processor that has returned, or that waits itself, does not receive.
  not_idle :
      (s : Net R) (p : String)
      → IsDeadlocked S s
      → ((s.workers p).running ≡ false) ⊎ S p
      → (s.workers p).running ≡ true
      → (s.workers p).handing ≡ []
      → ⊥
  not_idle s p all (inl off) on idle = absurd (cc (off, on))
  not_idle s p all (inr m) on idle = absurd (cc (idle, (all p m).waits))

  -- A full queue stays as it is if its processor does not receive.
  full-Step :
      (s t : Net R) (p : String) (kept : R)
      → Step net s t
      → IsDeadlocked S s
      → ((s.workers p).running ≡ false) ⊎ S p
      → (s.workers p).queue ≡ some kept
      → (t.workers p).queue ≡ some kept
  full-Step _ _ p kept (Pipeline.put s q x e) all off h =
      alter-keeps (λ w. w.queue ≡ some kept) q p (enqueue x) s.workers
        (λ own k. absurd (cc (at_name (λ w. w.queue) s q p none own e, h))) h
  full-Step _ _ p kept (Pipeline.take s q x e e' e'') all off h =
      alter-keeps (λ w. w.queue ≡ some kept) q p (receive (net q) x) s.workers
        (λ own k. absurd (
          not_idle s p all off (at_name (λ w. w.running) s q p true own e)
            (at_name (λ w. w.handing) s q p [] own e')))
        h
  full-Step _ _ p kept (Pipeline.hand s q to x more e e') all off h =
      alter-keeps (λ w. w.queue ≡ some kept) to p (enqueue x) (alter q (handed more) s.workers)
        (λ own _. absurd (cc (at_name (λ w. w.queue) s to p none own e', h)))
        (alter-keeps (λ w. w.queue ≡ some kept) q p (handed more) s.workers (λ own k. k) h)
  full-Step _ _ p kept (Pipeline.close s q e) all off h =
      alter-keeps (λ w. w.queue ≡ some kept) q p close_sig s.workers (λ own k. k) h
  full-Step _ _ p kept (Pipeline.end s q e e' e'') all off h =
      alter-keeps (λ w. w.queue ≡ some kept) q p finish s.workers (λ own k. k) h

  -- A goroutine that has returned does not run again.
  gone-Step :
      (s t : Net R) (p : String)
      → Step net s t
      → (s.workers p).running ≡ false
      → (t.workers p).running ≡ false
  gone-Step _ _ p (Pipeline.put s q x e) h =
      alter-keeps (λ w. w.running ≡ false) q p (enqueue x) s.workers (λ own k. k) h
  gone-Step _ _ p (Pipeline.take s q x e e' e'') h =
      alter-keeps (λ w. w.running ≡ false) q p (receive (net q) x) s.workers (λ own k. k) h
  gone-Step _ _ p (Pipeline.hand s q to x more e e') h =
      alter-keeps (λ w. w.running ≡ false) to p (enqueue x) (alter q (handed more) s.workers)
        (λ own k. k)
        (alter-keeps (λ w. w.running ≡ false) q p (handed more) s.workers (λ own k. k) h)
  gone-Step _ _ p (Pipeline.close s q e) h =
      alter-keeps (λ w. w.running ≡ false) q p close_sig s.workers (λ own k. k) h
  gone-Step _ _ p (Pipeline.end s q e e' e'') h =
      alter-keeps (λ w. w.running ≡ false) q p finish s.workers (λ own k. refl) h

  IsDeadlocked-Step : (s t : Net R) → Step net s t → IsDeadlocked S s → IsDeadlocked S t
  IsDeadlocked-Step s t step all q m =
      let h = all q m in
      let (waits, runs) = Waits-Step s t q step h in
      record {
        next = h.next;
        item = h.item;
        rest = h.rest;
        kept = h.kept;
        waits = waits;
        runs = runs;
        full = full-Step s t h.next h.kept step all h.gone h.full;
        gone = elim h.gone [ inl off ↦ inl (gone-Step s t h.next step off) | inr n ↦ inr n ];
      }

  -- Goroutines that wait in forward for the full queues of each other, or of processors that have
  -- returned, do so for good: whatever happens, none of them returns, so a Stop of one of these
  -- processors never does, and each keeps the record in hand with the same calls still to make.
  pub IsDeadlocked-Reach :
      (s t : Net R)
      → IsDeadlocked S s
      → Reach net s t
      → IsDeadlocked S t
        × ((q : String)
            → S q
            → ((t.workers q).running ≡ true) × ((t.workers q).handing ≡ (s.workers q).handing))
  IsDeadlocked-Reach _ _ all (here s) = (all, λ q m. ((all q m).runs, refl))
  IsDeadlocked-Reach s u all (further _ t _ way step) =
      let (before, same) = IsDeadlocked-Reach s t all way in
      (
        IsDeadlocked-Step t u step before,
        λ q m.
            let h = before q m in
            let (waits, runs) = Waits-Step t u q step h in
            (runs, waits ∙ sym h.waits ∙ (same q m).1),
      )
