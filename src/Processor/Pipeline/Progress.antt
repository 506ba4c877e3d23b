-- ===== src/Processor/Pipeline/Progress.antt =====
-- When the goroutines of processor/ can move, and what they have done when none can.
use passive_bitcoin.Prelude.{
  ℕ, ◌≤◌, ◌<◌, String, Bool, true, false, none, List, [], ◌∷◌, ◌++◌, ◌≡◌, ◌≢◌, refl, sym, ap, ◌∙◌,
  ◌⊎◌, inl, inr, Bool-cases, Option-cases, subst, arith, In, In-append, ◌≢◌,
}
use mathlib.Core.List.{append-nil}
use passive_bitcoin.Processor.{Record, Processor, process}
use passive_bitcoin.Processor.Routes.{each, each_iff, process_sound}
use passive_bitcoin.Processor.Pipeline.{
  Worker, Delivery, Net, start, started, alter, enqueue, handed, close_sig, finish, receive, Step,
  Reach, here, further,
}
use passive_bitcoin.Processor.Pipeline
use passive_bitcoin.Processor.Pipeline.Balance.{incoming, outgoing, queued}
use passive_bitcoin.Processor.Pipeline.Flow.{Reach-flow}
use Prim.Native.Nat

-- A processor has something to do: a call of Process to make, a record to receive, or a closed
-- signal to see.
abbrev pub IsBusy : {R : Type 0} → Worker R → Type 0
IsBusy w = (w.handing ≢ []) ⊎ ((w.queue ≢ none) ⊎ (w.closed ≡ true))

List-cases : {A : Type 0} (xs : List A) → (xs ≡ []) ⊎ ((x : A) × (rest : List A) × (xs ≡ x ∷ rest))
List-cases [] = inl refl
List-cases (x ∷ xs) = inr (x, xs, refl)

module _ {R : Type 0} ⦃i : Record R⦄ (net : String → Processor String) where
  -- The steps that the goroutines make by themselves
  abbrev pub is_own : {s t : Net R} → Step net s t → Bool
  is_own (Pipeline.put _ _ _ _) = false
  is_own (Pipeline.take _ _ _ _ _ _) = true
  is_own (Pipeline.hand _ _ _ _ _ _ _) = true
  is_own (Pipeline.close _ _ _) = false
  is_own (Pipeline.end _ _ _ _ _) = true

  -- Some goroutine can move.
  abbrev pub Moves : Net R → Type 0
  Moves s = (t : Net R) × (step : Step net s t) × (is_own step ≡ true)

  -- What a goroutine still has to hand on comes from its links.
  handing-linked :
      (s : Net R) (q next : String) (r : R) (rest : List (String × R))
      → Reach net start s
      → (s.workers q).handing ≡ (next, r) ∷ rest
      → In next (net q).next
  handing-linked s q next r rest way e =
      let later = each (process (net q)) (queued (s.workers q).queue) in
      let first : In (next, r) (s.workers q).handing =
        subst (λ (l : List (String × R)). In (next, r) l) (sym e) (inl refl) in
      let some_call : In (next, r) (outgoing q s.log ++ ((s.workers q).handing ++ later)) =
        (In-append (next, r) (outgoing q s.log) ((s.workers q).handing ++ later)).1
          (inr ((In-append (next, r) (s.workers q).handing later).1 (inl first))) in
      let (x, _, called) = (each_iff (process (net q)) (incoming q s.log) (next, r)).0 (
        subst (λ (l : List (String × R)). In (next, r) l) (sym (Reach-flow net s q way))
          some_call) in
      (process_sound (net q) x (next, r) called).1

  -- With nothing in hand, a busy goroutine is at its select, and one of the cases is open.
  select-Moves :
      (s : Net R) (q : String)
      → (s.workers q).running ≡ true
      → (s.workers q).handing ≡ []
      → IsBusy (s.workers q)
      → Moves s
  select-Moves s q runs idle (inl some_left) = absurd (some_left idle)
  select-Moves s q runs idle (inr (inr is_closed)) = (_, Pipeline.end s q runs idle is_closed, refl)
  select-Moves s q runs idle (inr (inl some_queued)) = elim (Option-cases (s.workers q).queue) [
    | inl e ↦ absurd (some_queued e)
    | inr (x, e) ↦ (_, Pipeline.take s q x runs idle e, refl)
  ]

  -- With a call to make, the goroutine can move if the queue has room; otherwise the one behind is
  -- busy.
  hand-Moves :
      (s : Net R) (q next : String) (r : R) (rest : List (String × R))
      → (s.workers q).handing ≡ (next, r) ∷ rest
      → (IsBusy (s.workers next) → Moves s)
      → Moves s
  hand-Moves s q next r rest e behind = elim (Option-cases (s.workers next).queue) [
    | inl free ↦ (_, Pipeline.hand s q next r rest e free, refl)
    | inr (x, full) ↦ behind (inr (inl (λ none_left. absurd (cc (full, none_left)))))
  ]

  -- A busy goroutine, or one behind it, can move; `n` bounds the rank.
  busy-Moves :
      (n : ℕ) (rank : String → ℕ) (s : Net R) (q : String)
      → ((p next : String) → In next (net p).next → rank next < rank p)
      → Reach net start s
      → rank q ≤ n
      → ((p : String) → rank p ≤ rank q → (s.workers p).running ≡ true)
      → IsBusy (s.workers q)
      → Moves s
  busy-Moves Nat.zero rank s q down way few runs busy = elim (List-cases (s.workers q).handing) [
    | inl idle ↦ select-Moves s q (runs q (omega arith)) idle busy
    | inr (d, rest, e) ↦
        absurd (omega (arith, few, down q d.0 (handing-linked s q d.0 d.1 rest way e)))
  ]
  busy-Moves (Nat.suc n) rank s q down way few runs busy = elim (List-cases (s.workers q).handing) [
    | inl idle ↦ select-Moves s q (runs q (omega arith)) idle busy
    | inr (d, rest, e) ↦
        let lower = down q d.0 (handing-linked s q d.0 d.1 rest way e) in
        hand-Moves s q d.0 d.1 rest e (
          busy-Moves n rank s d.0 down way (omega (arith, few, lower))
            (λ p low. runs p (omega (arith, low, lower))))
  ]

  -- In a graph of processors without a cycle, in which every link goes down in rank, a processor that
  -- has something to do is never stuck while it and those of lower rank have not returned: one of the
  -- goroutines can move, without another call of Process by a peer and without another Stop.
  progress :
      (rank : String → ℕ) (s : Net R) (q : String)
      → ((p next : String) → In next (net p).next → rank next < rank p)
      → Reach net start s
      → ((p : String) → rank p ≤ rank q → (s.workers p).running ≡ true)
      → IsBusy (s.workers q)
      → Moves s
  progress rank s q down way runs busy =
      busy-Moves (rank q) rank s q down way (omega arith) runs busy

  -- In a graph without a cycle in which nobody has returned, once no goroutine can move by itself,
  -- every processor has made exactly the calls of Process that its filter gives for the records that
  -- were put in its queue, in that order, and no signal is closed.
  pub rest-delivered :
      (rank : String → ℕ) (s : Net R)
      → ((p next : String) → In next (net p).next → rank next < rank p)
      → Reach net start s
      → ((p : String) → (s.workers p).running ≡ true)
      → (Moves s → ⊥)
      → (p : String)
      → (outgoing p s.log ≡ each (process (net p)) (incoming p s.log))
        × ((s.workers p).closed ≡ false)
  rest-delivered rank s down way runs still p =
      let idle : IsBusy (s.workers p) → ⊥ =
        λ busy. still (progress rank s p down way (λ x _. runs x) busy) in
      elim (List-cases (s.workers p).handing) [
        | inr (d, rest, e) ↦ absurd (idle (inl (λ none_left. absurd (cc (e, none_left)))))
        | inl empty ↦ elim (Option-cases (s.workers p).queue) [
          | inr (x, e) ↦ absurd (idle (inr (inl (λ none_left. absurd (cc (e, none_left))))))
          | inl none_queued ↦ elim (Bool-cases (s.workers p).closed) [
            | inl is_closed ↦ absurd (idle (inr (inr is_closed)))
            | inr is_open ↦ (
              sym (
                  Reach-flow net s p way
                  ∙ ap
                      (λ (l : List (String × R)).
                        outgoing p s.log
                        ++ (l ++ each (process (net p)) (queued (s.workers p).queue)))
                      empty
                  ∙ ap (λ o. outgoing p s.log ++ each (process (net p)) (queued o)) none_queued
                  ∙ append-nil (outgoing p s.log)),
              is_open,
            )
          ]
        ]
      ]
