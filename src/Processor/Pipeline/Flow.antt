-- ===== src/Processor/Pipeline/Flow.antt =====
-- What the goroutines of processor/ hand on, whatever the order in which they move.
use passive_bitcoin.Prelude.{
  String, true, false, Option, none, some, List, [], ◌∷◌, ◌++◌, ◌≡◌, refl, sym, ap, ◌∙◌, inl, inr,
  str_eq, eq_iff, Bool-cases, subst,
}
use mathlib.Core.List.{append-nil}
use passive_bitcoin.Processor.{Record, Processor, process}
use passive_bitcoin.Processor.Routes.{each}
use passive_bitcoin.Processor.Pipeline.{
  Worker, Delivery, Net, start, started, alter, enqueue, handed, close_sig, finish, receive, Step,
  Reach, here, further,
}
use passive_bitcoin.Processor.Pipeline
use passive_bitcoin.Processor.Pipeline.Balance.{
  each-append, enqueue-Balanced, receive-Balanced, handed-Balanced, alter-own, alter-other, sent_by,
  put_to, incoming, outgoing, pending, Balanced,
}

module _ {R : Type 0} ⦃i : Record R⦄ (net : String → Processor String) where
  -- Every processor is balanced.
  abbrev AllBalanced : Net R → Type 0
  AllBalanced s =
      (p : String) → Balanced (net p) (incoming p s.log) (outgoing p s.log) (s.workers p)

  -- A delivery to another processor, or from another one
  incoming-other :
      (p q : String) (log : List (Delivery R)) (source : Option String) (r : R)
      → str_eq q p ≡ false
      → incoming p (log ++ record { source = source; target = q; item = r } ∷ []) ≡ incoming p log
  incoming-other p q log source r e =
      each-append (λ (d : Delivery R). put_to p d.target d.item) log
        (record { source = source; target = q; item = r } ∷ [])
      ∙ rw e (append-nil (incoming p log))

  incoming-own :
      (p q : String) (log : List (Delivery R)) (source : Option String) (r : R)
      → str_eq q p ≡ true
      → incoming p (log ++ record { source = source; target = q; item = r } ∷ [])
        ≡ incoming p log ++ r ∷ []
  incoming-own p q log source r e =
      each-append (λ (d : Delivery R). put_to p d.target d.item) log
        (record { source = source; target = q; item = r } ∷ [])
      ∙ rw e

  outgoing-other :
      (p : String) (log : List (Delivery R)) (source : Option String) (q : String) (r : R)
      → sent_by p source (q, r) ≡ []
      → outgoing p (log ++ record { source = source; target = q; item = r } ∷ []) ≡ outgoing p log
  outgoing-other p log source q r e =
      each-append (λ (d : Delivery R). sent_by p d.source (d.target, d.item)) log
        (record { source = source; target = q; item = r } ∷ [])
      ∙ rw e (append-nil (outgoing p log))

  outgoing-own :
      (p : String) (log : List (Delivery R)) (source : Option String) (q : String) (r : R)
      → sent_by p source (q, r) ≡ (q, r) ∷ []
      → outgoing p (log ++ record { source = source; target = q; item = r } ∷ [])
        ≡ outgoing p log ++ (q, r) ∷ []
  outgoing-own p log source q r e =
      each-append (λ (d : Delivery R). sent_by p d.source (d.target, d.item)) log
        (record { source = source; target = q; item = r } ∷ [])
      ∙ rw e

  -- The equation for the lists and the worker that the step leaves
  balanced :
      (pro : Processor String) {ins ins' : List R} {outs outs' : List (String × R)}
      {w w' : Worker R}
      → ins' ≡ ins
      → outs' ≡ outs
      → w' ≡ w
      → Balanced pro ins outs w
      → Balanced pro ins' outs' w'
  balanced pro {outs' = outs'} {w = w} e e' e'' h =
      ap (each (process pro)) e
      ∙ h
      ∙ ap (λ (o : List (String × R)). o ++ pending pro w) (sym e')
      ∙ ap (λ v. outs' ++ pending pro v) (sym e'')

  put-Balanced :
      (s : Net R) (q : String) (r : R) (p : String)
      → (s.workers q).queue ≡ none
      → AllBalanced s
      → Balanced
          (net p)
          (incoming p (s.log ++ record { source = none; target = q; item = r } ∷ []))
          (outgoing p (s.log ++ record { source = none; target = q; item = r } ∷ []))
          (alter q (enqueue r) s.workers p)
  put-Balanced s q r p e h = elim (Bool-cases (str_eq q p)) [
    | inl own ↦
        balanced (net p) (incoming-own p q s.log none r own) (outgoing-other p s.log none q r refl)
          (alter-own q p (enqueue r) s.workers own)
          (enqueue-Balanced (net p) (incoming p s.log) (outgoing p s.log) (s.workers p) r
            (subst (λ v. (s.workers v).queue ≡ none) ((eq_iff q p).0 own) e) (h p))
    | inr other ↦
        balanced (net p) (incoming-other p q s.log none r other)
          (outgoing-other p s.log none q r refl) (alter-other q p (enqueue r) s.workers other) (h p)
  ]

  take-Balanced :
      (s : Net R) (q : String) (r : R) (p : String)
      → (s.workers q).handing ≡ []
      → (s.workers q).queue ≡ some r
      → AllBalanced s
      → Balanced
          (net p)
          (incoming p s.log)
          (outgoing p s.log)
          (alter q (receive (net q) r) s.workers p)
  take-Balanced s q r p e e' h = elim (Bool-cases (str_eq q p)) [
    | inl own ↦
        let same = (eq_iff q p).0 own in
        balanced (net p) refl refl
          (alter-own q p (receive (net q) r) s.workers own
            ∙ ap (λ v. receive (net v) r (s.workers p)) same)
          (receive-Balanced (net p) (incoming p s.log) (outgoing p s.log) (s.workers p) r
            (subst (λ v. (s.workers v).handing ≡ []) same e)
            (subst (λ v. (s.workers v).queue ≡ some r) same e') (h p))
    | inr other ↦
        balanced (net p) refl refl (alter-other q p (receive (net q) r) s.workers other) (h p)
  ]

  -- The lists of a processor after a call of Process by `q`, which has still to reach the queue.
  give-Balanced :
      (s : Net R) (q next : String) (r : R) (rest : List (String × R)) (p : String)
      → (s.workers q).handing ≡ (next, r) ∷ rest
      → AllBalanced s
      → Balanced
          (net p)
          (incoming p s.log)
          (outgoing p (s.log ++ record { source = some q; target = next; item = r } ∷ []))
          (alter q (handed rest) s.workers p)
  give-Balanced s q next r rest p e h = elim (Bool-cases (str_eq q p)) [
    | inl own ↦
        balanced (net p) refl (outgoing-own p s.log (some q) next r (rw own))
          (alter-own q p (handed rest) s.workers own)
          (handed-Balanced (net p) (incoming p s.log) (outgoing p s.log) (s.workers p) (next, r)
            rest (subst (λ v. (s.workers v).handing ≡ (next, r) ∷ rest) ((eq_iff q p).0 own) e)
            (h p))
    | inr other ↦
        balanced (net p) refl (outgoing-other p s.log (some q) next r (rw other))
          (alter-other q p (handed rest) s.workers other) (h p)
  ]

  queue-handed :
      (q p : String) (rest : List (String × R)) (workers : String → Worker R)
      → (alter q (handed rest) workers p).queue ≡ (workers p).queue
  queue-handed q p rest workers = elim (Bool-cases (str_eq q p)) [ inl e ↦ rw e | inr e ↦ rw e ]

  hand-Balanced :
      (s : Net R) (q next : String) (r : R) (rest : List (String × R)) (p : String)
      → (s.workers q).handing ≡ (next, r) ∷ rest
      → (s.workers next).queue ≡ none
      → AllBalanced s
      → Balanced
          (net p)
          (incoming p (s.log ++ record { source = some q; target = next; item = r } ∷ []))
          (outgoing p (s.log ++ record { source = some q; target = next; item = r } ∷ []))
          (alter next (enqueue r) (alter q (handed rest) s.workers) p)
  hand-Balanced s q next r rest p e e' h =
      let given = alter q (handed rest) s.workers in
      let before = give-Balanced s q next r rest p e h in
      elim (Bool-cases (str_eq next p)) [
        | inl own ↦
            balanced (net p) (incoming-own p next s.log (some q) r own) refl
              (alter-own next p (enqueue r) given own)
              (enqueue-Balanced (net p) (incoming p s.log)
                (outgoing p (s.log ++ record { source = some q; target = next; item = r } ∷ []))
                (given p) r
                (queue-handed q p rest s.workers
                  ∙ subst (λ v. (s.workers v).queue ≡ none) ((eq_iff next p).0 own) e')
                before)
        | inr other ↦
            balanced (net p) (incoming-other p next s.log (some q) r other) refl
              (alter-other next p (enqueue r) given other) before
      ]

  -- Closing the signal and returning touch neither the queue nor what is in hand.
  close-Balanced :
      (s : Net R) (q p : String)
      → AllBalanced s
      → Balanced (net p) (incoming p s.log) (outgoing p s.log) (alter q close_sig s.workers p)
  close-Balanced s q p h = elim (Bool-cases (str_eq q p)) [
    | inl e ↦ balanced (net p) refl refl (alter-own q p close_sig s.workers e) (h p)
    | inr e ↦ balanced (net p) refl refl (alter-other q p close_sig s.workers e) (h p)
  ]

  finish-Balanced :
      (s : Net R) (q p : String)
      → AllBalanced s
      → Balanced (net p) (incoming p s.log) (outgoing p s.log) (alter q finish s.workers p)
  finish-Balanced s q p h = elim (Bool-cases (str_eq q p)) [
    | inl e ↦ balanced (net p) refl refl (alter-own q p finish s.workers e) (h p)
    | inr e ↦ balanced (net p) refl refl (alter-other q p finish s.workers e) (h p)
  ]

  step-AllBalanced : (s t : Net R) → Step net s t → AllBalanced s → AllBalanced t
  step-AllBalanced _ _ (Pipeline.put s q r e) h p = put-Balanced s q r p e h
  step-AllBalanced _ _ (Pipeline.take s q r e e' e'') h p = take-Balanced s q r p e' e'' h
  step-AllBalanced _ _ (Pipeline.hand s q next r rest e e') h p =
      hand-Balanced s q next r rest p e e' h
  step-AllBalanced _ _ (Pipeline.close s q e) h p = close-Balanced s q p h
  step-AllBalanced _ _ (Pipeline.end s q e e' e'') h p = finish-Balanced s q p h

  -- Whatever the order in which the goroutines move, and whether or not some have been stopped, a
  -- processor's queue, worked through in order with the filter's test and its list of next
  -- processors, gives exactly the calls of Process that the processor has made, followed by those for
  -- the record in hand and the one that is queued: nothing is lost, doubled or reordered.
  pub Reach-flow :
      (s : Net R) (p : String)
      → Reach net start s
      → each (process (net p)) (incoming p s.log)
        ≡ outgoing p s.log ++ pending (net p) (s.workers p)
  Reach-flow _ p (here _) = refl
  Reach-flow s p (further _ t _ r step) = step-AllBalanced t s step (λ v. Reach-flow t v r) p
