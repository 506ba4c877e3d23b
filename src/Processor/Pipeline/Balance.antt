-- ===== src/Processor/Pipeline/Balance.antt =====
-- The records that went in and out of a processor of processor/, and how one change of its worker keeps
-- them in balance.
use passive_bitcoin.Prelude.{
  String, true, false, Option, none, some, List, [], ◌∷◌, ◌++◌, ◌≡◌, refl, sym, ap, ◌∙◌, str_eq,
  if◌then◌else◌, subst,
}
use mathlib.Core.List.{append-nil, append_assoc}
use passive_bitcoin.Processor.{Record, Processor, process}
use passive_bitcoin.Processor.Routes.{each}
use passive_bitcoin.Processor.Pipeline.{Worker, Delivery, alter, enqueue, handed, receive}

pub each-append :
    {A B : Type 0} (f : A → List B) (xs ys : List A) → each f (xs ++ ys) ≡ each f xs ++ each f ys
each-append f [] ys = refl
each-append f (x ∷ xs) ys =
    rw (each-append f xs ys) (sym (append_assoc (f x) (each f xs) (each f ys)))

abbrev pub queued : {R : Type 0} → Option R → List R
queued none = []
queued (some r) = r ∷ []

abbrev pub sent_by : {R : Type 0} → String → Option String → String × R → List (String × R)
sent_by q none d = []
sent_by q (some p) d = if str_eq p q then d ∷ [] else []

abbrev pub put_to : {R : Type 0} → String → String → R → List R
put_to q p r = if str_eq p q then r ∷ [] else []

module _ {R : Type 0} where
  -- The records that were put in the queue of a processor, in order
  abbrev pub incoming : String → List (Delivery R) → List R
  incoming q log = each (λ (d : Delivery R). put_to q d.target d.item) log

  -- The calls of Process that a processor has made, in order
  abbrev pub outgoing : String → List (Delivery R) → List (String × R)
  outgoing q log = each (λ (d : Delivery R). sent_by q d.source (d.target, d.item)) log

module _ {R : Type 0} where
  pub alter-own :
      (q p : String) (f : Worker R → Worker R) (workers : String → Worker R)
      → str_eq q p ≡ true
      → alter q f workers p ≡ f (workers p)
  alter-own q p f workers e = rw e

  pub alter-other :
      (q p : String) (f : Worker R → Worker R) (workers : String → Worker R)
      → str_eq q p ≡ false
      → alter q f workers p ≡ workers p
  alter-other q p f workers e = rw e

module _ {R : Type 0} ⦃i : Record R⦄ where
  -- The calls that a worker will make for the record in hand and the one that is queued
  abbrev pub pending : Processor String → Worker R → List (String × R)
  pending pro w = w.handing ++ each (process pro) (queued w.queue)

  -- What was put in a processor's queue, processed in order, is what it handed on and will hand on.
  abbrev pub Balanced : Processor String → List R → List (String × R) → Worker R → Type 0
  Balanced pro ins outs w = each (process pro) ins ≡ outs ++ pending pro w

  -- A record more is in the queue.
  pub enqueue-Balanced :
      (pro : Processor String) (ins : List R) (outs : List (String × R)) (w : Worker R) (r : R)
      → w.queue ≡ none
      → Balanced pro ins outs w
      → Balanced pro (ins ++ r ∷ []) outs (enqueue r w)
  enqueue-Balanced pro ins outs w r e h =
      let before : each (process pro) ins ≡ outs ++ w.handing =
        subst (λ o. each (process pro) ins ≡ outs ++ (w.handing ++ each (process pro) (queued o))) e
          h
        ∙ ap (λ (v : List (String × R)). outs ++ v) (append-nil w.handing) in
      each-append (process pro) ins (r ∷ [])
      ∙ ap (λ (v : List (String × R)). v ++ (process pro r ++ [])) before
      ∙ append_assoc outs w.handing (process pro r ++ [])

  pub receive-Balanced :
      (pro : Processor String) (ins : List R) (outs : List (String × R)) (w : Worker R) (r : R)
      → w.handing ≡ []
      → w.queue ≡ some r
      → Balanced pro ins outs w
      → Balanced pro ins outs (receive pro r w)
  receive-Balanced pro ins outs w r e e' h =
      subst (λ o. each (process pro) ins ≡ outs ++ (w.handing ++ each (process pro) (queued o))) e'
        h
      ∙ ap (λ (v : List (String × R)). outs ++ (v ++ (process pro r ++ []))) e

  pub handed-Balanced :
      (pro : Processor String) (ins : List R) (outs : List (String × R)) (w : Worker R)
      (d : String × R) (rest : List (String × R))
      → w.handing ≡ d ∷ rest
      → Balanced pro ins outs w
      → Balanced pro ins (outs ++ d ∷ []) (handed rest w)
  handed-Balanced pro ins outs w d rest e h =
      h
      ∙ ap (λ (v : List (String × R)). outs ++ (v ++ each (process pro) (queued w.queue))) e
      ∙ sym (append_assoc outs (d ∷ []) (rest ++ each (process pro) (queued w.queue)))
