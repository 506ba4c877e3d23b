-- ===== src/Peer/Sending.antt =====
-- The order of the messages that goSend writes, and how it can wait for itself.
use passive_bitcoin.Prelude.{
  ◌≡◌, refl, sym, ◌∙◌, ◌⊎◌, inl, inr, Option, none, some, List, [], ◌∷◌, ◌++◌, subst,
}
use mathlib.Core.List.{append-nil}
use passive_bitcoin.Peer.Loops.{
  Place, selecting, pinging, draining, ended, Sender, Step, Reach, here, further, fresh,
}
use passive_bitcoin.Peer.Loops

-- goSend waits in pushPing for room in a queue that only goSend empties.
pub record IsStuck {M : Type 0} (s : Sender M) (m : M) : Type 0 where
  pub waits : s.place ≡ pinging
  pub full : s.queue ≡ some m

-- Some of the elements, in order
abbrev pub IsPart : {M : Type 0} → List M → List M → Type 0
IsPart [] ys = Unit
IsPart (x ∷ xs) [] = ⊥
IsPart (x ∷ xs) (y ∷ ys) = ((x ≡ y) × IsPart xs ys) ⊎ IsPart (x ∷ xs) ys

module _ {M : Type 0} where
  last-IsPart : (ys : List M) (m : M) → IsPart (m ∷ []) (ys ++ m ∷ [])
  last-IsPart [] m = inl (refl, tt)
  last-IsPart (y ∷ ys) m = inr (last-IsPart ys m)

  append-IsPart : (xs ys : List M) (m : M) → IsPart xs ys → IsPart (xs ++ m ∷ []) (ys ++ m ∷ [])
  append-IsPart [] ys m h = last-IsPart ys m
  append-IsPart (x ∷ xs) [] m h = absurd h
  append-IsPart (x ∷ xs) (y ∷ ys) m (inl h) = inl (h.0, append-IsPart xs ys m h.1)
  append-IsPart (x ∷ xs) (y ∷ ys) m (inr h) = inr (append-IsPart (x ∷ xs) ys m h)

  init-IsPart : (xs ys : List M) (m : M) → IsPart (xs ++ m ∷ []) ys → IsPart xs ys
  init-IsPart [] ys m h = tt
  init-IsPart (x ∷ xs) [] m h = absurd h
  init-IsPart (x ∷ xs) (y ∷ ys) m (inl h) = inl (h.0, init-IsPart xs ys m h.1)
  init-IsPart (x ∷ xs) (y ∷ ys) m (inr h) = inr (init-IsPart (x ∷ xs) ys m h)

  -- What was written and what is still queued
  abbrev pub queued : Option M → List M
  queued none = []
  queued (some m) = m ∷ []

  abbrev pub handled : Sender M → List M
  handled s = s.written ++ queued s.queue

module _ {M : Type 0} (ping : M) where
  -- A message that the queue held is gone.
  without :
      (w : List M) (q : Option M) (m : M) (ms : List M)
      → q ≡ some m
      → IsPart (w ++ queued q) ms
      → IsPart (w ++ []) ms
  without w q m ms e h =
      subst (λ v. IsPart v ms) (sym (append-nil w))
        (init-IsPart w ms m (subst (λ o. IsPart (w ++ queued o) ms) e h))

  with_next :
      (w : List M) (q : Option M) (m : M) (ms : List M)
      → q ≡ none
      → IsPart (w ++ queued q) ms
      → IsPart (w ++ m ∷ []) (ms ++ m ∷ [])
  with_next w q m ms e h =
      append-IsPart w ms m
        (subst (λ v. IsPart v ms) (append-nil w) (subst (λ o. IsPart (w ++ queued o) ms) e h))

  step-handled :
      (s : Sender M) (ms ns : List M) (t : Sender M)
      → Step ping s ns t
      → IsPart (handled s) ms
      → IsPart (handled t) (ms ++ ns)
  step-handled _ ms _ _ (Loops.queue_up s m e) h = with_next s.written s.queue m ms e h
  step-handled _ ms _ _ (Loops.sig_closed s e) h =
      subst (IsPart (handled s)) (sym (append-nil ms)) h
  step-handled _ ms _ _ (Loops.idle s e) h = subst (IsPart (handled s)) (sym (append-nil ms)) h
  step-handled _ ms _ _ (Loops.push_ping s e e') h = with_next s.written s.queue ping ms e' h
  step-handled _ ms _ _ (Loops.write s m e e') h =
      subst (IsPart ((s.written ++ m ∷ []) ++ [])) (sym (append-nil ms)) (
        subst (λ v. IsPart v ms) (sym (append-nil (s.written ++ m ∷ [])))
          (subst (λ o. IsPart (s.written ++ queued o) ms) e' h))
  step-handled _ ms _ _ (Loops.give_up s m e e') h =
      subst (IsPart (s.written ++ [])) (sym (append-nil ms)) (without s.written s.queue m ms e' h)
  step-handled _ ms _ _ (Loops.disconnect s m e e') h =
      subst (IsPart (s.written ++ [])) (sym (append-nil ms)) (without s.written s.queue m ms e' h)
  step-handled _ ms _ _ (Loops.drain s m e e') h =
      subst (IsPart (s.written ++ [])) (sym (append-nil ms)) (without s.written s.queue m ms e' h)
  step-handled _ ms _ _ (Loops.drain_timeout s e) h =
      subst (IsPart (handled s)) (sym (append-nil ms)) h

  -- Whatever happens, the messages that goSend has written, and the one that is queued, are some of
  -- those that were put in the queue, in that order: none is written twice, and none that was
  -- dropped or drained comes back.
  pub reach-IsPart : (ms : List M) (s : Sender M) → Reach ping fresh ms s → IsPart (handled s) ms
  reach-IsPart _ _ (here _) = tt
  reach-IsPart _ _ (further _ ms t ns u r step) = step-handled t ms ns u step (reach-IsPart ms t r)

  -- No step changes a sender that is stuck.
  stuck-Step :
      (s : Sender M) (m : M) (ns : List M) (t : Sender M) → IsStuck s m → Step ping s ns t → t ≡ s
  stuck-Step _ m _ _ h (Loops.queue_up s n e) = absurd (cc (e, h.full))
  stuck-Step _ m _ _ h (Loops.sig_closed s e) = absurd (cc (e, h.waits))
  stuck-Step _ m _ _ h (Loops.idle s e) = absurd (cc (e, h.waits))
  stuck-Step _ m _ _ h (Loops.push_ping s e e') = absurd (cc (e', h.full))
  stuck-Step _ m _ _ h (Loops.write s n e e') = absurd (cc (e, h.waits))
  stuck-Step _ m _ _ h (Loops.give_up s n e e') = absurd (cc (e, h.waits))
  stuck-Step _ m _ _ h (Loops.disconnect s n e e') = absurd (cc (e, h.waits))
  stuck-Step _ m _ _ h (Loops.drain s n e e') = absurd (cc (e, h.waits))
  stuck-Step _ m _ _ h (Loops.drain_timeout s e) = absurd (cc (e, h.waits))

  stuck-Reach :
      (s : Sender M) (m : M) (ms : List M) (t : Sender M) → IsStuck s m → Reach ping s ms t → t ≡ s
  stuck-Reach _ m _ _ h (here _) = refl
  stuck-Reach s m _ _ h (further _ ms t ns u r step) =
      let same = stuck-Reach s m ms t h r in
      stuck-Step t m ns u (subst (λ v. IsStuck v m) (sym same) h) step ∙ same

  -- A message that is queued while the idle timer has fired leaves goSend waiting for itself: from
  -- there nothing that happens moves it on, not even the closed signal.
  pub fresh-IsStuck :
      (m : M)
      → (s : Sender M) × Reach ping fresh (m ∷ []) s
        × IsStuck s m
        × ((ms : List M) (t : Sender M) → Reach ping s ms t → t ≡ s)
  fresh-IsStuck m =
      let waiting : Sender M = record fresh { place = pinging } in
      let stuck : Sender M = record waiting { queue = some m } in
      let is_stuck : IsStuck stuck m = record { waits = refl; full = refl } in
      (
        stuck,
        further fresh [] waiting (m ∷ []) stuck
            (further fresh [] fresh [] waiting (here fresh) (Loops.idle fresh refl))
            (Loops.queue_up waiting m refl),
        is_stuck,
        λ ms t r. stuck-Reach stuck m ms t is_stuck r,
      )
