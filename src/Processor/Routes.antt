-- ===== src/Processor/Routes.antt =====
-- Where a record goes in the graph of processors that the supervisor connects with AddNext, when
-- each processor does with it what goProcess of processor/ does.
use Prim.Native.Nat
use passive_bitcoin.Prelude.{
  ℕ, ◌≤◌, ◌<◌, ◌≡◌, ◌↔◌, inl, inr, refl, sym, ap, arith, true, Bool-cases, List, [], ◌∷◌, ◌++◌, map,
  In, In-append, subst,
}
use passive_bitcoin.Processor.{Record, Processor, valid, forward, process}

-- The lists that `f` gives for each element, one after the other.
abbrev pub each : {A B : Type 0} → (A → List B) → List A → List B
each f [] = []
each f (x ∷ xs) = f x ++ each f xs

-- Something of the lists comes from one of the elements.
pub each_iff :
    {A B : Type 0} (f : A → List B) (xs : List A) (y : B)
    → In y (each f xs) ↔ ((x : A) × In x xs × In y (f x))
each_iff f [] y = (λ h. absurd h, λ h. absurd (h.1))
each_iff f (x ∷ xs) y =
    let (to, from) = each_iff f xs y in
    let (split, join) = In-append y (f x) (each f xs) in
    (
      λ h. elim (split h) [
        | inl m ↦ (x, inl refl, m)
        | inr m ↦ let (a, here, there) = to m in (a, inr here, there)
      ],
      λ (a, here, there). elim here [
        | inl e ↦ join (inl (subst (λ t. In y (f t)) e there))
        | inr m ↦ join (inr (from (a, m, there)))
      ],
    )

In-map : {A B : Type 0} (f : A → B) (x : A) (xs : List A) → In x xs → In (f x) (map f xs)
In-map f x [] h = absurd h
In-map f x (a ∷ xs) (inl e) = inl (ap f e)
In-map f x (a ∷ xs) (inr m) = inr (In-map f x xs m)

map-In :
    {A B : Type 0} (f : A → B) (y : B) (xs : List A)
    → In y (map f xs)
    → (x : A) × In x xs × (y ≡ f x)
map-In f y [] h = absurd h
map-In f y (a ∷ xs) (inl e) = (a, inl refl, e)
map-In f y (a ∷ xs) (inr m) = let (x, n, e) = map-In f y xs m in (x, inr n, e)

module _ {Q R : Type 0} ⦃i : Record R⦄ where
  pub process_sound :
      (pro : Processor Q) (r : R) (x : Q × R)
      → In x (process pro r)
      → (valid pro.kind r ≡ true) × In x.0 pro.next
  unfolding process forward
  process_sound pro r x h = elim (Bool-cases (valid pro.kind r)) [
    | inl ok ↦
        let (m, there, e) = map-In (λ (q : Q). (q, r)) x pro.next (rw ok at h) in
        (ok, subst (λ (t : Q × R). In t.0 pro.next) (sym e) there)
    | inr bad ↦ absurd (rw bad at h)
  ]

  process_complete :
      (pro : Processor Q) (r : R) (q : Q)
      → valid pro.kind r ≡ true
      → In q pro.next
      → In (q, r) (process pro r)
  unfolding process forward
  process_complete pro r q ok m = rw ok (In-map (λ (q : Q). (q, r)) q pro.next m)

module _ {Q R : Type 0} ⦃i : Record R⦄ where
  -- The processors that a record reaches from one of them in at most some hops, in the order in
  -- which Process is called. `net` is the graph.
  unfoldable pub reached : ℕ → (Q → Processor Q) → R → Q → List Q
  unfolding process
  reached Nat.zero net r q = q ∷ []
  reached (Nat.suc hops) net r q =
      q ∷ each (λ (next : Q × R). reached hops net r next.0) (process (net q) r)

  -- A way through the graph, on which each processor but the last accepts the record.
  pub data Route (net : Q → Processor Q) (r : R) (to : Q) : ℕ → Q → Type 0 where
    arrived : Route net r to 0 to
    passed :
        {n : ℕ} (q next : Q)
        → valid (net q).kind r ≡ true
        → In next (net q).next
        → Route net r to n next
        → Route net r to (Nat.suc n) q

  reached_sound :
      (hops : ℕ) (net : Q → Processor Q) (r : R) (q to : Q)
      → In to (reached hops net r q)
      → (n : ℕ) × (n ≤ hops) × Route net r to n q
  unfolding reached
  reached_sound Nat.zero net r q to (inl e) =
      (0, omega arith, subst (λ t. Route net r to 0 t) e arrived)
  reached_sound Nat.zero net r q to (inr h) = absurd h
  reached_sound (Nat.suc hops) net r q to (inl e) =
      (0, omega arith, subst (λ t. Route net r to 0 t) e arrived)
  reached_sound (Nat.suc hops) net r q to (inr h) =
      let (next, handed, far) =
        (each_iff (λ (next : Q × R). reached hops net r next.0) (process (net q) r) to).0 h in
      let (ok, linked) = process_sound (net q) r next handed in
      let (n, few, way) = reached_sound hops net r next.0 to far in
      (Nat.suc n, omega (arith, few), passed q next.0 ok linked way)

  reached_complete :
      (hops : ℕ) (net : Q → Processor Q) (r : R) (to : Q) {n : ℕ} {q : Q}
      → Route net r to n q
      → n ≤ hops
      → In to (reached hops net r q)
  unfolding reached
  reached_complete Nat.zero net r to arrived few = inl refl
  reached_complete (Nat.suc hops) net r to arrived few = inl refl
  reached_complete Nat.zero net r to (passed {n = n} q next ok linked way) few =
      absurd (omega (arith, few))
  reached_complete (Nat.suc hops) net r to (passed {n = n} q next ok linked way) few = inr (
      (each_iff (λ (next : Q × R). reached hops net r next.0) (process (net q) r) to).1 (
        (next, r),
        process_complete (net q) r next ok linked,
        reached_complete hops net r to way (omega (arith, few)),
      ))

  -- Within some hops, the processors that are reached are those to which a way of accepting
  -- processors leads that is no longer.
  reached_iff :
      (hops : ℕ) (net : Q → Processor Q) (r : R) (q to : Q)
      → In to (reached hops net r q) ↔ ((n : ℕ) × (n ≤ hops) × Route net r to n q)
  reached_iff hops net r q to =
      (reached_sound hops net r q to, λ (n, few, way). reached_complete hops net r to way few)

  -- Where the links go down in rank, no way is longer than the rank.
  rank-Route :
      (net : Q → Processor Q) (r : R) (to : Q) (rank : Q → ℕ)
      → ((q next : Q) → In next (net q).next → rank next < rank q)
      → {n : ℕ} {q : Q} → Route net r to n q
      → n ≤ rank q
  rank-Route net r to rank down arrived = omega arith
  rank-Route net r to rank down (passed q next ok linked way) =
      omega (arith, rank-Route net r to rank down way, down q next linked)

  -- In a graph of processors without a cycle, in which every link goes down in rank, a record that
  -- is given to a processor is handed on at most as many times in a row as that processor's rank,
  -- and it reaches exactly the processors to which a way leads on which each processor but the last
  -- accepts the record.
  reached-acyclic :
      (net : Q → Processor Q) (r : R) (q to : Q) (rank : Q → ℕ)
      → ((p next : Q) → In next (net p).next → rank next < rank p)
      → In to (reached (rank q) net r q) ↔ ((n : ℕ) × Route net r to n q)
  reached-acyclic net r q to rank down =
      let (sound, complete) = reached_iff (rank q) net r q to in
      (
        λ h. let (n, few, way) = sound h in (n, way),
        λ (n, way). complete (n, rank-Route net r to rank down way, way),
      )
