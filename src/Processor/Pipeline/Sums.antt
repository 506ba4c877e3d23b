-- ===== src/Processor/Pipeline/Sums.antt =====
-- Sums over the workers of the processors of processor/, and what a change of one of them does to a sum.
use passive_bitcoin.Prelude.{
  ℕ, ◌+◌, ◌≤◌, String, true, false, List, [], ◌∷◌, ◌≡◌, refl, sym, inl, inr, str_eq, eq_iff,
  Bool-cases, subst, arith, In,
}
use passive_bitcoin.Processor.Pipeline.{Worker, alter}

-- No name occurs twice.
abbrev pub Distinct : List String → Type 0
Distinct [] = Unit
Distinct (q ∷ names) = (In q names → ⊥) × Distinct names

module _ {R : Type 0} (f : String → Worker R → ℕ) where
  -- The sum over the named workers
  abbrev pub sum : List String → (String → Worker R) → ℕ
  sum [] workers = 0
  sum (q ∷ names) workers = f q (workers q) + sum names workers

  module _ (q : String) (g : Worker R → Worker R) (workers : String → Worker R) where
    -- What a change of one worker does to a summand
    own_summand : (p : String) → str_eq q p ≡ true → f p (alter q g workers p) ≡ f q (g (workers q))
    own_summand p e =
        rw e (subst (λ v. f v (g (workers v)) ≡ f q (g (workers q))) ((eq_iff q p).0 e) refl)

    other_summand : (p : String) → str_eq q p ≡ false → f p (alter q g workers p) ≡ f p (workers p)
    other_summand p e = rw e refl

    before_summand : (p : String) → str_eq q p ≡ true → f p (workers p) ≡ f q (workers q)
    before_summand p e = subst (λ v. f v (workers v) ≡ f q (workers q)) ((eq_iff q p).0 e) refl

    sum-kept :
        f q (g (workers q)) ≤ f q (workers q)
        → (names : List String) → sum names (alter q g workers) ≤ sum names workers
    sum-kept h [] = omega arith
    sum-kept h (p ∷ names) = elim (Bool-cases (str_eq q p)) [
      | inl e ↦ omega (arith, h, own_summand p e, before_summand p e, sum-kept h names)
      | inr e ↦ omega (arith, other_summand p e, sum-kept h names)
    ]

    pub sum-less :
        (d : ℕ)
        → f q (g (workers q)) + d ≤ f q (workers q)
        → (names : List String) → In q names
        → sum names (alter q g workers) + d ≤ sum names workers
    sum-less d h [] m = absurd m
    sum-less d h (p ∷ names) m = elim (Bool-cases (str_eq q p)) [
      | inl e ↦
          omega (arith, h, own_summand p e, before_summand p e, sum-kept (omega (arith, h)) names)
      | inr e ↦ elim m [
        | inl same ↦ absurd (cc (e, (eq_iff q p).1 same))
        | inr rest ↦ omega (arith, other_summand p e, sum-less d h names rest)
      ]
    ]

    sum-absent :
        (names : List String) → (In q names → ⊥) → sum names (alter q g workers) ≡ sum names workers
    sum-absent [] out = refl
    sum-absent (p ∷ names) out = elim (Bool-cases (str_eq q p)) [
      | inl e ↦ absurd (out (inl ((eq_iff q p).0 e)))
      | inr e ↦ omega (arith, other_summand p e, sum-absent names (λ m. out (inr m)))
    ]

    pub sum-more :
        (d : ℕ)
        → f q (g (workers q)) ≤ f q (workers q) + d
        → (names : List String) → Distinct names
        → sum names (alter q g workers) ≤ sum names workers + d
    sum-more d h [] distinct = omega arith
    sum-more d h (p ∷ names) distinct = elim (Bool-cases (str_eq q p)) [
      | inl e ↦
          let out : In q names → ⊥ =
            subst (λ v. In v names → ⊥) (sym ((eq_iff q p).0 e)) distinct.0 in
          omega (arith, h, own_summand p e, before_summand p e, sum-absent names out)
      | inr e ↦ omega (arith, other_summand p e, sum-more d h names distinct.1)
    ]
