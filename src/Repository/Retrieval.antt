-- ===== src/Repository/Retrieval.antt =====
-- goRetrieval of repository/repository.go: the search for an address to try.
use passive_bitcoin.Prelude.{
  ◌+◌, ◌*◌, ◌≤◌, ◌≡◌, ◌⊎◌, inl, inr, sym, ◌∙◌, subst, some-injective, Option, none, some, List, [],
  ◌∷◌, arith, ltb, leb, if◌then◌else◌, In, All, Option-cases,
}
use native.Mathlib.Decide.{dec_le, dec_lt}
use passive_bitcoin.Net.{Time, minute}
use passive_bitcoin.Repository.{Node}

-- The range over the index, whose order Go leaves open: the first node that passes the four tests
-- is sent, at the given time. `none` means that nothing is sent.
unfoldable pub retrieve : Time → List Node → Option Node
retrieve now [] = none
retrieve now (n ∷ rest) =
    let next = retrieve now rest in
    if leb 1 n.num_attempts
    then next
    else if ltb now (n.last_attempted + 5 * minute)
    then next
    else if ltb n.last_connected n.last_succeeded
    then next
    else if ltb now (n.last_succeeded + 15 * minute)
    then next
    else some n

-- A node that may be handed out: no attempt is open, the last one is five minutes ago, the node
-- was not left after a success, and the last success is fifteen minutes ago.
pub record IsEligible (now : Time) (n : Node) : Type 0 where
  pub no_attempts : n.num_attempts ≡ 0
  pub attempt_old : n.last_attempted + 5 * minute ≤ now
  pub not_left : n.last_succeeded ≤ n.last_connected
  pub success_old : n.last_succeeded + 15 * minute ≤ now

IsEligible-cases :
    (now : Time) (n : Node) (rest : List Node)
    → (IsEligible now n × (retrieve now (n ∷ rest) ≡ some n))
      ⊎ ((¬ IsEligible now n) × (retrieve now (n ∷ rest) ≡ retrieve now rest))
unfolding retrieve
IsEligible-cases now n rest = elim (dec_le 1 n.num_attempts) [
  | yes p ↦ inr (λ h. omega arith, ground arith)
  | no p ↦ elim (dec_lt now (n.last_attempted + 5 * minute)) [
    | yes q ↦ inr (λ h. omega arith, ground arith)
    | no q ↦ elim (dec_lt n.last_connected n.last_succeeded) [
      | yes r ↦ inr (λ h. omega arith, ground arith)
      | no r ↦ elim (dec_lt now (n.last_succeeded + 15 * minute)) [
        | yes s ↦ inr (λ h. omega arith, ground arith)
        | no s ↦ inl (omega arith, ground arith)
      ]
    ]
  ]
]

retrieve_sound :
    (now : Time) (order : List Node) (n : Node)
    → retrieve now order ≡ some n
    → In n order × IsEligible now n
retrieve_sound now [] n e = unfold retrieve in cc
retrieve_sound now (m ∷ rest) n e = elim (IsEligible-cases now m rest) [
  | inl (h, f) ↦ let p = some-injective m n (sym f ∙ e) in (inl (sym p), subst (IsEligible now) p h)
  | inr (h, f) ↦ let (i, g) = retrieve_sound now rest n (sym f ∙ e) in (inr i, g)
]

retrieve-none :
    (now : Time) (order : List Node)
    → retrieve now order ≡ none
    → All (λ n. ¬ IsEligible now n) order
retrieve-none now [] e = tt
retrieve-none now (m ∷ rest) e = elim (IsEligible-cases now m rest) [
  | inl (h, f) ↦ cc (f, e)
  | inr (h, f) ↦ (h, retrieve-none now rest (sym f ∙ e))
]

-- In whatever order the index is ranged over, goRetrieval either sends an eligible node of the
-- index, or sends nothing and no node of the index is eligible.
pub retrieve_cases :
    (now : Time) (order : List Node)
    → ((n : Node) × (retrieve now order ≡ some n) × In n order × IsEligible now n)
      ⊎ ((retrieve now order ≡ none) × All (λ n. ¬ IsEligible now n) order)
retrieve_cases now order = elim (Option-cases (retrieve now order)) [
  | inl e ↦ inr (e, retrieve-none now order e)
  | inr (n, e) ↦ let (there, eligible) = retrieve_sound now order n e in inl (n, e, there, eligible)
]
