-- ===== src/Repository/Waiting.antt =====
-- Who waits for goAddresses of repository/repository.go once it has returned.
use passive_bitcoin.Prelude.{
  ℕ, ◌+◌, ◌≤◌, String, ◌≡◌, refl, ap, ◌∙◌, arith, true, false, Option, none, some, List, [], ◌∷◌,
  ◌++◌, if◌then◌else◌, Bool-cases, inl, inr, length, subst,
}
use passive_bitcoin.Assoc
use passive_bitcoin.Net.{TcpAddr, Time}
use passive_bitcoin.Repository.Addresses.{step, discover, runs_on, ends}
use passive_bitcoin.Repository.Index.{IsValid, discover-unknown, is_full}
use passive_bitcoin.Repository.Queues.{
  Call, call_discovered, call_attempted, call_connected, call_succeeded, same, event, Queues,
  change, round, Step, Reach, here, further,
}
use passive_bitcoin.Repository.Queues

-- How many calls of one method have returned
abbrev pub count : Call → List Call → ℕ
count c [] = 0
count c (d ∷ ds) = (if same d c then 1 else 0) + count c ds

count-append : (c : Call) (xs ys : List Call) → count c (xs ++ ys) ≡ count c xs + count c ys
count-append c [] ys = omega arith
count-append c (x ∷ xs) ys = omega (arith, count-append c xs ys)

-- How many addresses its queue has room for
abbrev pub space : Option TcpAddr → ℕ
space none = 1
space (some addr) = 0

-- A method with the queue of another
same-eq : (c d : Call) → same c d ≡ true → c ≡ d
same-eq call_discovered call_discovered e = refl
same-eq call_attempted call_attempted e = refl
same-eq call_connected call_connected e = refl
same-eq call_succeeded call_succeeded e = refl
same-eq call_discovered call_attempted e = ground (arith, e)
same-eq call_discovered call_connected e = ground (arith, e)
same-eq call_discovered call_succeeded e = ground (arith, e)
same-eq call_attempted call_discovered e = ground (arith, e)
same-eq call_attempted call_connected e = ground (arith, e)
same-eq call_attempted call_succeeded e = ground (arith, e)
same-eq call_connected call_discovered e = ground (arith, e)
same-eq call_connected call_attempted e = ground (arith, e)
same-eq call_connected call_succeeded e = ground (arith, e)
same-eq call_succeeded call_discovered e = ground (arith, e)
same-eq call_succeeded call_attempted e = ground (arith, e)
same-eq call_succeeded call_connected e = ground (arith, e)

space-change :
    (c d : Call) (addr : TcpAddr) (queue : Call → Option TcpAddr)
    → queue c ≡ none
    → (if same c d then 1 else 0) + space (change c (some addr) queue d) ≡ space (queue d)
space-change c d addr queue e = elim (Bool-cases (same c d)) [
  | inl own ↦
      let empty : queue d ≡ none = subst (λ x. queue x ≡ none) (same-eq c d own) e in
      rw (own, empty) (omega arith)
  | inr other ↦ rw other (omega arith)
]

module _ (addr_string : TcpAddr → String) where
  -- Once goAddresses has returned, nothing changes but the queues, and each call that returns takes
  -- the room of its own.
  record HasEnded (s : Queues) (cs : List Call) (t : Queues) : Type 0 where
    stays : t.running ≡ false
    index : t.repo ≡ s.repo
    spent : (c : Call) → count c cs + space (t.queue c) ≡ space (s.queue c)

  ended-Step :
      (s t : Queues) (cs : List Call)
      → s.running ≡ false
      → Step addr_string s cs t
      → HasEnded s cs t
  ended-Step _ _ _ off (Queues.returns s c addr e) = record {
    stays = off;
    index = refl;
    spent = λ d. omega (arith, space-change c d addr s.queue e);
  }
  ended-Step _ _ _ off (Queues.receives s c addr now on e) = absurd (cc (off, on))
  ended-Step _ _ _ off (Queues.ticks s on) = absurd (cc (off, on))
  ended-Step _ _ _ off (Queues.backs_up s on) = absurd (cc (off, on))
  ended-Step _ _ _ off (Queues.stops s on) = absurd (cc (off, on))

  ended-Reach :
      (s t : Queues) (cs : List Call)
      → s.running ≡ false
      → Reach addr_string s cs t
      → HasEnded s cs t
  ended-Reach _ _ _ off (here s) = record { stays = off; index = refl; spent = λ c. omega arith }
  ended-Reach s u _ off (further _ cs t ds _ way one) =
      let before = ended-Reach s t cs off way in
      let after = ended-Step t u ds before.stays one in
      record {
        stays = after.stays;
        index = after.index ∙ before.index;
        spent = λ c. omega (arith, before.spent c, after.spent c, count-append c cs ds);
      }

  -- At the node limit, an unknown address that goAddresses receives is the last that it receives.
  -- Whatever happens afterwards, at most one call of Discovered returns, and of Attempted, Connected
  -- and Succeeded at most one each, and none if its queue was full: every other caller waits for
  -- good, and the index does not change any more.
  pub full-waits :
      (s : Queues) (addr : TcpAddr) (now : Time)
      → IsValid addr_string s.repo
      → Assoc.lookup (addr_string addr) s.repo.node_index ≡ none
      → length s.repo.node_index ≡ s.repo.node_limit
      → (cs : List Call) (t : Queues)
      → Reach addr_string
          (round addr_string
            (event call_discovered addr now)
            (record s { queue = change call_discovered none s.queue }))
          cs
          t
      → (t.running ≡ false)
        × (t.repo ≡ s.repo)
        × (count call_discovered cs ≤ 1)
        × ((c : Call) → same call_discovered c ≡ false → count c cs ≤ space (s.queue c))
  unfolding step
  full-waits s addr now v unknown full cs t way =
      let ended : is_full addr_string s.repo addr ≡ true = ground (arith, v.limit_fits, full) in
      let final : discover addr_string s.repo addr ≡ (s.repo, ends) =
        rw (discover-unknown addr_string s.repo addr unknown, ended) in
      let emptied = change call_discovered none s.queue in
      let next =
        round addr_string (event call_discovered addr now) (record s { queue = emptied }) in
      let off : next.running ≡ false = ap (λ o. runs_on o.1) final in
      let last = ended-Reach next t cs off way in
      (
        last.stays,
        last.index ∙ ap (λ o. o.0) final,
        omega (arith, last.spent call_discovered),
        λ c other.
            let same_queue : space (emptied c) ≡ space (s.queue c) = rw other refl in
            omega (arith, last.spent c, same_queue),
      )
