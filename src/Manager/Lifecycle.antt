-- ===== src/Manager/Lifecycle.antt =====
-- Start and Stop of manager/manager.go with its three goroutines and their wait group: a step
-- relation on which of them run.
use passive_bitcoin.Prelude.{ℕ, ◌+◌, ◌-◌, ◌≡◌, refl, arith, Bool, true, false, Bool-cases, inl, inr}

-- The count of the wait group, which of goTicker, goPeers and goEvents run, whether sig is closed,
-- and whether Stop has returned
pub record Lifecycle : Type 0 where
  pub wg : ℕ
  pub ticker : Bool
  pub peers : Bool
  pub events : Bool
  pub closed : Bool
  pub returned : Bool

-- Start adds two to the wait group and starts three goroutines.
abbrev pub started : Lifecycle
started = record {
  wg = 2;
  ticker = true;
  peers = true;
  events = true;
  closed = false;
  returned = false;
}

-- Stop closes the signal; goTicker and goPeers see it and are done, goEvents sees it, drains and
-- ends, and Stop returns once the wait group is at zero.
pub data Step : Lifecycle → Lifecycle → Type 0 where
  close : (s : Lifecycle) → s.closed ≡ false → Step s (record s { closed = true })
  ticker_ends :
      (s : Lifecycle)
      → s.closed ≡ true
      → s.ticker ≡ true
      → Step s (record s { ticker = false; wg = s.wg - 1 })
  peers_end :
      (s : Lifecycle)
      → s.closed ≡ true
      → s.peers ≡ true
      → Step s (record s { peers = false; wg = s.wg - 1 })
  events_end :
      (s : Lifecycle) → s.closed ≡ true → s.events ≡ true → Step s (record s { events = false })
  stop_returns :
      (s : Lifecycle) → s.closed ≡ true → s.wg ≡ 0 → Step s (record s { returned = true })

-- Steps in order
pub data Reach : Lifecycle → Lifecycle → Type 0 where
  here : (s : Lifecycle) → Reach s s
  further : (s t u : Lifecycle) → Reach s t → Step t u → Reach s u

abbrev one_if : Bool → ℕ
one_if true = 1
one_if false = 0

-- The wait group counts goTicker and goPeers, and Stop returns only once it is at zero.
record IsCounted (s : Lifecycle) : Type 0 where
  counted : s.wg ≡ one_if s.ticker + one_if s.peers
  waited : s.returned ≡ true → s.wg ≡ 0

Step-IsCounted : (s t : Lifecycle) → Step s t → IsCounted s → IsCounted t
Step-IsCounted _ _ (close s e) h = record { counted = h.counted; waited = h.waited }
Step-IsCounted _ _ (ticker_ends s e on) h = record {
  counted = ground (arith, h.counted, on);
  waited = λ r. ground (arith, h.waited r, h.counted, on);
}
Step-IsCounted _ _ (peers_end s e on) h = record {
  counted = ground (arith, h.counted, on);
  waited = λ r. ground (arith, h.waited r, h.counted, on);
}
Step-IsCounted _ _ (events_end s e on) h = record { counted = h.counted; waited = h.waited }
Step-IsCounted _ _ (stop_returns s e zero_left) h = record {
  counted = h.counted;
  waited = λ r. zero_left;
}

Reach-IsCounted : (s : Lifecycle) → Reach started s → IsCounted s
Reach-IsCounted _ (here _) = record { counted = omega arith; waited = λ r. ground (arith, r) }
Reach-IsCounted u (further _ t _ way step) = Step-IsCounted t u step (Reach-IsCounted t way)

-- A way to a state in which Stop has returned, on which goEvents does not move
abbrev pub Returns : Lifecycle → Type 0
Returns s = (t : Lifecycle) × Reach s t × (t.returned ≡ true) × (t.events ≡ s.events)

then-Returns :
    (s : Lifecycle)
    → s.closed ≡ true
    → s.wg ≡ 0
    → (r : Lifecycle) → Reach r s
    → s.events ≡ r.events
    → Returns r
then-Returns s e zero_left r way same =
    (record s { returned = true }, further r s _ way (stop_returns s e zero_left), refl, same)

peers_first :
    (s : Lifecycle)
    → s.closed ≡ true
    → s.wg ≡ one_if s.peers
    → (r : Lifecycle) → Reach r s
    → s.events ≡ r.events
    → Returns r
peers_first s e counted r way same = elim (Bool-cases s.peers) [
  | inl on ↦
      then-Returns (record s { peers = false; wg = s.wg - 1 }) e (ground (arith, counted, on)) r
        (further r s _ way (peers_end s e on)) same
  | inr off ↦ then-Returns s e (ground (arith, counted, off)) r way same
]

-- Stop waits for goTicker and goPeers, but not for goEvents, which drains the peers: when it has
-- returned, these two have ended, and from every state that is reached with the signal closed it can
-- return without a move of goEvents.
pub Reach-Returns :
    (s : Lifecycle)
    → Reach started s
    → (s.returned ≡ true → (s.ticker ≡ false) × (s.peers ≡ false)) × (s.closed ≡ true → Returns s)
Reach-Returns s way =
    let h = Reach-IsCounted s way in
    (
      λ r. ground (arith, h.waited r, h.counted),
      λ e. elim (Bool-cases s.ticker) [
        | inl on ↦
            peers_first (record s { ticker = false; wg = s.wg - 1 }) e
              (ground (arith, h.counted, on)) s (further s s _ (here s) (ticker_ends s e on)) refl
        | inr off ↦ peers_first s e (ground (arith, h.counted, off)) s (here s) refl
      ],
    )
