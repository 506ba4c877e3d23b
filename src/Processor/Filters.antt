-- ===== src/Processor/Filters.antt =====
-- The tests of the filters against the lists that they are configured with.
use mathlib.Core.List.{foldl}
use passive_bitcoin.Prelude.{
  String, ◌≡◌, ◌↔◌, refl, sym, ap, ◌∙◌, ◌⊎◌, inl, inr, Bool, true, some, List, [], ◌∷◌, ◌++◌, arith,
  str_eq, eq_iff, In, any, Bool-cases, subst, In-append, Option-cases,
}
use passive_bitcoin.Assoc
use passive_bitcoin.Assoc.{Assoc, lookup-insert}
use passive_bitcoin.Processor.{
  Record, Setting, set_addresses, set_commands, set_ips, set_all, flag, has_address, valid,
  new_address_filter, new_command_filter, new_ip_filter, apply, command_filter, address_filter,
  ip_filter,
}

-- A test holds of some element exactly if `any` says so.
any_iff :
    {A : Type 0} (p : A → Bool) (xs : List A)
    → (any p xs ≡ true) ↔ ((x : A) × In x xs × (p x ≡ true))
any_iff p [] = (λ h. cc, λ h. absurd (h.1))
any_iff p (x ∷ xs) = (
  λ h. elim (Bool-cases (p x)) [
    | inl e ↦ (x, inl refl, e)
    | inr e ↦ let (y, m, k) = (any_iff p xs).0 (rw e at h) in (y, inr m, k)
  ],
  λ h. elim h.1 [
    | inl e ↦ rw (ap p (sym e) ∙ h.2)
    | inr m ↦ elim (Bool-cases (p x)) [
      | inl e ↦ rw e
      | inr e ↦ rw e ((any_iff p xs).1 (h.0, m, h.2))
    ]
  ],
)

-- The keys that the loop sets, beside those that were set.
flag-set_all :
    (xs : List String) (config : Assoc Bool) (k : String)
    → (flag (Assoc.lookup k (set_all xs config)) ≡ true)
      ↔ (In k xs ⊎ (flag (Assoc.lookup k config) ≡ true))
unfolding set_all
flag-set_all [] config k = (λ h. inr h, λ h. elim h [ inl m ↦ absurd m | inr e ↦ e ])
flag-set_all (x ∷ xs) config k =
    let (to, from) = flag-set_all xs (Assoc.insert x true config) k in
    elim (Bool-cases (str_eq x k)) [
      | inl e ↦
          let written = rw e at (lookup-insert x k true config) in
          (λ h. inl (inl (sym ((eq_iff x k).0 e))), λ h. from (inr (rw written refl)))
      | inr e ↦
          let kept = rw e at (lookup-insert x k true config) in
          (
            λ h. elim (to h) [ inl m ↦ inl (inr m) | inr f ↦ inr (rw kept at f) ],
            λ h. elim h [
              | inl here ↦ elim here [ inl s ↦ ground (arith, eq_iff x k) | inr m ↦ from (inl m) ]
              | inr f ↦ from (inr (rw kept f))
            ],
          )
    ]

-- The commands of all options, and the addresses of the last one.
abbrev pub commands_of : List Setting → List String
commands_of [] = []
commands_of (set_commands cmds ∷ settings) = cmds ++ commands_of settings
commands_of (set_addresses addresses ∷ settings) = commands_of settings
commands_of (set_ips ips ∷ settings) = commands_of settings

abbrev pub ips_of : List Setting → List String
ips_of [] = []
ips_of (set_ips ips ∷ settings) = ips ++ ips_of settings
ips_of (set_addresses addresses ∷ settings) = ips_of settings
ips_of (set_commands cmds ∷ settings) = ips_of settings

abbrev pub addresses_of : List String → List Setting → List String
addresses_of earlier [] = earlier
addresses_of earlier (set_addresses addresses ∷ settings) = addresses_of addresses settings
addresses_of earlier (set_commands cmds ∷ settings) = addresses_of earlier settings
addresses_of earlier (set_ips ips ∷ settings) = addresses_of earlier settings

-- Setting some keys before or after the others comes to the same.
set_all_first :
    (xs ys : List String) (config : Assoc Bool) (k : String)
    → (In k ys ⊎ (flag (Assoc.lookup k (set_all xs config)) ≡ true))
      ↔ (In k (xs ++ ys) ⊎ (flag (Assoc.lookup k config) ≡ true))
set_all_first xs ys config k =
    let (set, unset) = flag-set_all xs config k in
    let (part, whole) = In-append k xs ys in
    (
      λ h. elim h [
        | inl m ↦ inl (whole (inr m))
        | inr e ↦ elim (set e) [ inl m ↦ inl (whole (inl m)) | inr f ↦ inr f ]
      ],
      λ h. elim h [
        | inl m ↦ elim (part m) [ inl m ↦ inr (unset (inl m)) | inr m ↦ inl m ]
        | inr f ↦ inr (unset (inr f))
      ],
    )

occurs_iff :
    (outs : List (List String)) (a : String)
    → (has_address outs a ≡ true) ↔ ((addrs : List String) × In addrs outs × In a addrs)
unfolding has_address
occurs_iff outs a =
    let (to, from) = any_iff (λ addrs. any (λ b. str_eq b a) addrs) outs in
    (
      λ h.
          let (addrs, m, e) = to h in
          let (b, m', e') = (any_iff (λ b. str_eq b a) addrs).0 e in
          (addrs, m, subst (λ x. In x addrs) ((eq_iff b a).0 e') m'),
      λ h. from (h.0, h.1, (any_iff (λ b. str_eq b a) h.0).1 (a, h.2, (eq_iff a a).1 refl)),
    )

last_addresses :
    (settings : List Setting) (config : List String)
    → foldl apply (address_filter config) settings ≡ address_filter (addresses_of config settings)
unfolding apply
last_addresses [] config = refl
last_addresses (set_addresses addresses ∷ settings) config = last_addresses settings addresses
last_addresses (set_commands cmds ∷ settings) config = last_addresses settings config
last_addresses (set_ips ips ∷ settings) config = last_addresses settings config

module _ {R : Type 0} ⦃i : Record R⦄ where
  commands_valid :
      (settings : List Setting) (config : Assoc Bool) (r : R)
      → (valid (foldl apply (command_filter config) settings) r ≡ true) ↔ (
          In (i.command r) (commands_of settings)
          ⊎ (flag (Assoc.lookup (i.command r) config) ≡ true))
  unfolding apply valid
  commands_valid [] config r = (λ h. inr h, λ h. elim h [ inl m ↦ absurd m | inr e ↦ e ])
  commands_valid (set_commands cmds ∷ settings) config r =
      let (to, from) = commands_valid settings (set_all cmds config) r in
      let (first, last) = set_all_first cmds (commands_of settings) config (i.command r) in
      (λ h. first (to h), λ h. from (last h))
  commands_valid (set_addresses addresses ∷ settings) config r = commands_valid settings config r
  commands_valid (set_ips ips ∷ settings) config r = commands_valid settings config r

  ips_valid :
      (settings : List Setting) (config : Assoc Bool) (r : R)
      → (valid (foldl apply (ip_filter config) settings) r ≡ true) ↔ (
          In (i.remote_ip r) (ips_of settings)
          ⊎ (flag (Assoc.lookup (i.remote_ip r) config) ≡ true))
  unfolding apply valid
  ips_valid [] config r = (λ h. inr h, λ h. elim h [ inl m ↦ absurd m | inr e ↦ e ])
  ips_valid (set_ips ips ∷ settings) config r =
      let (to, from) = ips_valid settings (set_all ips config) r in
      let (first, last) = set_all_first ips (ips_of settings) config (i.remote_ip r) in
      (λ h. first (to h), λ h. from (last h))
  ips_valid (set_addresses addresses ∷ settings) config r = ips_valid settings config r
  ips_valid (set_commands cmds ∷ settings) config r = ips_valid settings config r

  -- A new command filter accepts a record exactly if the record's command is one of the commands
  -- of its options, and a new IP filter exactly if the remote IP is one of the IPs of its options.
  pub filters_iff :
      (Q : Type 0) (settings : List Setting) (r : R)
      → ((valid (new_command_filter {Q = Q} settings).kind r ≡ true)
          ↔ In (i.command r) (commands_of settings))
        × ((valid (new_ip_filter {Q = Q} settings).kind r ≡ true)
            ↔ In (i.remote_ip r) (ips_of settings))
  unfolding new_command_filter new_ip_filter Assoc.lookup
  filters_iff Q settings r =
      let (to, from) = commands_valid settings [] r in
      let (to', from') = ips_valid settings [] r in
      (
        (λ h. elim (to h) [ inl m ↦ m | inr e ↦ ground arith ], λ h. from (inl h)),
        (λ h. elim (to' h) [ inl m ↦ m | inr e ↦ ground arith ], λ h. from' (inl h)),
      )

  -- A new address filter accepts a record exactly if it is a transaction record, one of whose
  -- outputs has one of the addresses of the last option that gave addresses.
  pub address_filter_iff :
      (Q : Type 0) (settings : List Setting) (r : R)
      → (valid (new_address_filter {Q = Q} settings).kind r ≡ true) ↔ (
          (outs : List (List String)) × (addrs : List String) × (a : String) × (i.outputs r
            ≡ some outs)
          × In addrs outs
          × In a addrs
          × In a (addresses_of [] settings))
  unfolding new_address_filter valid
  address_filter_iff Q settings r = rw (last_addresses settings []) (
      (
        λ h. elim (Option-cases (i.outputs r)) [
          | inl e ↦ ground (arith, rw e at h)
          | inr (outs, e) ↦
              let (a, m, has) =
                (any_iff (has_address outs) (addresses_of [] settings)).0 (rw e at h) in
              let (addrs, m', m'') = (occurs_iff outs a).0 has in (outs, addrs, a, e, m', m'', m)
        ],
        λ (outs, addrs, a, e, m', m'', m). rw e (
            (any_iff (has_address outs) (addresses_of [] settings)).1
              (a, m, (occurs_iff outs a).1 (addrs, m', m''))),
      ))
