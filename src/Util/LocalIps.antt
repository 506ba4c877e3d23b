-- ===== src/Util/LocalIps.antt =====
-- FindLocalIPs of util/util.go.
use passive_bitcoin.Prelude.{
  String, ◌≡◌, refl, sym, ap, ◌∙◌, ◌↔◌, ◌⊎◌, inl, inr, Bool, true, false, Option, none, some, List,
  [], ◌∷◌, ◌++◌, In, In-append, Bool-cases, if◌then◌else◌, subst, some-injective, Option-cases,
}
use passive_bitcoin.Net.{Ip}
use passive_bitcoin.Util.{
  IfaceAddr, ip_of, keep, Interface, is_loopback, valid_ips, scan, conclude, find_local_ips, latest,
}

-- The interface is up and no loopback interface, and has the address, which is no loopback
-- address, under one of the two known types.
pub record Serves (ip : Ip) (iface : Interface) : Type 0 where
  pub is_up : iface.up ≡ true
  pub is_outer : iface.loopback ≡ false
  pub addr : IfaceAddr
  pub has_addr : In addr iface.addrs
  pub has_ip : ip_of addr ≡ some ip
  pub not_loopback : is_loopback ip ≡ false

-- Some interface of the list serves the address.
abbrev pub Served : Ip → List Interface → Type 0
Served ip ifaces = (iface : Interface) × In iface ifaces × Serves ip iface

module _ (ip : Ip) where
  keep_sound : (o : Option Ip) → In ip (keep o) → (o ≡ some ip) × (is_loopback ip ≡ false)
  keep_sound none h = absurd h
  keep_sound (some a) h = elim (Bool-cases (is_loopback a)) [
    | inl l ↦ absurd (rw l at h)
    | inr l ↦ elim (rw l at h) [ inl e ↦ (ap some (sym e), rw e l) | inr n ↦ absurd n ]
  ]

  keep_complete : (o : Option Ip) → o ≡ some ip → is_loopback ip ≡ false → In ip (keep o)
  keep_complete none e l = cc
  keep_complete (some a) e l = let p = some-injective a ip e in rw p (rw l (inl refl))

  valid_ips_sound :
      (addrs : List IfaceAddr)
      → In ip (valid_ips addrs)
      → (addr : IfaceAddr) × In addr addrs × (ip_of addr ≡ some ip) × (is_loopback ip ≡ false)
  unfolding valid_ips
  valid_ips_sound [] h = absurd h
  valid_ips_sound (a ∷ rest) h = elim ((In-append ip (keep (ip_of a)) (valid_ips rest)).0 h) [
    | inl k ↦ let (e, l) = keep_sound (ip_of a) k in (a, inl refl, e, l)
    | inr m ↦ let (addr, i, e, l) = valid_ips_sound rest m in (addr, inr i, e, l)
  ]

  valid_ips_complete :
      (addrs : List IfaceAddr) (addr : IfaceAddr)
      → In addr addrs
      → ip_of addr ≡ some ip
      → is_loopback ip ≡ false
      → In ip (valid_ips addrs)
  unfolding valid_ips
  valid_ips_complete [] addr m e l = absurd m
  valid_ips_complete (a ∷ rest) addr (inl p) e l =
      (In-append ip (keep (ip_of a)) (valid_ips rest)).1
        (inl (keep_complete (ip_of a) (ap ip_of (sym p) ∙ e) l))
  valid_ips_complete (a ∷ rest) addr (inr m) e l =
      (In-append ip (keep (ip_of a)) (valid_ips rest)).1 (inr (valid_ips_complete rest addr m e l))

  abbrev Result : Type 0
  Result = List Ip × Option String

  branch_sound :
      (up loopback : Bool) (skip take : Result)
      → In ip (if up then (if loopback then skip else take) else skip).0
      → In ip skip.0 ⊎ ((up ≡ true) × (loopback ≡ false) × In ip take.0)
  branch_sound true true skip take h = inl h
  branch_sound true false skip take h = inr (refl, refl, h)
  branch_sound false loopback skip take h = inl h

  branch_complete :
      (up loopback : Bool) (skip take : Result)
      → (up ≡ true → loopback ≡ false → In ip take.0)
      → ((up ≡ false) ⊎ (loopback ≡ true) → In ip skip.0)
      → In ip (if up then (if loopback then skip else take) else skip).0
  branch_complete true true skip take t s = s (inr refl)
  branch_complete true false skip take t s = t refl refl
  branch_complete false loopback skip take t s = s (inl refl)

  widen : (iface : Interface) (rest : List Interface) → Served ip rest → Served ip (iface ∷ rest)
  widen iface rest (i, m, s) = (i, inr m, s)

  -- The address comes from the interface itself, with the test of its flags.
  Serves-here :
      (iface : Interface)
      → iface.up ≡ true
      → iface.loopback ≡ false
      → In ip (valid_ips iface.addrs)
      → Serves ip iface
  Serves-here iface u l m =
      let (addr, i, e, n) = valid_ips_sound iface.addrs m in
      record { is_up = u; is_outer = l; addr = addr; has_addr = i; has_ip = e; not_loopback = n }

  scan_sound :
      (ifaces : List Interface) (ips : List Ip) (last_err : Option String)
      → In ip (scan ifaces ips last_err).0
      → In ip ips ⊎ Served ip ifaces
  unfolding scan
  scan_sound [] ips last_err h = inl h
  scan_sound (iface ∷ rest) ips last_err h =
      let found =
        branch_sound iface.up iface.loopback (scan rest ips last_err)
          (scan rest (ips ++ valid_ips iface.addrs) (latest iface.addrs_err last_err)) h in
      elim found [
        | inl k ↦ elim (scan_sound rest ips last_err k) [
          | inl m ↦ inl m
          | inr s ↦ inr (widen iface rest s)
        ]
        | inr (u, l, k) ↦
            elim (scan_sound rest (ips ++ valid_ips iface.addrs) (latest iface.addrs_err last_err)
              k) [
                | inl m ↦ elim ((In-append ip ips (valid_ips iface.addrs)).0 m) [
                  | inl old ↦ inl old
                  | inr new ↦ inr (iface, inl refl, Serves-here iface u l new)
                ]
                | inr s ↦ inr (widen iface rest s)
              ]
      ]

  -- What is left to find once the first interface is passed.
  rest_of :
      (iface : Interface) (rest : List Interface)
      → Served ip (iface ∷ rest)
      → Serves ip iface ⊎ Served ip rest
  rest_of iface rest (i, inl e, s) = inl (subst (Serves ip) e s)
  rest_of iface rest (i, inr m, s) = inr (i, m, s)

  own_ips : (iface : Interface) → Serves ip iface → In ip (valid_ips iface.addrs)
  own_ips iface s = valid_ips_complete iface.addrs s.addr s.has_addr s.has_ip s.not_loopback

  not_skipped :
      (iface : Interface) → Serves ip iface → ¬ ((iface.up ≡ false) ⊎ (iface.loopback ≡ true))
  not_skipped iface s (inl d) = cc (s.is_up, d)
  not_skipped iface s (inr d) = cc (s.is_outer, d)

  scan_complete :
      (ifaces : List Interface) (ips : List Ip) (last_err : Option String)
      → In ip ips ⊎ Served ip ifaces
      → In ip (scan ifaces ips last_err).0
  unfolding scan
  scan_complete [] ips last_err (inl h) = h
  scan_complete [] ips last_err (inr (iface, m, s)) = absurd m
  scan_complete (iface ∷ rest) ips last_err h =
      let own = valid_ips iface.addrs in
      branch_complete iface.up iface.loopback _ _
        (λ u l. scan_complete rest (ips ++ own) (latest iface.addrs_err last_err) (elim h [
          | inl m ↦ inl ((In-append ip ips own).1 (inl m))
          | inr s ↦ elim (rest_of iface rest s) [
            | inl here ↦ inl ((In-append ip ips own).1 (inr (own_ips iface here)))
            | inr later ↦ inr later
          ]
        ]))
        (λ skipped. scan_complete rest ips last_err (elim h [
          | inl m ↦ inl m
          | inr s ↦ elim (rest_of iface rest s) [
            | inl here ↦ absurd (not_skipped iface here skipped)
            | inr later ↦ inr later
          ]
        ]))

conclude-ips : (r : List Ip × Option String) → (conclude r).ips ≡ r.0
unfolding conclude
conclude-ips ([], e) = refl
conclude-ips (ip ∷ ips, e) = refl

conclude-err :
    (r : List Ip × Option String) (e : String) → (conclude r).err ≡ some e → (conclude r).ips ≡ []
unfolding conclude
conclude-err ([], e') e h = refl
conclude-err (ip ∷ ips, e') e h = cc

-- If the interfaces can be listed, FindLocalIPs returns an address exactly if some interface that
-- is up and no loopback interface has it, and it is no loopback address; it returns no error
-- beside an address.
pub find_local_ips_iff :
    (ifaces : List Interface) (ip : Ip)
    → (In ip (find_local_ips ifaces none).ips ↔ Served ip ifaces)
      × (((find_local_ips ifaces none).err ≡ none) ⊎ ((find_local_ips ifaces none).ips ≡ []))
unfolding find_local_ips
find_local_ips_iff ifaces ip =
    let r = scan ifaces [] none in
    (
      (
        λ h. elim (scan_sound ip ifaces [] none (subst (In ip) (conclude-ips r) h)) [
          | inl m ↦ absurd m
          | inr s ↦ s
        ],
        λ s. subst (In ip) (sym (conclude-ips r)) (scan_complete ip ifaces [] none (inr s)),
      ),
      elim (Option-cases (conclude r).err) [
        | inl e ↦ inl e
        | inr (e, h) ↦ inr (conclude-err r e h)
      ],
    )
