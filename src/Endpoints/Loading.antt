-- ===== src/Endpoints/Loading.antt =====
-- endpoints.rs: what loading guarantees to the selector.
use mathlib.Core.Bool.{false≢true}
use mathlib.Core.Path.{subst}
use xboxproxy.Prelude.{
  ◌⊎◌, ◌≡◌, refl, sym, ap, ◌∙◌, true, false, ◌||◌, List, [], ◌∷◌, Option, none, some, Result-cases,
  ok-injective, err≢ok, ok, is_empty, is_some, All, arith, Bool-cases, inl, inr,
}
use xboxproxy.Text.{Text, text_eq}
use xboxproxy.Net.{IpAddr, ip_eq}
use xboxproxy.Net.Equality.{ip_eq_iff, ip_eq_refl}
use xboxproxy.Hosts.{HostDef}
use xboxproxy.Candidates.Updates.{IsDistinct}
use xboxproxy.Selector.Invariant.{IsUsable}
use xboxproxy.Endpoints.{
  EndpointSpec, EnvVar, LoadedEndpoints, ip_among, retain_new, parse_lines, lines, load_spec,
  load_bundled, ipv4_from_env, pin_group, pin_if, load, pin_cn1_env, pin_cn2_env, xbox_assets,
  xbox_content,
}

ip_among_cons :
    (seen : List IpAddr) (a b : IpAddr) → ip_among (a ∷ seen) b ≡ (ip_eq a b || ip_among seen b)
unfolding ip_among
ip_among_cons seen a b = refl

ip_among_self : (seen : List IpAddr) (a : IpAddr) → ip_among (a ∷ seen) a ≡ true
ip_among_self seen a = rw (ip_among_cons seen a a, ip_eq_refl a) refl

ip_among_later :
    (seen : List IpAddr) (a b : IpAddr) → ip_among seen a ≡ true → ip_among (b ∷ seen) a ≡ true
ip_among_later seen a b h = elim (Bool-cases (ip_eq b a)) [
  | inl e ↦ rw (ip_among_cons seen b a, e) refl
  | inr e ↦ rw (ip_among_cons seen b a, e) h
]

-- An address that was not seen is none of those seen.
ip_eq_unseen :
    (seen : List IpAddr) (a b : IpAddr)
    → ip_among seen a ≡ true
    → ip_among seen b ≡ false
    → ip_eq b a ≡ false
ip_eq_unseen seen a b h e = elim (Bool-cases (ip_eq b a)) [
  | inl same ↦ absurd (false≢true (sym e ∙ ap (ip_among seen) ((ip_eq_iff b a).0 same) ∙ h))
  | inr other ↦ other
]

-- What is kept was not seen before.
retain_new_unseen :
    (seen ips : List IpAddr) (a : IpAddr)
    → ip_among seen a ≡ true
    → All (λ b. ip_eq b a ≡ false) (retain_new seen ips)
unfolding retain_new
retain_new_unseen seen [] a h = tt
retain_new_unseen seen (ip ∷ ips) a h = elim (Bool-cases (ip_among seen ip)) [
  | inl e ↦ rw e (retain_new_unseen seen ips a h)
  | inr e ↦
      rw e (
        ip_eq_unseen seen a ip h e,
        retain_new_unseen (ip ∷ seen) ips a (ip_among_later seen a ip h),
      )
]

retain_new-IsDistinct : (seen ips : List IpAddr) → IsDistinct (retain_new seen ips)
unfolding retain_new
retain_new-IsDistinct seen [] = tt
retain_new-IsDistinct seen (ip ∷ ips) = elim (Bool-cases (ip_among seen ip)) [
  | inl e ↦ rw e (retain_new-IsDistinct seen ips)
  | inr e ↦ rw e (
    retain_new_unseen (ip ∷ seen) ips ip (ip_among_self seen ip),
    retain_new-IsDistinct (ip ∷ seen) ips,
  )
]

load_spec-IsUsable : (spec : EndpointSpec) (def : HostDef) → load_spec spec ≡ ok def → IsUsable def
unfolding load_spec
load_spec-IsUsable spec def e =
    let distinct = retain_new-IsDistinct [] (parse_lines (lines spec.ip_list)) in
    elim (Bool-cases (is_empty (retain_new [] (parse_lines (lines spec.ip_list))))) [
      | inl empty ↦ absurd (err≢ok (rw empty at e))
      | inr full ↦
          let same = ok-injective (rw full at e) in
          (sym (ap (λ d. is_empty d.ips) same) ∙ full, subst (λ d. IsDistinct d.ips) same distinct)
    ]

load_bundled-IsUsable :
    (specs : List EndpointSpec) (defs : List HostDef)
    → load_bundled specs ≡ ok defs
    → All IsUsable defs
unfolding load_bundled
load_bundled-IsUsable [] defs e = subst (All IsUsable) (ok-injective e) tt
load_bundled-IsUsable (spec ∷ specs) defs e = elim (Result-cases (load_spec spec)) [
  | inr (x, a) ↦ absurd (err≢ok (rw (a, load_bundled) at e))
  | inl (def, a) ↦ elim (Result-cases (load_bundled specs)) [
    | inr (x, b) ↦ absurd (err≢ok (rw (a, load_bundled, b) at e))
    | inl (rest, b) ↦
        subst (All IsUsable) (ok-injective (rw (a, load_bundled, b) at e))
          (load_spec-IsUsable spec def a, load_bundled-IsUsable specs rest b)
  ]
]

pin_group-IsUsable :
    (hosts : List HostDef) (name : Text) (ip : IpAddr)
    → All IsUsable hosts
    → All IsUsable (pin_group hosts name ip)
unfolding pin_group
pin_group-IsUsable [] name ip u = tt
pin_group-IsUsable (h ∷ hosts) name ip (u, us) = elim (Bool-cases (text_eq h.name name)) [
  | inl e ↦ rw e ((refl, (tt, tt)), us)
  | inr e ↦ rw e (u, pin_group-IsUsable hosts name ip us)
]

pin_if-IsUsable :
    (hosts : List HostDef) (name : Text) (ip : Option IpAddr)
    → All IsUsable hosts
    → All IsUsable (pin_if hosts name ip)
unfolding pin_if
pin_if-IsUsable hosts name none u = u
pin_if-IsUsable hosts name (some ip) u = pin_group-IsUsable hosts name ip u

-- What `load` returns comes from the bundled groups and the two pins.
load-eq-ok :
    (specs : List EndpointSpec) (var1 var2 : EnvVar) (l : LoadedEndpoints)
    → load specs var1 var2 ≡ ok l
    → (hosts : List HostDef) × (cn1 : Option IpAddr) × (cn2 : Option IpAddr) × (load_bundled specs
        ≡ ok hosts)
      × (l ≡ record {
        hosts = pin_if (pin_if hosts xbox_assets cn1) xbox_content cn2;
        pinned = is_some cn1 || is_some cn2;
      })
unfolding load
load-eq-ok specs var1 var2 l e = elim (Result-cases (load_bundled specs)) [
  | inr (x, a) ↦ absurd (err≢ok (rw (a, load) at e))
  | inl (hosts, a) ↦ elim (Result-cases (ipv4_from_env pin_cn1_env var1)) [
    | inr (x, b) ↦ absurd (err≢ok (rw (a, load, b) at e))
    | inl (cn1, b) ↦ elim (Result-cases (ipv4_from_env pin_cn2_env var2)) [
      | inr (x, c) ↦ absurd (err≢ok (rw (a, load, b, c) at e))
      | inl (cn2, c) ↦ (hosts, cn1, cn2, a, sym (ok-injective (rw (a, load, b, c) at e)))
    ]
  ]
]

unpinned :
    (hosts : List HostDef) (cn1 cn2 : Option IpAddr)
    → (is_some cn1 || is_some cn2) ≡ false
    → pin_if (pin_if hosts xbox_assets cn1) xbox_content cn2 ≡ hosts
unfolding pin_if
unpinned hosts none none h = refl
unpinned hosts none (some ip) h = ground arith
unpinned hosts (some ip) cn2 h = ground arith

-- When `load` succeeds, every group has addresses and none of them twice, which `Selector::new`
-- relies on, also where a pin replaced them; and a pin is reported, or the groups are the bundled
-- ones.
pub load-IsUsable :
    (specs : List EndpointSpec) (var1 var2 : EnvVar) (l : LoadedEndpoints)
    → load specs var1 var2 ≡ ok l
    → All IsUsable l.hosts × ((l.pinned ≡ true) ⊎ (load_bundled specs ≡ ok l.hosts))
load-IsUsable specs var1 var2 l e =
    let (hosts, cn1, cn2, a, same) = load-eq-ok specs var1 var2 l e in
    let usable =
      pin_if-IsUsable _ xbox_content cn2
        (pin_if-IsUsable hosts xbox_assets cn1 (load_bundled-IsUsable specs hosts a)) in
    (
      subst (λ r. All IsUsable r.hosts) (sym same) usable,
      elim (Bool-cases (is_some cn1 || is_some cn2)) [
        | inl p ↦ inl (ap (λ r. r.pinned) same ∙ p)
        | inr p ↦ inr (a ∙ ap ok (sym (ap (λ r. r.hosts) same ∙ unpinned hosts cn1 cn2 p)))
      ],
    )
