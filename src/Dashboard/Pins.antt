-- ===== src/Dashboard/Pins.antt =====
-- dashboard.rs, `pin_group`: the request that pins a group, and what it makes of the selector.
use xboxproxy.Prelude.{
  ℕ, ◌≡◌, refl, sym, ap, ◌∙◌, inl, inr, Option, none, some, ok, err, Result-cases, Option-cases,
  get_elem?, err≢ok, List, [], ◌∷◌, All-get_elem?, is_empty,
}
use xboxproxy.Float.{Float}
use xboxproxy.Text.{Text}
use xboxproxy.Net.{IpAddr, parse_ipv4}
use xboxproxy.Hosts.{HostDef}
use xboxproxy.Selector.{Selector, HostStateInner, unknown_group, index_of, best_ip, def_for_host}
use xboxproxy.Selector.Invariant.{IsValidHost, IsValid, Reach-IsValid, here, next, pinned}
use xboxproxy.Selector.Index.{index_of-get_elem?}
use xboxproxy.Selector.Writes.{set_pinned_ip_found}
use xboxproxy.Selector.Choice.{is_empty-pinned_ips}
use xboxproxy.Selector.Pins.{set_pinned_ip-IsPinRestored, set_pinned_ip-eq-err_iff}
use xboxproxy.Dashboard.{wanted_url}
use xboxproxy.Dashboard.Api.{
  PinGroupBody, PinReply, pinned_to, invalid_ip, not_pinned, wanted_ip, pin_group,
}

wanted_ip-err :
    (raw : Option Text) (reply : PinReply)
    → wanted_ip raw ≡ err reply
    → wanted_ip raw ≡ err invalid_ip
unfolding wanted_ip
wanted_ip-err raw reply e = elim (Option-cases (wanted_url raw)) [
  | inl a ↦ absurd (err≢ok (sym (rw (a, wanted_ip) at e)))
  | inr (text, a) ↦ elim (Option-cases (parse_ipv4 text)) [
    | inl b ↦ rw (a, wanted_ip, b) refl
    | inr (ip, b) ↦ absurd (err≢ok (sym (rw (a, wanted_ip, b) at e)))
  ]
]

module _ {F : Type 0} (defs : List HostDef) (penalty : ℕ) (s : Selector F)
    (body : PinGroupBody) where
  -- The address is refused, or no group has the name, and the selector stays; or the group is
  -- pinned, and the selector is valid.
  pub data Outcome : Type 0 where
    refused : wanted_ip body.ip ≡ err invalid_ip → pin_group s body ≡ (invalid_ip, s) → Outcome
    unknown :
        index_of s body.name ≡ none
        → pin_group s body ≡ (not_pinned (unknown_group body.name), s)
        → Outcome
    changed :
        (ip : Option IpAddr) (s' : Selector F)
        → wanted_ip body.ip ≡ ok ip
        → pin_group s body ≡ (pinned_to ip, s')
        → IsValid defs penalty s'
        → Outcome

  -- On a valid selector the request that pins a group has one of three outcomes: its text is not an
  -- IPv4 address and it answers so, or no group has the name and it answers so, and in both cases
  -- the selector is unchanged; or it answers with the address, or with none if there was no text,
  -- and the selector is valid again.
  pub pin_group-Outcome : IsValid defs penalty s → Outcome
  unfolding pin_group
  pin_group-Outcome v = elim (Result-cases (wanted_ip body.ip)) [
    | inr (reply, a) ↦
        let bad = wanted_ip-err body.ip reply a in Outcome.refused bad (rw (bad, pin_group) refl)
    | inl (ip, a) ↦ elim (Option-cases (index_of s body.name)) [
      | inl b ↦
          let unpinned = (set_pinned_ip-eq-err_iff s body.name ip v.groups).1 b in
          Outcome.unknown b (rw (a, pin_group, unpinned) refl)
      | inr (i, b) ↦
          let (h, c, _) = index_of-get_elem? s body.name i b in
          let valid = All-get_elem? _ s.hosts i v.groups c in
          let full =
            is_empty-pinned_ips ip h.bundled_ips (ap is_empty valid.bundled ∙ valid.usable.0) in
          let e = set_pinned_ip_found s body.name ip i h b c full in
          Outcome.changed ip _ a (rw (a, pin_group, e) refl)
            (Reach-IsValid defs penalty v (next here (pinned s _ body.name ip e)))
    ]
  ]

module _ (f : Float) (s : Selector f.Carrier) (name : Text) (raw blank : Option Text) (ip : IpAddr)
    (i : ℕ) (h : HostStateInner f.Carrier) (now : ℕ) where
  open f use {Carrier as F}

  -- What the two requests answer and leave.
  pub record IsUndone (pinned restored : Selector F) : Type 0 where
    pub pin : pin_group s (record { name = name; ip = raw }) ≡ (pinned_to (some ip), pinned)
    pub pinned_def : def_for_host pinned name ≡ some (record h.def { ips = ip ∷ [] })
    pub pinned_best : best_ip f pinned now name ≡ some ip
    pub unpin : pin_group pinned (record { name = name; ip = blank }) ≡ (pinned_to none, restored)
    pub restored_def : def_for_host restored name ≡ some h.def

  -- If a group that is valid is found by the name, the first text names an IPv4 address and the
  -- second is absent or blank, then the request with the first text pins the group: its definition
  -- lists that address alone and `best_ip` returns it; and the request with the second text then
  -- restores the group's original definition.
  pub pin_group-IsUndone :
      IsValidHost h
      → index_of s name ≡ some i
      → get_elem? s.hosts i ≡ some h
      → wanted_ip raw ≡ ok (some ip)
      → wanted_ip blank ≡ ok none
      → (pinned : Selector F) × (restored : Selector F) × IsUndone pinned restored
  unfolding pin_group
  pin_group-IsUndone v a b r k =
      let (s1, s2, p) = set_pinned_ip-IsPinRestored f s name ip i h now v a b in
      (
        s1,
        s2,
        record {
          pin = rw (r, pin_group, p.pin) refl;
          pinned_def = p.pinned_def;
          pinned_best = p.pinned_best;
          unpin = rw (k, pin_group, p.unpin) refl;
          restored_def = p.restored_def;
        },
      )
