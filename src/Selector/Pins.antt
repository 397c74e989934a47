-- ===== src/Selector/Pins.antt =====
-- selector.rs, `set_pinned_ip`: a pin, its removal, and when it fails.
use mathlib.Core.List.Memᴰ
use xboxproxy.Candidates.Choice.{best_candidate-Memᴰ}
use xboxproxy.Prelude.{
  ℕ, ◌≡◌, refl, ap, ◌∙◌, ◌↔◌, false, inl, inr, [], ◌∷◌, Option, none, some, Memᴰ, All,
  All-get_elem?, get_elem?, get_elem?-modify_self, modify, is_empty, arith, Option-cases, ok, err,
}
use xboxproxy.Float.{Float}
use xboxproxy.Net.{IpAddr}
use xboxproxy.Text.{Text}
use xboxproxy.Candidates.{CandidateState}
use xboxproxy.Candidates.Updates.{candidate_ips-fresh_candidates}
use xboxproxy.Selector.{
  Selector, HostStateInner, index_of, best_ip, def_for_host, live_def, pinned_ips, pin_host,
  set_pinned_ip, unknown_group,
}
use xboxproxy.Selector.Index.{index_of-get_elem?}
use xboxproxy.Selector.Writes.{set_pinned_ip_found}
use xboxproxy.Selector.Invariant.{IsValidHost}
use xboxproxy.Selector.Choice.{is_empty-pinned_ips, index_of-modify, best_ip_of_group}

module _ {F : Type 0} where
  def_for_host_found :
      (s : Selector F) (host : Text) (i : ℕ) (h : HostStateInner F)
      → index_of s host ≡ some i
      → get_elem? s.hosts i ≡ some h
      → def_for_host s host ≡ some (live_def h)
  unfolding def_for_host
  def_for_host_found s host i h a b = rw (a, b)

  def-pin_host : (ip : Option IpAddr) (h : HostStateInner F) → (pin_host ip h).def ≡ h.def
  unfolding pin_host
  def-pin_host ip h = refl

  pin_host-IsPinned :
      (ip : Option IpAddr) (h : HostStateInner F)
      → live_def (pin_host ip h) ≡ record h.def { ips = pinned_ips ip h.bundled_ips }
  unfolding pin_host
  pin_host-IsPinned ip h =
      ap (λ l. record h.def { ips = l })
        (candidate_ips-fresh_candidates F (pinned_ips ip h.bundled_ips))

  pinned_live :
      (ip : IpAddr) (h : HostStateInner F)
      → live_def (pin_host (some ip) h) ≡ record h.def { ips = ip ∷ [] }
  unfolding pin_host pinned_ips
  pinned_live ip h = refl

  restored_live :
      (ip : IpAddr) (h : HostStateInner F)
      → IsValidHost h
      → live_def (pin_host none (pin_host (some ip) h)) ≡ h.def
  unfolding pin_host pinned_ips
  restored_live ip h v =
      pin_host-IsPinned none (pin_host (some ip) h) ∙ ap (λ l. record h.def { ips = l }) v.bundled

  pinned_full :
      (ip : IpAddr) (h : HostStateInner F) → is_empty (pin_host (some ip) h).candidates ≡ false
  unfolding pin_host pinned_ips
  pinned_full ip h = refl

  unpinned_full :
      (ip : IpAddr) (h : HostStateInner F)
      → IsValidHost h
      → is_empty (pinned_ips none (pin_host (some ip) h).bundled_ips) ≡ false
  unfolding pin_host
  unpinned_full ip h v = is_empty-pinned_ips none h.bundled_ips (ap is_empty v.bundled ∙ v.usable.0)

  pinned_only :
      (ip : IpAddr) (h : HostStateInner F) {c : CandidateState F}
      → Memᴰ c (pin_host (some ip) h).candidates
      → c.ip ≡ ip
  unfolding pin_host pinned_ips
  pinned_only ip h (Memᴰ.head e) = ap (λ c. c.ip) e
  pinned_only ip h (Memᴰ.tail m) = absurd (Memᴰ.not-nil m)

  module _ (s : Selector F) (name : Text) (ip : Option IpAddr) where
    -- If all groups are valid, `set_pinned_ip` fails with the error of an unknown group exactly if
    -- `index_of` finds no group, also when a pin is removed.
    pub set_pinned_ip-eq-err_iff :
        All IsValidHost s.hosts
        → (set_pinned_ip s name ip ≡ err (unknown_group name)) ↔ (index_of s name ≡ none)
    unfolding set_pinned_ip
    set_pinned_ip-eq-err_iff v = (
      λ e. elim (Option-cases (index_of s name)) [
        | inl a ↦ a
        | inr (i, a) ↦
            let (h, b, _) = index_of-get_elem? s name i a in
            let valid = All-get_elem? _ s.hosts i v b in
            let full =
              is_empty-pinned_ips ip h.bundled_ips (ap is_empty valid.bundled ∙ valid.usable.0) in
            absurd (ground (arith, set_pinned_ip_found s name ip i h a b full))
      ],
      λ a. rw (a, set_pinned_ip),
    )

module _ (f : Float) (s : Selector f.Carrier) (name : Text) (ip : IpAddr) (i : ℕ)
    (h : HostStateInner f.Carrier) (now : ℕ) where
  open f use {Carrier as F}

  -- The first selector serves the name from the pinned address alone, the second from the bundled
  -- list again.
  pub record IsPinRestored (pinned restored : Selector F) : Type 0 where
    pub pin : set_pinned_ip s name (some ip) ≡ ok pinned
    pub pinned_def : def_for_host pinned name ≡ some (record h.def { ips = ip ∷ [] })
    pub pinned_best : best_ip f pinned now name ≡ some ip
    pub unpin : set_pinned_ip pinned name none ≡ ok restored
    pub restored_def : def_for_host restored name ≡ some h.def

  -- A group that is valid and that the name finds can be pinned and unpinned without an error:
  -- while it is pinned its definition lists the pinned address alone and `best_ip` returns it, and
  -- after the removal its definition is the original one.
  pub set_pinned_ip-IsPinRestored :
      IsValidHost h
      → index_of s name ≡ some i
      → get_elem? s.hosts i ≡ some h
      → (pinned : Selector F) × (restored : Selector F) × IsPinRestored pinned restored
  set_pinned_ip-IsPinRestored v a b =
      let p = pin_host (some ip) in
      let h1 = p h in
      let s1 = record s { hosts = modify s.hosts i p } in
      let a1 = index_of-modify s name i p (def-pin_host (some ip)) ∙ a in
      let b1 = get_elem?-modify_self s.hosts i p b in
      let q = pin_host none in
      let s2 = record s1 { hosts = modify s1.hosts i q } in
      let a2 = index_of-modify s1 name i q (def-pin_host none) ∙ a1 in
      let b2 = get_elem?-modify_self s1.hosts i q b1 in
      let (c, g, e) = best_ip_of_group f s1 now name i h1 a1 b1 (pinned_full ip h) in
      (
        s1,
        s2,
        record {
          pin = set_pinned_ip_found s name (some ip) i h a b (unfold pinned_ips in refl);
          pinned_def = def_for_host_found s1 name i h1 a1 b1 ∙ ap some (pinned_live ip h);
          pinned_best =
              e
              ∙ ap some (
                  pinned_only ip h (best_candidate-Memᴰ f now s.failure_penalty h1.candidates g).0);
          unpin = set_pinned_ip_found s1 name none i h1 a1 b1 (unpinned_full ip h v);
          restored_def = def_for_host_found s2 name i (q h1) a2 b2 ∙ ap some (restored_live ip h v);
        },
      )
