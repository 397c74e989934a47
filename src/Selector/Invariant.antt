-- ===== src/Selector/Invariant.antt =====
-- selector.rs: what holds of every selector that the operations reach from `Selector::new`.
use xboxproxy.Prelude.{
  ℕ, ◌≡◌, refl, ap, ◌∙◌, Bool, false, List, [], ◌∷◌, map, Option, All, All-modify, map-modify,
  modify, is_empty, Option-cases, inl, inr, ok,
}
use xboxproxy.Net.{IpAddr}
use xboxproxy.Text.{Text}
use xboxproxy.Hosts.{HostDef}
use xboxproxy.Candidates.{CandidateState, candidate_ips, update_candidate, update_candidates}
use xboxproxy.Candidates.Updates.{
  IsSound, IsDistinct, ip-update_candidate, update_candidate-IsSound, fresh_candidates-IsSound,
  candidate_ips-fresh_candidates, update_candidates-All, candidate_ips-update_candidates,
}
use xboxproxy.Selector.Writes.{update_result_unmanaged, update_result_found, set_pinned_ip-eq-ok}
use xboxproxy.Selector.{
  Selector, HostStateInner, new, index_of, update_result, pinned_ips, pin_host, set_pinned_ip,
}

-- A group has addresses, each once.
abbrev pub IsUsable : HostDef → Type 0
IsUsable def = (is_empty def.ips ≡ false) × IsDistinct def.ips

module _ {F : Type 0} where
  -- The candidates are those of the pin, or of the bundled list if there is no pin.
  pub record IsValidHost (h : HostStateInner F) : Type 0 where
    pub live : candidate_ips h.candidates ≡ pinned_ips h.pinned_ip h.bundled_ips
    pub bundled : h.bundled_ips ≡ h.def.ips
    pub usable : IsUsable h.def
    pub sound : All IsSound h.candidates

  -- The operations that write, each with the clock and the arguments that it meets.
  pub data Step : Selector F → Selector F → Type 0 where
    updated :
        (s : Selector F) (now : ℕ) (host : Text) (ip : IpAddr) (latency_ms : Option ℕ)
        (speed_kbps : Option F) (success : Bool)
        → Step s (update_result s now host ip latency_ms speed_kbps success)
    pinned :
        (s s' : Selector F) (name : Text) (ip : Option IpAddr)
        → set_pinned_ip s name ip ≡ ok s'
        → Step s s'

  pub data Reach (s : Selector F) : Selector F → Type 0 where
    here : Reach s s
    next : {t u : Selector F} → Reach s t → Step t u → Reach s u

  module _ (ip : IpAddr) (latency_ms : Option ℕ) (speed_kbps : Option F) (success : Bool)
      (now penalty : ℕ) (h : HostStateInner F) where
    abbrev change : CandidateState F → CandidateState F
    change = update_candidate latency_ms speed_kbps success now penalty

    update-IsValidHost :
        IsValidHost h
        → IsValidHost (record h { candidates = update_candidates ip change h.candidates })
    update-IsValidHost v = record {
      live =
          candidate_ips-update_candidates ip change
            (ip-update_candidate latency_ms speed_kbps success now penalty) h.candidates
          ∙ v.live;
      bundled = v.bundled;
      usable = v.usable;
      sound =
          update_candidates-All ip change IsSound h.candidates
            (update_candidate-IsSound latency_ms speed_kbps success now penalty) v.sound;
    }

  pin_host-IsValidHost :
      (ip : Option IpAddr) (h : HostStateInner F) → IsValidHost h → IsValidHost (pin_host ip h)
  unfolding pin_host
  pin_host-IsValidHost ip h v = record {
    live = candidate_ips-fresh_candidates F (pinned_ips ip h.bundled_ips);
    bundled = v.bundled;
    usable = v.usable;
    sound = fresh_candidates-IsSound F (pinned_ips ip h.bundled_ips);
  }

  -- Every group is valid, and the definitions and the penalty are those that the selector began with.
  pub record IsValid (defs : List HostDef) (penalty : ℕ) (s : Selector F) : Type 0 where
    pub groups : All IsValidHost s.hosts
    pub same_defs : map (λ h. h.def) s.hosts ≡ defs
    pub same_penalty : s.failure_penalty ≡ penalty

module _ (F : Type 0) (penalty : ℕ) where
  new_groups :
      (defs : List HostDef) → All IsUsable defs → All IsValidHost (new {F = F} defs penalty).hosts
  unfolding new pinned_ips
  new_groups [] h = tt
  new_groups (def ∷ defs) (u, h) = (
    record {
      live = candidate_ips-fresh_candidates F def.ips;
      bundled = refl;
      usable = u;
      sound = fresh_candidates-IsSound F def.ips;
    },
    new_groups defs h,
  )

  new_defs : (defs : List HostDef) → map (λ h. h.def) (new {F = F} defs penalty).hosts ≡ defs
  unfolding new
  new_defs [] = refl
  new_defs (def ∷ defs) = ap (λ l. def ∷ l) (new_defs defs)

  pub new-IsValid :
      (defs : List HostDef) → All IsUsable defs → IsValid defs penalty (new {F = F} defs penalty)
  unfolding new
  new-IsValid defs u = record {
    groups = new_groups defs u;
    same_defs = new_defs defs;
    same_penalty = refl;
  }

module _ {F : Type 0} (defs : List HostDef) (penalty : ℕ) where
  modify-IsValid :
      (s : Selector F) (i : ℕ) (f : HostStateInner F → HostStateInner F)
      → ((h : HostStateInner F) → IsValidHost h → IsValidHost (f h))
      → ((h : HostStateInner F) → (f h).def ≡ h.def)
      → IsValid defs penalty s
      → IsValid defs penalty (record s { hosts = modify s.hosts i f })
  modify-IsValid s i f keep same v = record {
    groups = All-modify IsValidHost s.hosts i f keep v.groups;
    same_defs = map-modify (λ h. h.def) s.hosts i f same ∙ v.same_defs;
    same_penalty = v.same_penalty;
  }

  Step-IsValid : {s t : Selector F} → Step s t → IsValid defs penalty s → IsValid defs penalty t
  Step-IsValid (updated s now host ip latency_ms speed_kbps success) v =
      elim (Option-cases (index_of s host)) [
        | inl e ↦ rw (update_result_unmanaged s now host ip latency_ms speed_kbps success e) v
        | inr (i, e) ↦ rw (update_result_found s now host ip latency_ms speed_kbps success i e) (
            modify-IsValid s i _
              (update-IsValidHost ip latency_ms speed_kbps success now s.failure_penalty)
              (λ h. refl) v)
      ]
  Step-IsValid (pinned s s' name ip e) v =
      let (i, _, same) = set_pinned_ip-eq-ok s name ip s' e in
      rw same (
        modify-IsValid s i (pin_host ip) (pin_host-IsValidHost ip) (λ h. unfold pin_host in refl) v)

  -- From a valid selector every sequence of `update_result` and successful `set_pinned_ip` calls
  -- leads to a valid one: the candidates of each group are those of its pin, or its bundled ones;
  -- the bundled ones are those of the definition, at least one and none twice; a candidate that is
  -- down has failed since its last success; definitions and penalty stay.
  pub Reach-IsValid :
      {s t : Selector F} → IsValid defs penalty s → Reach s t → IsValid defs penalty t
  Reach-IsValid v here = v
  Reach-IsValid v (next r st) = Step-IsValid st (Reach-IsValid v r)
