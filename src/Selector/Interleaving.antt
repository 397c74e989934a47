-- ===== src/Selector/Interleaving.antt =====
-- selector.rs: what holds of a selector whose groups are pinned while other requests pin them too.
-- `set_pinned_ip` writes the pin and the candidates under two locks, one after the other.
use xboxproxy.Prelude.{
  ℕ, ◌≡◌, refl, ◌∙◌, Bool, List, [], ◌∷◌, map, Option, All, All-modify, map-modify, modify,
  Option-cases, inl, inr,
}
use xboxproxy.Net.{IpAddr}
use xboxproxy.Text.{Text}
use xboxproxy.Hosts.{HostDef}
use xboxproxy.Candidates.{candidate_ips, update_candidate}
use xboxproxy.Candidates.Updates.{
  IsSound, ip-update_candidate, update_candidate-IsSound, fresh_candidates-IsSound,
  candidate_ips-fresh_candidates, update_candidates-All, candidate_ips-update_candidates,
}
use xboxproxy.Selector.Writes.{update_result_unmanaged, update_result_found, updated_host}
use xboxproxy.Selector.Invariant.{IsUsable, IsValidHost, IsValid}
use xboxproxy.Selector.{
  Selector, HostStateInner, index_of, update_result, pinned_ips, write_pin, write_candidates,
}

module _ {F : Type 0} where
  -- The candidates are those of some pin, or of the bundled list.
  pub record IsLiveHost (h : HostStateInner F) : Type 0 where
    pub pin : Option IpAddr
    pub live : candidate_ips h.candidates ≡ pinned_ips pin h.bundled_ips
    pub bundled : h.bundled_ips ≡ h.def.ips
    pub usable : IsUsable h.def
    pub sound : All IsSound h.candidates

  pub record IsLive (defs : List HostDef) (penalty : ℕ) (s : Selector F) : Type 0 where
    pub groups : All IsLiveHost s.hosts
    pub same_defs : map (λ h. h.def) s.hosts ≡ defs
    pub same_penalty : s.failure_penalty ≡ penalty

  groups-IsLiveHost :
      (hosts : List (HostStateInner F)) → All IsValidHost hosts → All IsLiveHost hosts
  groups-IsLiveHost [] v = tt
  groups-IsLiveHost (h ∷ hosts) (v, vs) = (
    record {
      pin = h.pinned_ip;
      live = v.live;
      bundled = v.bundled;
      usable = v.usable;
      sound = v.sound;
    },
    groups-IsLiveHost hosts vs,
  )

  write_pin-IsLiveHost :
      (ip : Option IpAddr) (h : HostStateInner F) → IsLiveHost h → IsLiveHost (write_pin ip h)
  unfolding write_pin
  write_pin-IsLiveHost ip h v = record {
    pin = v.pin;
    live = v.live;
    bundled = v.bundled;
    usable = v.usable;
    sound = v.sound;
  }

  write_candidates-IsLiveHost :
      (ip : Option IpAddr) (h : HostStateInner F)
      → IsLiveHost h
      → IsLiveHost (write_candidates ip h)
  unfolding write_candidates
  write_candidates-IsLiveHost ip h v = record {
    pin = ip;
    live = candidate_ips-fresh_candidates F (pinned_ips ip h.bundled_ips);
    bundled = v.bundled;
    usable = v.usable;
    sound = fresh_candidates-IsSound F (pinned_ips ip h.bundled_ips);
  }

module _ {F : Type 0} (defs : List HostDef) (penalty : ℕ) (s : Selector F) where
  pub IsValid-IsLive : IsValid defs penalty s → IsLive defs penalty s
  IsValid-IsLive v = record {
    groups = groups-IsLiveHost s.hosts v.groups;
    same_defs = v.same_defs;
    same_penalty = v.same_penalty;
  }

  module _ (v : IsLive defs penalty s) where
    modify-IsLive :
        (i : ℕ) (f : HostStateInner F → HostStateInner F)
        → ((h : HostStateInner F) → IsLiveHost h → IsLiveHost (f h))
        → ((h : HostStateInner F) → (f h).def ≡ h.def)
        → IsLive defs penalty (record s { hosts = modify s.hosts i f })
    modify-IsLive i f keep same = record {
      groups = All-modify IsLiveHost s.hosts i f keep v.groups;
      same_defs = map-modify (λ h. h.def) s.hosts i f same ∙ v.same_defs;
      same_penalty = v.same_penalty;
    }

    pub write_pin-IsLive :
        (i : ℕ) (ip : Option IpAddr)
        → IsLive defs penalty (record s { hosts = modify s.hosts i (write_pin ip) })
    write_pin-IsLive i ip =
        modify-IsLive i (write_pin ip) (write_pin-IsLiveHost ip) (λ h. unfold write_pin in refl)

    pub write_candidates-IsLive :
        (i : ℕ) (ip : Option IpAddr)
        → IsLive defs penalty (record s { hosts = modify s.hosts i (write_candidates ip) })
    write_candidates-IsLive i ip =
        modify-IsLive i (write_candidates ip) (write_candidates-IsLiveHost ip)
          (λ h. unfold write_candidates in refl)

    module _ (now : ℕ) (host : Text) (ip : IpAddr) (latency_ms : Option ℕ) (speed_kbps : Option F)
        (success : Bool) where
      updated-IsLiveHost :
          (h : HostStateInner F)
          → IsLiveHost h
          → IsLiveHost (updated_host s now host ip latency_ms speed_kbps success h)
      updated-IsLiveHost h v =
          let change = update_candidate latency_ms speed_kbps success now s.failure_penalty in
          record {
            pin = v.pin;
            live =
                candidate_ips-update_candidates ip change
                  (ip-update_candidate latency_ms speed_kbps success now s.failure_penalty)
                  h.candidates
                ∙ v.live;
            bundled = v.bundled;
            usable = v.usable;
            sound =
                update_candidates-All ip change IsSound h.candidates
                  (update_candidate-IsSound latency_ms speed_kbps success now s.failure_penalty)
                  v.sound;
          }

      pub update_result-IsLive :
          IsLive defs penalty (update_result s now host ip latency_ms speed_kbps success)
      update_result-IsLive = elim (Option-cases (index_of s host)) [
        | inl e ↦ rw (update_result_unmanaged s now host ip latency_ms speed_kbps success e) v
        | inr (i, e) ↦
            rw (update_result_found s now host ip latency_ms speed_kbps success i e)
              (modify-IsLive i _ updated-IsLiveHost (λ h. refl))
      ]
