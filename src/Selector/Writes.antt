-- ===== src/Selector/Writes.antt =====
-- selector.rs: the cases of the two operations that write, by what `index_of` finds.
use xboxproxy.Prelude.{
  ℕ, ◌≡◌, sym, Bool, false, Option, none, some, get_elem?, modify, is_empty, arith, ok,
  Option-cases, Bool-cases, inl, inr,
}
use xboxproxy.Net.{IpAddr}
use xboxproxy.Text.{Text}
use xboxproxy.Candidates.{update_candidate, update_candidates}
use xboxproxy.Selector.{
  Selector, HostStateInner, index_of, update_result, pinned_ips, pin_host, set_pinned_ip,
}

module _ {F : Type 0} (s : Selector F) where
  module _ (now : ℕ) (host : Text) (ip : IpAddr) (latency_ms : Option ℕ) (speed_kbps : Option F)
      (success : Bool) where
    pub update_result_unmanaged :
        index_of s host ≡ none → update_result s now host ip latency_ms speed_kbps success ≡ s
    unfolding update_result
    update_result_unmanaged e = rw (e, update_result)

    -- What `update_result` makes of the group that it finds.
    abbrev pub updated_host : HostStateInner F → HostStateInner F
    updated_host h = record h {
      candidates =
          update_candidates ip
            (update_candidate latency_ms speed_kbps success now s.failure_penalty) h.candidates;
    }

    pub update_result_found :
        (i : ℕ)
        → index_of s host ≡ some i
        → update_result s now host ip latency_ms speed_kbps success
          ≡ record s { hosts = modify s.hosts i updated_host }
    unfolding update_result
    update_result_found i e = rw (e, update_result)

  module _ (name : Text) (ip : Option IpAddr) where
    pub set_pinned_ip-eq-ok :
        (s' : Selector F)
        → set_pinned_ip s name ip ≡ ok s'
        → (i : ℕ) × (index_of s name ≡ some i)
          × (s' ≡ record s { hosts = modify s.hosts i (pin_host ip) })
    unfolding set_pinned_ip
    set_pinned_ip-eq-ok s' e = elim (Option-cases (index_of s name)) [
      | inl a ↦ absurd (ground arith)
      | inr (i, a) ↦ elim (Option-cases (get_elem? s.hosts i)) [
        | inl b ↦ absurd (ground arith)
        | inr (h, b) ↦ elim (Bool-cases (is_empty (pinned_ips ip h.bundled_ips))) [
          | inl c ↦ absurd (ground arith)
          | inr c ↦ (i, a, sym (ground arith))
        ]
      ]
    ]

    pub set_pinned_ip_found :
        (i : ℕ) (h : HostStateInner F)
        → index_of s name ≡ some i
        → get_elem? s.hosts i ≡ some h
        → is_empty (pinned_ips ip h.bundled_ips) ≡ false
        → set_pinned_ip s name ip ≡ ok (record s { hosts = modify s.hosts i (pin_host ip) })
    unfolding set_pinned_ip
    set_pinned_ip_found i h a b c = rw (a, set_pinned_ip, b, c)
