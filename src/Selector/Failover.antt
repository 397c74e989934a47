-- ===== src/Selector/Failover.antt =====
-- selector.rs: `best_ip` after `mark_failure`.
use xboxproxy.Prelude.{
  ℕ, ◌-◌, ◌≤◌, ◌≡◌, ◌≢◌, refl, ap, ◌∙◌, true, false, List, none, some, Memᴰ, get_elem?,
  get_elem?-modify_self, modify, is_empty, any-Memᴰ, arith,
}
use xboxproxy.Float.{Float}
use xboxproxy.Net.{IpAddr, ip_eq}
use xboxproxy.Text.{Text}
use xboxproxy.Candidates.{
  CandidateState, is_healthy, candidate_ips, update_candidate, update_candidates,
}
use xboxproxy.Candidates.Choice.{best_candidate-Memᴰ}
use xboxproxy.Candidates.Updates.{
  IsDistinct, ip-update_candidate, last_fail_ts-update_candidate, Memᴰ-update_candidates,
  update_candidates-changed,
}
use xboxproxy.Selector.{Selector, HostStateInner, index_of, best_ip, mark_failure}
use xboxproxy.Selector.Writes.{updated_host, update_result_found}
use xboxproxy.Selector.Choice.{index_of-modify, best_ip_of_group}

not_empty : {A : Type 0} {xs : List A} {a : A} → Memᴰ a xs → is_empty xs ≡ false
not_empty (Memᴰ.head e) = refl
not_empty (Memᴰ.tail m) = refl

module _ {F : Type 0} (now now' penalty : ℕ) (within : now' - now ≤ penalty) (ip : IpAddr) where
  abbrev fail : CandidateState F → CandidateState F
  fail = update_candidate none none false now penalty

  -- A candidate that has just failed is not healthy.
  unhealthy_after_failure :
      (cands : List (CandidateState F)) {c : CandidateState F}
      → IsDistinct (candidate_ips cands)
      → Memᴰ c (update_candidates ip fail cands)
      → is_healthy now' penalty c ≡ true
      → c.ip ≢ ip
  unhealthy_after_failure cands {c} u m good e =
      let (b, q) =
        update_candidates-changed ip fail (ip-update_candidate none none false now penalty) cands u
          m e in
      let stamped : c.last_fail_ts ≡ now =
        ap (λ d. d.last_fail_ts) q ∙ last_fail_ts-update_candidate now penalty b in
      ground arith

module _ (f : Float) (s : Selector f.Carrier) (now now' : ℕ) (host : Text) (ip : IpAddr) (i : ℕ)
    (h : HostStateInner f.Carrier) (d : CandidateState f.Carrier) where
  -- If the host's group lists each address once, and a candidate with another address than `ip` is
  -- healthy at `now'`, then after `mark_failure` of `ip` at `now` the `best_ip` at `now'` is an
  -- address other than `ip`, as long as no more time than the penalty has passed.
  pub best_ip-mark_failure :
      index_of s host ≡ some i
      → get_elem? s.hosts i ≡ some h
      → IsDistinct (candidate_ips h.candidates)
      → now' - now ≤ s.failure_penalty
      → Memᴰ d h.candidates
      → ip_eq d.ip ip ≡ false
      → is_healthy now' s.failure_penalty d ≡ true
      → (ip' : IpAddr) × (best_ip f (mark_failure s now host ip) now' host ≡ some ip') × (ip' ≢ ip)
  unfolding mark_failure
  best_ip-mark_failure a b u within m other good =
      let change = updated_host s now host ip none none false in
      let h' = change h in
      let kept =
        Memᴰ-update_candidates ip (fail now now' s.failure_penalty within ip) h.candidates m
          other in
      let written = update_result_found s now host ip none none false i a in
      let s' = record s { hosts = modify s.hosts i change } in
      let (c, g, e) =
        best_ip_of_group f s' now' host i h' (index_of-modify s host i change (λ k. refl) ∙ a)
          (get_elem?-modify_self s.hosts i change b) (not_empty kept) in
      let (n, healthy) = best_candidate-Memᴰ f now' s.failure_penalty h'.candidates g in
      (
        c.ip,
        ap (λ t. best_ip f t now' host) written ∙ e,
        unhealthy_after_failure now now' s.failure_penalty within ip h.candidates u n
            (healthy (any-Memᴰ _ h'.candidates kept good)),
      )
