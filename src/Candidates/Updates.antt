-- ===== src/Candidates/Updates.antt =====
-- selector.rs, `update_result`: what a result does to the candidates of a group.
use mathlib.Core.Bool.{false≢true}
use mathlib.Core.List.Memᴰ
use xboxproxy.Prelude.{
  ℕ, ◌≤◌, ◌<◌, ◌≡◌, refl, sym, ap, ◌∙◌, ◌⊎◌, inl, inr, Bool, true, false, not, List, [], ◌∷◌,
  Option, none, Memᴰ, All, All-at, arith, Bool-cases,
}
use xboxproxy.Net.{IpAddr, ip_eq}
use xboxproxy.Net.Equality.{ip_eq_iff}
use xboxproxy.Candidates.{
  CandidateState, u32_max, candidate_ips, fresh_candidates, update_candidate, update_candidates,
}

module _ {F : Type 0} where
  module _ (latency_ms : Option ℕ) (speed_kbps : Option F) (success : Bool) (now penalty : ℕ)
      (c : CandidateState F) where
    pub ip-update_candidate :
        (update_candidate latency_ms speed_kbps success now penalty c).ip ≡ c.ip
    unfolding update_candidate
    ip-update_candidate = ground arith

    -- After a result a candidate is down exactly if the result was a failure.
    pub down-update_candidate :
        (update_candidate latency_ms speed_kbps success now penalty c).down ≡ not success
    unfolding update_candidate
    down-update_candidate = ground arith

  pub last_fail_ts-update_candidate :
      (now penalty : ℕ) (c : CandidateState F)
      → (update_candidate none none false now penalty c).last_fail_ts ≡ now
  unfolding update_candidate
  last_fail_ts-update_candidate now penalty c = refl

  -- A candidate that is down has failed since its last success, and the count fits a `u32`.
  pub record IsSound (c : CandidateState F) : Type 0 where
    pub down_failed : c.down ≡ true → 0 < c.fails
    pub bounded : c.fails ≤ u32_max

  pub update_candidate-IsSound :
      (latency_ms : Option ℕ) (speed_kbps : Option F) (success : Bool) (now penalty : ℕ)
      (c : CandidateState F)
      → IsSound (update_candidate latency_ms speed_kbps success now penalty c)
  unfolding update_candidate
  update_candidate-IsSound latency_ms speed_kbps success now penalty c = ground arith

module _ (F : Type 0) where
  pub fresh_candidates-IsSound : (ips : List IpAddr) → All (IsSound {F = F}) (fresh_candidates ips)
  unfolding fresh_candidates
  fresh_candidates-IsSound [] = tt
  fresh_candidates-IsSound (ip ∷ ips) = (ground arith, fresh_candidates-IsSound ips)

  pub candidate_ips-fresh_candidates :
      (ips : List IpAddr) → candidate_ips (fresh_candidates {F = F} ips) ≡ ips
  unfolding fresh_candidates
  candidate_ips-fresh_candidates [] = refl
  candidate_ips-fresh_candidates (ip ∷ ips) = ap (λ l. ip ∷ l) (candidate_ips-fresh_candidates ips)

-- No address stands twice.
abbrev pub IsDistinct : List IpAddr → Type 0
IsDistinct [] = Unit
IsDistinct (a ∷ l) = All (λ b. ip_eq b a ≡ false) l × IsDistinct l

module _ {F : Type 0} (ip : IpAddr) (change : CandidateState F → CandidateState F) where
  pub update_candidates-All :
      (P : CandidateState F → Type 0) (cands : List (CandidateState F))
      → ((c : CandidateState F) → P (change c))
      → All P cands
      → All P (update_candidates ip change cands)
  unfolding update_candidates
  update_candidates-All P [] keep h = tt
  update_candidates-All P (c ∷ cands) keep (p, h) = elim (Bool-cases (ip_eq c.ip ip)) [
    | inl e ↦ rw e (keep c, h)
    | inr e ↦ rw e (p, update_candidates-All P cands keep h)
  ]

  -- A candidate with another address stays.
  pub Memᴰ-update_candidates :
      (cands : List (CandidateState F)) {d : CandidateState F}
      → Memᴰ d cands
      → ip_eq d.ip ip ≡ false
      → Memᴰ d (update_candidates ip change cands)
  unfolding update_candidates
  Memᴰ-update_candidates [] m n = absurd (Memᴰ.not-nil m)
  Memᴰ-update_candidates (c ∷ cands) (Memᴰ.head e) n = rw (rw e at n) (Memᴰ.head e)
  Memᴰ-update_candidates (c ∷ cands) (Memᴰ.tail m) n = elim (Bool-cases (ip_eq c.ip ip)) [
    | inl e ↦ rw e (Memᴰ.tail m)
    | inr e ↦ rw e (Memᴰ.tail (Memᴰ-update_candidates cands m n))
  ]

  -- What is there afterwards was there, or is the change of one with the address.
  pub update_candidates-Memᴰ :
      (cands : List (CandidateState F)) {d : CandidateState F}
      → Memᴰ d (update_candidates ip change cands)
      → Memᴰ d cands ⊎ ((c : CandidateState F) × Memᴰ c cands × (c.ip ≡ ip) × (d ≡ change c))
  unfolding update_candidates
  update_candidates-Memᴰ [] m = absurd (Memᴰ.not-nil m)
  update_candidates-Memᴰ (c ∷ cands) {d} m = elim (Bool-cases (ip_eq c.ip ip)) [
    | inl e ↦ hit ((ip_eq_iff _ _).0 e) (rw e at m)
    | inr e ↦ missed (update_candidates-Memᴰ cands) (rw e at m)
  ]
    where
      hit :
          c.ip ≡ ip
          → Memᴰ d (change c ∷ cands)
          → Memᴰ d (c ∷ cands)
            ⊎ ((b : CandidateState F) × Memᴰ b (c ∷ cands) × (b.ip ≡ ip) × (d ≡ change b))
      hit e (Memᴰ.head q) = inr (c, Memᴰ.head refl, e, q)
      hit e (Memᴰ.tail n) = inl (Memᴰ.tail n)

      missed :
          (Memᴰ d (update_candidates ip change cands)
            → Memᴰ d cands ⊎ ((b : CandidateState F) × Memᴰ b cands × (b.ip ≡ ip) × (d ≡ change b)))
          → Memᴰ d (c ∷ update_candidates ip change cands)
          → Memᴰ d (c ∷ cands)
            ⊎ ((b : CandidateState F) × Memᴰ b (c ∷ cands) × (b.ip ≡ ip) × (d ≡ change b))
      missed ih (Memᴰ.head q) = inl (Memᴰ.head q)
      missed ih (Memᴰ.tail n) = elim (ih n) [
        | inl k ↦ inl (Memᴰ.tail k)
        | inr b ↦ inr (b.0, Memᴰ.tail b.1, b.2, b.3)
      ]

  module _ (same_ip : (c : CandidateState F) → (change c).ip ≡ c.ip) where
    pub candidate_ips-update_candidates :
        (cands : List (CandidateState F))
        → candidate_ips (update_candidates ip change cands) ≡ candidate_ips cands
    unfolding update_candidates
    candidate_ips-update_candidates [] = refl
    candidate_ips-update_candidates (c ∷ cands) = elim (Bool-cases (ip_eq c.ip ip)) [
      | inl e ↦ rw e (ap (λ a. a ∷ candidate_ips cands) (same_ip c))
      | inr e ↦ rw e (ap (λ l. c.ip ∷ l) (candidate_ips-update_candidates cands))
    ]

    -- With distinct addresses, whatever has the address afterwards was changed.
    pub update_candidates-changed :
        (cands : List (CandidateState F)) {d : CandidateState F}
        → IsDistinct (candidate_ips cands)
        → Memᴰ d (update_candidates ip change cands)
        → d.ip ≡ ip
        → (c : CandidateState F) × (d ≡ change c)
    unfolding update_candidates
    update_candidates-changed [] u m e = absurd (Memᴰ.not-nil m)
    update_candidates-changed (c ∷ cands) {d} (u, us) m e = elim (Bool-cases (ip_eq c.ip ip)) [
      | inl k ↦ hit ((ip_eq_iff _ _).0 k) (rw k at m)
      | inr k ↦ missed k (λ n. update_candidates-changed cands us n e) (rw k at m)
    ]
      where
        hit : c.ip ≡ ip → Memᴰ d (change c ∷ cands) → (b : CandidateState F) × (d ≡ change b)
        hit k (Memᴰ.head q) = (c, q)
        hit k (Memᴰ.tail n) =
            let differ = All-at _ (candidate_ips cands) u (Memᴰ.map (λ b. b.ip) n) in
            absurd (false≢true (sym differ ∙ (ip_eq_iff _ _).1 (e ∙ sym k)))

        missed :
            ip_eq c.ip ip ≡ false
            → (Memᴰ d (update_candidates ip change cands) → (b : CandidateState F) × (d ≡ change b))
            → Memᴰ d (c ∷ update_candidates ip change cands)
            → (b : CandidateState F) × (d ≡ change b)
        missed k ih (Memᴰ.head q) =
            absurd (false≢true (sym k ∙ (ip_eq_iff _ _).1 (ap (λ b. b.ip) (sym q) ∙ e)))
        missed k ih (Memᴰ.tail n) = ih n
