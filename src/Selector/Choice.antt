-- ===== src/Selector/Choice.antt =====
-- selector.rs: what `best_ip` returns.
use mathlib.Core.Option
use mathlib.Core.Option.{some-injective}
use xboxproxy.Prelude.{
  ℕ, zero, suc, ◌≡◌, refl, sym, ap, ◌∙◌, true, false, not, ◌⊎◌, inl, inr, List, [], ◌∷◌, Option,
  none, some, some_of_is_some, ◌||◌, All, All-get_elem?, Memᴰ, get_elem?, modify, is_empty, is_some,
  any, arith, Option-cases, >>=-eq-some, if◌then◌else◌,
}
use xboxproxy.Float.{Float, IsIeee, exceeds}
use xboxproxy.Net.{IpAddr}
use xboxproxy.Text.{Text, eq_ignore_ascii_case}
use xboxproxy.Hosts.{manages, normalize_host}
use xboxproxy.Candidates.{CandidateState, is_healthy, score_at, best_candidate, candidate_ips}
use xboxproxy.Candidates.Choice.{
  HasNumber, is_some-best_candidate, best_candidate-Memᴰ, best_candidate_upper,
}
use xboxproxy.Selector.{Selector, HostStateInner, find_index, index_of, best_ip, pinned_ips}
use xboxproxy.Selector.Index.{index_of-get_elem?}
use xboxproxy.Selector.Invariant.{IsValidHost}

pub is_empty-pinned_ips :
    (ip : Option IpAddr) (bundled : List IpAddr)
    → is_empty bundled ≡ false
    → is_empty (pinned_ips ip bundled) ≡ false
unfolding pinned_ips
is_empty-pinned_ips none bundled e = e
is_empty-pinned_ips (some ip) bundled e = refl

module _ {F : Type 0} where
  is_empty-candidate_ips :
      (cands : List (CandidateState F)) → is_empty (candidate_ips cands) ≡ is_empty cands
  is_empty-candidate_ips [] = refl
  is_empty-candidate_ips (c ∷ cands) = refl

  -- A valid group is never without candidates.
  pub is_empty-candidates : (h : HostStateInner F) → IsValidHost h → is_empty h.candidates ≡ false
  is_empty-candidates h v =
      sym (is_empty-candidate_ips h.candidates)
      ∙ ap is_empty v.live
      ∙ is_empty-pinned_ips h.pinned_ip h.bundled_ips (ap is_empty v.bundled ∙ v.usable.0)

  find_index-modify :
      (host : Text) (hs : List (HostStateInner F)) (i : ℕ) (f : HostStateInner F → HostStateInner F)
      → ((h : HostStateInner F) → (f h).def ≡ h.def)
      → find_index host (modify hs i f) ≡ find_index host hs
  unfolding find_index
  find_index-modify host [] i f same = refl
  find_index-modify host (h ∷ hs) zero f same =
      ap
        (λ d.
          if eq_ignore_ascii_case d.name host || manages host d
          then some 0
          else Option.map suc (find_index host hs))
        (same h)
  find_index-modify host (h ∷ hs) (suc i) f same = rw (find_index-modify host hs i f same)

  -- The lookup by name does not read what the operations write.
  pub index_of-modify :
      (s : Selector F) (host : Text) (i : ℕ) (f : HostStateInner F → HostStateInner F)
      → ((h : HostStateInner F) → (f h).def ≡ h.def)
      → index_of (record s { hosts = modify s.hosts i f }) host ≡ index_of s host
  unfolding index_of
  index_of-modify s host i f same = find_index-modify (normalize_host host) s.hosts i f same

module _ (f : Float) (s : Selector f.Carrier) (now : ℕ) (host : Text) where
  open f use {Carrier as F}

  -- The address is that of a candidate of the host's group, which is healthy if any of the group is,
  -- and no candidate that it was chosen from has a higher score.
  pub record IsBest (ip : IpAddr) : Type 0 where
    pub position : ℕ
    pub group : HostStateInner F
    pub chosen : CandidateState F
    pub indexed : index_of s host ≡ some position
    pub found : get_elem? s.hosts position ≡ some group
    pub listed : Memᴰ chosen group.candidates
    pub address : chosen.ip ≡ ip
    pub healthy :
        any (is_healthy now s.failure_penalty) group.candidates ≡ true
        → is_healthy now s.failure_penalty chosen ≡ true
    pub fastest :
        (d : CandidateState F)
        → Memᴰ d group.candidates
        → (is_healthy now s.failure_penalty d ≡ true)
          ⊎ (any (is_healthy now s.failure_penalty) group.candidates ≡ false)
        → exceeds f (score_at f d now s.failure_penalty) (score_at f chosen now s.failure_penalty)
          ≡ false

  best_ip_found :
      (i : ℕ) (h : HostStateInner F) (c : CandidateState F)
      → index_of s host ≡ some i
      → get_elem? s.hosts i ≡ some h
      → is_empty h.candidates ≡ false
      → best_candidate f now s.failure_penalty h.candidates ≡ some c
      → best_ip f s now host ≡ some c.ip
  unfolding best_ip
  best_ip_found i h c a b e g = rw (a, b, e, g)

  pub best_ip-eq-some :
      (ip : IpAddr)
      → best_ip f s now host ≡ some ip
      → (i : ℕ) × (h : HostStateInner F) × (c : CandidateState F) × (index_of s host ≡ some i)
        × (get_elem? s.hosts i ≡ some h)
        × (best_candidate f now s.failure_penalty h.candidates ≡ some c)
        × (c.ip ≡ ip)
  unfolding best_ip
  best_ip-eq-some ip e =
      let (i, a, e') = >>=-eq-some (index_of s host) _ e in
      let (h, b, e2) = >>=-eq-some (get_elem? s.hosts i) _ e' in
      elim (Option-cases (best_candidate f now s.failure_penalty h.candidates)) [
        | inl n ↦ absurd (ground arith)
        | inr (c, g) ↦ (i, h, c, a, b, g, ground arith)
      ]

  -- If `f64` follows IEEE 754 and no stored speed is a NaN, the address that `best_ip` returns is
  -- that of a candidate of the host's group; the candidate is healthy if any of the group is, and
  -- no candidate of those that it was chosen from (the healthy ones, or all if none is) has a
  -- higher score.
  pub best_ip-IsBest :
      (ip : IpAddr)
      → IsIeee f
      → All (λ h. All (HasNumber f) h.candidates) s.hosts
      → best_ip f s now host ≡ some ip
      → IsBest ip
  best_ip-IsBest ip laws measured e =
      let (i, h, c, a, b, g, same) = best_ip-eq-some ip e in
      let (m, healthy) = best_candidate-Memᴰ f now s.failure_penalty h.candidates g in
      record {
        position = i;
        group = h;
        chosen = c;
        indexed = a;
        found = b;
        listed = m;
        address = same;
        healthy = healthy;
        fastest = λ d n p.
            best_candidate_upper f now s.failure_penalty h.candidates g laws
              (All-get_elem? _ s.hosts i measured b) n p;
      }

  -- A group with candidates has a best one.
  pub best_ip_of_group :
      (i : ℕ) (h : HostStateInner F)
      → index_of s host ≡ some i
      → get_elem? s.hosts i ≡ some h
      → is_empty h.candidates ≡ false
      → (c : CandidateState F) × (best_candidate f now s.failure_penalty h.candidates ≡ some c)
        × (best_ip f s now host ≡ some c.ip)
  best_ip_of_group i h a b e =
      let (c, g) =
        some_of_is_some (best_candidate f now s.failure_penalty h.candidates)
          (is_some-best_candidate f now s.failure_penalty h.candidates ∙ ap not e) in
      (c, g, best_ip_found i h c a b e g)

  -- If all groups are valid, `best_ip` finds an address exactly if `index_of` finds a group.
  pub is_some-best_ip :
      All IsValidHost s.hosts → is_some (best_ip f s now host) ≡ is_some (index_of s host)
  unfolding best_ip
  is_some-best_ip v = elim (Option-cases (index_of s host)) [
    | inl a ↦ rw a
    | inr (i, a) ↦
        let (h, b, _) = index_of-get_elem? s host i a in
        let full = is_empty-candidates h (All-get_elem? _ s.hosts i v b) in
        let (c, _, e) = best_ip_of_group i h a b full in ap is_some e ∙ sym (ap is_some a)
  ]
