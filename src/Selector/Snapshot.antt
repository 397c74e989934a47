-- ===== src/Selector/Snapshot.antt =====
-- selector.rs, `snapshot`: the ranking that the dashboard shows.
use mathlib.Core.Option
use mathlib.Core.List.{Perm}
use xboxproxy.Prelude.{
  ℕ, zero, suc, ◌+◌, ◌≡◌, refl, ap, ◌∙◌, List, [], ◌∷◌, map, some, All, get_elem?, arith,
}
use xboxproxy.Float.{Float, IsIeee}
use xboxproxy.Candidates.{CandidateState, refresh_down, compare_scores}
use xboxproxy.Candidates.Choice.{HasNumber, compare_scores-Orders}
use xboxproxy.Candidates.Ranking.{Orders, IsSortedBy, sort_by-perm, sort_by-IsSortedBy}
use xboxproxy.Selector.{Selector, HostState, HostStateInner, snapshot_host, snapshot_from, snapshot}

module _ (f : Float) where
  open f use {Carrier as F}

  -- What a snapshot at `now` says of a group.
  pub record IsSnapshot (now penalty : ℕ) (h : HostStateInner F) (shown : HostState F)
      : Type 0 where
    pub pinned_ip : shown.pinned_ip ≡ h.pinned_ip
    pub upstream_port : shown.upstream_port ≡ h.def.upstream_port
    pub same_candidates : Perm shown.candidates (map (refresh_down now penalty) h.candidates)
    pub ranked : IsSortedBy (λ a b. compare_scores f now penalty b a) shown.candidates

  reversed-Orders :
      (now penalty : ℕ) → IsIeee f → Orders (λ a b. compare_scores f now penalty b a) (HasNumber f)
  reversed-Orders now penalty laws =
      let o = compare_scores-Orders f now penalty laws in
      record {
        asymm = λ x y p q. o.asymm y x q p;
        trans = λ x y z p q r a b. o.trans z y x r q p b a;
      }

  refreshed :
      (now penalty : ℕ) (cands : List (CandidateState F))
      → All (HasNumber f) cands
      → All (HasNumber f) (map (refresh_down now penalty) cands)
  refreshed now penalty [] h = tt
  refreshed now penalty (c ∷ cands) h = (h.0, refreshed now penalty cands h.1)

  snapshot_host-IsSnapshot :
      (now penalty : ℕ) (h : HostStateInner F)
      → IsIeee f
      → All (HasNumber f) h.candidates
      → IsSnapshot now penalty h (snapshot_host f now penalty h)
  unfolding snapshot_host
  snapshot_host-IsSnapshot now penalty h laws measured = record {
    pinned_ip = refl;
    upstream_port = refl;
    same_candidates = sort_by-perm _ (map (refresh_down now penalty) h.candidates);
    ranked =
        sort_by-IsSortedBy _ (reversed-Orders now penalty laws)
          (map (refresh_down now penalty) h.candidates)
          (refreshed now penalty h.candidates measured);
  }

  get_elem?-snapshot_from :
      (clock : ℕ → ℕ) (j penalty : ℕ) (hs : List (HostStateInner F)) (i : ℕ)
      → get_elem? (snapshot_from f clock j penalty hs) i
        ≡ Option.map (snapshot_host f (clock (j + i)) penalty) (get_elem? hs i)
  unfolding snapshot_from
  get_elem?-snapshot_from clock j penalty [] i = refl
  get_elem?-snapshot_from clock j penalty (h ∷ hs) zero =
      ap (λ k. some (snapshot_host f (clock k) penalty h)) (omega arith)
  get_elem?-snapshot_from clock j penalty (h ∷ hs) (suc i) =
      get_elem?-snapshot_from clock (suc j) penalty hs i
      ∙ ap (λ k. Option.map (snapshot_host f (clock k) penalty) (get_elem? hs i)) (omega arith)

  -- If `f64` follows IEEE 754 and no speed of a group is a NaN, the snapshot has at the group's
  -- place its port, its pin and a permutation of its candidates, each with the `down` flag of the
  -- moment, in descending order of their scores.
  pub snapshot-IsSnapshot :
      (s : Selector F) (clock : ℕ → ℕ) (i : ℕ) (h : HostStateInner F)
      → IsIeee f
      → All (HasNumber f) h.candidates
      → get_elem? s.hosts i ≡ some h
      → (shown : HostState F) × (get_elem? (snapshot f s clock) i ≡ some shown)
        × IsSnapshot (clock i) s.failure_penalty h shown
  unfolding snapshot
  snapshot-IsSnapshot s clock i h laws measured b = (
    snapshot_host f (clock i) s.failure_penalty h,
    get_elem?-snapshot_from clock 0 s.failure_penalty s.hosts i
        ∙ ap (λ k. Option.map (snapshot_host f (clock k) s.failure_penalty) (get_elem? s.hosts i))
            (omega arith)
        ∙ ap (Option.map (snapshot_host f (clock i) s.failure_penalty)) b,
    snapshot_host-IsSnapshot (clock i) s.failure_penalty h laws measured,
  )
