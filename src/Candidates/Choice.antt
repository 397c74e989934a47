-- ===== src/Candidates/Choice.antt =====
-- selector.rs, `best_ip`: which candidate of a group is chosen.
use xboxproxy.Prelude.{
  ℕ, ◌-◌, ◌≡◌, refl, true, false, not, ◌&&◌, ◌⊎◌, inl, inr, List, [], ◌∷◌, some, Memᴰ, All, any,
  sym, All-at, All-Memᴰ, Memᴰ-select, select-Memᴰ, is_empty-select, any-Memᴰ, select, is_empty,
  is_some, unwrap_or, leb, arith, Bool-cases,
}
use mathlib.Core.Option.{some-injective}
use mathlib.Core.Path.{subst}
use xboxproxy.Prelude.{Ordering}
use xboxproxy.Float.{Float, IsNumber, IsIeee, is_gt, exceeds}
use xboxproxy.Candidates.{
  CandidateState, is_healthy, score_at, compare_scores, pool_of, max_by, best_candidate,
}
use xboxproxy.Candidates.Ranking.{Orders, max_from-Memᴰ, max_from_upper}

module _ {A : Type 0} (cmp : A → A → Ordering) where
  max_by-Memᴰ : (xs : List A) (a : A) → max_by cmp xs ≡ some a → Memᴰ a xs
  unfolding max_by
  max_by-Memᴰ [] a e = absurd (ground arith)
  max_by-Memᴰ (x ∷ xs) a e =
      subst (λ y. Memᴰ y (x ∷ xs)) (some-injective _ _ e) (max_from-Memᴰ cmp x xs)

  is_some-max_by : (xs : List A) → is_some (max_by cmp xs) ≡ not (is_empty xs)
  unfolding max_by
  is_some-max_by [] = refl
  is_some-max_by (x ∷ xs) = refl

  max_by_upper :
      {P : A → Type 0} (o : Orders cmp P) (xs : List A) (a : A)
      → All P xs
      → max_by cmp xs ≡ some a
      → All (λ x. is_gt (cmp x a) ≡ false) xs
  unfolding max_by
  max_by_upper o [] a h e = tt
  max_by_upper o (x ∷ xs) a (p, h) e =
      subst (λ y. All (λ z. is_gt (cmp z y) ≡ false) (x ∷ xs)) (some-injective _ _ e)
        (max_from_upper cmp o x xs p h)

module _ {F : Type 0} (now penalty : ℕ) (cands : List (CandidateState F)) where
  -- The pool is the healthy candidates, or all if none is healthy.
  Memᴰ-pool_of :
      {c : CandidateState F}
      → Memᴰ c (pool_of now penalty cands)
      → Memᴰ c cands × (any (is_healthy now penalty) cands ≡ true → is_healthy now penalty c ≡ true)
  unfolding pool_of
  Memᴰ-pool_of {c} m = elim (Bool-cases (any (is_healthy now penalty) cands)) [
    | inl e ↦
        let (n, k) =
          Memᴰ-select (is_healthy now penalty) cands
            (rw (is_empty-select (is_healthy now penalty) cands, e) at m) in
        (n, λ _. k)
    | inr e ↦ (rw (is_empty-select (is_healthy now penalty) cands, e) at m, λ t. cc)
  ]

  pool_of-Memᴰ :
      {c : CandidateState F}
      → Memᴰ c cands
      → (is_healthy now penalty c ≡ true) ⊎ (any (is_healthy now penalty) cands ≡ false)
      → Memᴰ c (pool_of now penalty cands)
  unfolding pool_of
  pool_of-Memᴰ m (inl e) =
      rw
        (
          is_empty-select (is_healthy now penalty) cands,
          any-Memᴰ (is_healthy now penalty) cands m e,
        )
        (select-Memᴰ (is_healthy now penalty) cands m e)
  pool_of-Memᴰ m (inr e) = rw (is_empty-select (is_healthy now penalty) cands, e) m

  is_empty_of_select :
      (xs : List (CandidateState F))
      → is_empty (select (is_healthy now penalty) xs) ≡ false
      → is_empty xs ≡ false
  is_empty_of_select [] e = e
  is_empty_of_select (x ∷ xs) e = refl

  is_empty-pool_of : is_empty (pool_of now penalty cands) ≡ is_empty cands
  unfolding pool_of
  is_empty-pool_of = elim (Bool-cases (is_empty (select (is_healthy now penalty) cands))) [
    | inl e ↦ rw e
    | inr e ↦ rw e (rw e (sym (is_empty_of_select cands e)))
  ]

-- A measured speed is no NaN.
abbrev pub HasNumber : (f : Float) → CandidateState f.Carrier → Type 0
HasNumber f c = IsNumber f (unwrap_or c.speed_kbps (f.of_u64 0))

module _ (f : Float) (now penalty : ℕ) where
  open f use {Carrier as F, of_u64}

  score_at-IsNumber :
      IsIeee f → (c : CandidateState F) → HasNumber f c → IsNumber f (score_at f c now penalty)
  unfolding score_at
  score_at-IsNumber laws c h = elim (Bool-cases (c.down && leb (now - c.last_fail_ts) penalty)) [
    | inl e ↦ rw e laws.number_min_value
    | inr e ↦ rw e (laws.number_sub _ _ (laws.number_mul _ h))
  ]

  pub compare_scores-Orders : IsIeee f → Orders (compare_scores f now penalty) (HasNumber f)
  compare_scores-Orders laws = record {
    asymm =
        λ x y p q. laws.exceeds_asymm _ _ (score_at-IsNumber laws x p) (score_at-IsNumber laws y q);
    trans = λ x y z p q r.
        laws.exceeds_trans _ _ _ (score_at-IsNumber laws x p) (score_at-IsNumber laws y q)
          (score_at-IsNumber laws z r);
  }

module _ (f : Float) (now penalty : ℕ) (cands : List (CandidateState f.Carrier)) where
  pub is_some-best_candidate : is_some (best_candidate f now penalty cands) ≡ not (is_empty cands)
  unfolding best_candidate
  is_some-best_candidate =
      rw (is_some-max_by (compare_scores f now penalty) _) (rw (is_empty-pool_of now penalty cands))

  module _ {c : CandidateState f.Carrier} (best : best_candidate f now penalty cands ≡ some c) where
    -- The chosen candidate is one of the group, and a healthy one if there is any.
    pub best_candidate-Memᴰ :
        Memᴰ c cands × (any (is_healthy now penalty) cands ≡ true → is_healthy now penalty c ≡ true)
    unfolding best_candidate
    best_candidate-Memᴰ = Memᴰ-pool_of now penalty cands (max_by-Memᴰ _ _ _ best)

    -- No candidate of the pool has a higher score.
    pub best_candidate_upper :
        IsIeee f
        → All (HasNumber f) cands
        → {d : CandidateState f.Carrier} → Memᴰ d cands
        → (is_healthy now penalty d ≡ true) ⊎ (any (is_healthy now penalty) cands ≡ false)
        → exceeds f (score_at f d now penalty) (score_at f c now penalty) ≡ false
    unfolding best_candidate
    best_candidate_upper laws h m p =
        All-at _ _
          (max_by_upper (compare_scores f now penalty) (compare_scores-Orders f now penalty laws) _
            c (All-Memᴰ _ _ (λ x n. All-at _ cands h (Memᴰ-pool_of now penalty cands n).0)) best)
          (pool_of-Memᴰ now penalty cands m p)
