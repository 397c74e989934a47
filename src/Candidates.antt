-- ===== src/Candidates.antt =====
-- selector.rs: the state of one candidate address, what a measurement or a failure does to it, and
-- the ranking of candidates.
pub mod Ranking
pub mod Choice
pub mod Updates
use xboxproxy.Prelude.{
  ℕ, ◌+◌, ◌-◌, ◌^◌, Bool, false, ◌&&◌, List, [], ◌∷◌, map, Option, none, some, leb, ltb, min,
  Ordering, update_first, select, is_empty, is_some, unwrap_or, if◌then◌else◌,
}
use xboxproxy.Float.{Float, is_gt, cmp_or_equal}
use xboxproxy.Net.{IpAddr, ip_eq}

pub record CandidateState (F : Type 0) : Type 0 where
  pub ip : IpAddr
  pub latency_ms : Option ℕ
  pub speed_kbps : Option F
  pub last_ok_ts : ℕ
  pub last_fail_ts : ℕ
  pub fails : ℕ
  pub down : Bool

abbrev pub u32_max : ℕ
u32_max = 2 ^ 32 - 1

-- The largest element, the last of equal ones, as `Iterator::max_by` finds it.
module _ {A : Type 0} (cmp : A → A → Ordering) where
  unfoldable pub max_from : A → List A → A
  max_from best [] = best
  max_from best (x ∷ xs) = max_from (if is_gt (cmp best x) then best else x) xs

  unfoldable pub max_by : List A → Option A
  unfolding max_from
  max_by [] = none
  max_by (x ∷ xs) = some (max_from x xs)

  -- The stable sort of `sort_by`, by insertion.
  unfoldable pub insert_by : A → List A → List A
  insert_by x [] = x ∷ []
  insert_by x (y ∷ ys) =
      let later = insert_by x ys in if is_gt (cmp x y) then y ∷ later else x ∷ y ∷ ys

  unfoldable pub sort_by : List A → List A
  unfolding insert_by
  sort_by [] = []
  sort_by (x ∷ xs) = insert_by x (sort_by xs)

module _ {F : Type 0} where
  unfoldable pub fresh_candidates : List IpAddr → List (CandidateState F)
  fresh_candidates = map λ ip. record {
    ip = ip;
    latency_ms = none;
    speed_kbps = none;
    last_ok_ts = 0;
    last_fail_ts = 0;
    fails = 0;
    down = false;
  }

  abbrev pub candidate_ips : List (CandidateState F) → List IpAddr
  candidate_ips = map (λ c. c.ip)

  -- `now.saturating_sub(c.last_fail_ts) > penalty`
  abbrev pub is_healthy : ℕ → ℕ → CandidateState F → Bool
  is_healthy now penalty c = ltb penalty (now - c.last_fail_ts)

  unfoldable pub record_success : Option ℕ → Option F → ℕ → CandidateState F → CandidateState F
  record_success latency_ms speed_kbps now c = record c {
    latency_ms = (if is_some latency_ms then latency_ms else c.latency_ms);
    speed_kbps = (if is_some speed_kbps then speed_kbps else c.speed_kbps);
    last_ok_ts = now;
    fails = 0;
  }

  unfoldable pub record_failure : ℕ → CandidateState F → CandidateState F
  record_failure now c = record c { last_fail_ts = now; fails = min (c.fails + 1) u32_max }

  -- The body of `update_result`, on the candidate that was found.
  unfoldable pub update_candidate :
      Option ℕ → Option F → Bool → ℕ → ℕ → CandidateState F → CandidateState F
  unfolding record_success record_failure
  update_candidate latency_ms speed_kbps success now penalty c =
      let c' =
        if success then record_success latency_ms speed_kbps now c else record_failure now c in
      record c' { down = leb (now - c'.last_fail_ts) penalty && ltb 0 c'.fails }

  -- `find(|c| c.ip == ip)` with the update of what it finds.
  unfoldable pub update_candidates :
      IpAddr
      → (CandidateState F → CandidateState F)
      → List (CandidateState F)
      → List (CandidateState F)
  unfolding ip_eq
  update_candidates ip change = update_first (λ c. ip_eq c.ip ip) change

  abbrev pub refresh_down : ℕ → ℕ → CandidateState F → CandidateState F
  refresh_down now penalty c = record c { down = c.down && leb (now - c.last_fail_ts) penalty }

  -- The candidates that `best_ip` chooses from.
  unfoldable pub pool_of : ℕ → ℕ → List (CandidateState F) → List (CandidateState F)
  pool_of now penalty cands =
      let healthy = select (is_healthy now penalty) cands in
      if is_empty healthy then cands else healthy

-- What ranks by `f64` scores.
module _ (f : Float) where
  open f use {Carrier as F, of_u64, min_value, mul, sub}

  unfoldable pub score_at : CandidateState F → ℕ → ℕ → F
  score_at c now penalty =
      let speed = unwrap_or c.speed_kbps (of_u64 0) in
      let latency = of_u64 (unwrap_or c.latency_ms 0) in
      if c.down && leb (now - c.last_fail_ts) penalty
      then min_value
      else sub (mul speed (of_u64 1000)) latency

  abbrev pub compare_scores : ℕ → ℕ → CandidateState F → CandidateState F → Ordering
  compare_scores now penalty a b = cmp_or_equal f (score_at a now penalty) (score_at b now penalty)

  unfoldable pub best_candidate : ℕ → ℕ → List (CandidateState F) → Option (CandidateState F)
  unfolding pool_of max_by score_at
  best_candidate now penalty cands = max_by (compare_scores now penalty) (pool_of now penalty cands)
