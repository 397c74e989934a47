-- ===== src/Speedtest/Loop/Waiting.antt =====
-- speedtest.rs, `wait_until_idle`: the wait ends.
use mathlib.Core.Path.{subst}
use xboxproxy.Prelude.{
  sym, ℕ, zero, suc, ◌+◌, ◌*◌, ◌≤◌, ◌≡◌, refl, Bool, false, some, Bool-cases, inl, inr, arith,
}
use xboxproxy.Metrics.{MetricsStore, is_busy, busy_at}
use xboxproxy.Speedtest.{activity_grace}
use xboxproxy.Speedtest.Loop.{wait_until_idle}

module _ {F : Type 0} (metrics : ℕ → MetricsStore F) (clock : ℕ → ℕ) where
  -- From poll `q` on no request is in flight and none has begun or ended since `t`, and the sleeps last.
  pub record IsQuiet (retry t q : ℕ) : Type 0 where
    pub none_active : (k : ℕ) → q ≤ k → (metrics k).active_requests ≡ 0
    pub last_activity-le : (k : ℕ) → q ≤ k → (metrics k).last_activity ≤ t
    pub le-clock : t ≤ clock q
    pub clock-le : (k : ℕ) → clock k + retry ≤ clock (suc k)

  abbrev busy : ℕ → Bool
  busy k = is_busy (metrics k) (clock k) activity_grace

  clock-lower :
      (retry t q : ℕ) → IsQuiet retry t q → (j K : ℕ) → q + j ≡ K → t + j * retry ≤ clock K
  clock-lower retry t q quiet zero K e =
      subst (λ x. t + 0 * retry ≤ clock x) (omega (arith, e)) (le_of (clock q) quiet.le-clock)
    where
      le_of : (c : ℕ) → t ≤ c → t + 0 * retry ≤ c
      le_of c h = omega arith
  clock-lower retry t q quiet (suc j) zero e = absurd (omega (arith, e))
  clock-lower retry t q quiet (suc j) (suc K) e =
      one_more (clock K) (clock (suc K)) (clock-lower retry t q quiet j K (omega (arith, e)))
        (quiet.clock-le K)
    where
      one_more : (c c' : ℕ) → t + j * retry ≤ c → c + retry ≤ c' → t + suc j * retry ≤ c'
      one_more c c' h h' = grind arith

  wait_ends :
      (d k K : ℕ)
      → k + d ≡ K
      → busy K ≡ false
      → (n : ℕ) × (wait_until_idle metrics clock (suc d) k ≡ some n) × n ≤ K × (busy n ≡ false)
  unfolding wait_until_idle
  wait_ends zero k K e h =
      let idle : busy k ≡ false = subst (λ x. busy x ≡ false) (sym (omega (arith, e))) h in
      (k, rw idle refl, omega (arith, e), idle)
  wait_ends (suc d) k K e h = elim (Bool-cases (busy k)) [
    | inr idle ↦ (k, rw idle refl, omega (arith, e), idle)
    | inl b ↦ let (n, w, l, i) = wait_ends d (suc k) K (omega (arith, e)) h in (n, rw b w, l, i)
  ]

  idle_store :
      (retry t m : ℕ) (store : MetricsStore F) (now : ℕ)
      → activity_grace ≤ m * retry
      → store.active_requests ≡ 0
      → store.last_activity ≤ t
      → t + m * retry ≤ now
      → is_busy store now activity_grace ≡ false
  unfolding is_busy busy_at
  idle_store retry t m store now h e l g = ground arith

  -- If from some poll `q` on no request is in flight and none has begun or ended since a time
  -- before that poll, and each sleep lasts at least `retry` seconds, where `m` sleeps make up the
  -- grace period, then `wait_until_idle` ends at the latest with poll `q + m`, and at the poll that
  -- ends it the store is not busy.
  pub wait_until_idle-idle :
      (retry t q m : ℕ)
      → IsQuiet retry t q
      → activity_grace ≤ m * retry
      → (n : ℕ) × (wait_until_idle metrics clock (suc (q + m)) 0 ≡ some n)
        × n ≤ q + m
        × (is_busy (metrics n) (clock n) activity_grace ≡ false)
  wait_until_idle-idle retry t q m quiet h = wait_ends (q + m) 0 (q + m) (omega arith) (
      idle_store retry t m _ _ h (quiet.none_active _ (omega arith))
        (quiet.last_activity-le _ (omega arith)) (clock-lower retry t q quiet m _ refl))
