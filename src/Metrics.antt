-- ===== src/Metrics.antt =====
-- metrics.rs: the counter of requests in flight, the time of the last activity, and the channel to
-- the writer thread, as the list of what was sent. Each reading of the clock is an argument, `now`.
pub mod Interleaving
use xboxproxy.Prelude.{ℕ, ◌+◌, ◌-◌, ◌%◌, ◌^◌, Bool, ◌||◌, List, [], ◌∷◌, ◌++◌, ltb, leb}
use xboxproxy.Db.{RequestRecord, SpeedTestRecord, DbCommand, insert_request, insert_speed_test}

pub record MetricsStore (F : Type 0) : Type 0 where
  pub db_tx : List (DbCommand F)
  pub active_requests : ℕ
  pub last_activity : ℕ

abbrev pub u64_mod : ℕ
u64_mod = 2 ^ 64

-- `fetch_add(1)` and `fetch_sub(1)` wrap around.
abbrev pub fetch_add_one : ℕ → ℕ
fetch_add_one n = (n + 1) % u64_mod

abbrev pub fetch_sub_one : ℕ → ℕ
fetch_sub_one n = (n + u64_mod - 1) % u64_mod

-- `is_busy` on the two values that it loads.
unfoldable pub busy_at : ℕ → ℕ → ℕ → ℕ → Bool
busy_at active last_activity now grace = ltb 0 active || ltb (now - last_activity) grace

module _ {F : Type 0} where
  unfoldable pub new : List (DbCommand F) → MetricsStore F
  new db_tx = record { db_tx = db_tx; active_requests = 0; last_activity = 0 }

  unfoldable pub begin_request : MetricsStore F → ℕ → MetricsStore F
  begin_request m now = record m {
    active_requests = fetch_add_one m.active_requests;
    last_activity = now;
  }

  -- `Drop for ActivityGuard`
  unfoldable pub drop_guard : MetricsStore F → ℕ → MetricsStore F
  drop_guard m now = record m {
    active_requests = fetch_sub_one m.active_requests;
    last_activity = now;
  }

  unfoldable pub is_busy : MetricsStore F → ℕ → ℕ → Bool
  unfolding busy_at
  is_busy m now grace = busy_at m.active_requests m.last_activity now grace

  unfoldable pub record_request : MetricsStore F → RequestRecord F → MetricsStore F
  record_request m rec = record m { db_tx = m.db_tx ++ insert_request rec ∷ [] }

  unfoldable pub record_speedtest : MetricsStore F → SpeedTestRecord F → MetricsStore F
  record_speedtest m rec = record m { db_tx = m.db_tx ++ insert_speed_test rec ∷ [] }
