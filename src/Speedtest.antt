-- ===== src/Speedtest.antt =====
-- speedtest.rs: the settings of speed tests.
pub mod Measure
pub mod Pass
pub mod Control
pub mod Loop
use xboxproxy.Prelude.{ℕ, ◌*◌, Bool, true, false, not, ◌||◌, Option, none, some, is_empty}
use xboxproxy.Text.{Text, codes, text_eq, trim, to_ascii_lowercase}

-- The times are in the units that their names tell.
pub record SpeedTestConfig : Type 0 where
  pub interval_sec : ℕ
  pub connect_timeout_ms : ℕ
  pub read_timeout_ms : ℕ
  pub test_chunk_bytes : ℕ
  pub warmup_passes : ℕ
  pub failure_penalty_sec : ℕ
  pub max_concurrency : ℕ
  pub busy_retry_sec : ℕ

abbrev pub default_config : SpeedTestConfig
default_config = record {
  interval_sec = 3600;
  connect_timeout_ms = 2000;
  read_timeout_ms = 10000;
  test_chunk_bytes = 10 * 1024 * 1024;
  warmup_passes = 1;
  failure_penalty_sec = 60;
  max_concurrency = 64;
  busy_retry_sec = 60;
}

-- `ACTIVITY_GRACE`, in seconds.
abbrev pub activity_grace : ℕ
activity_grace = 60

unfoldable pub parse_auto_speedtest : Option Text → Bool
unfolding trim to_ascii_lowercase text_eq
parse_auto_speedtest none = true
parse_auto_speedtest (some raw) =
    let v = to_ascii_lowercase (trim raw) in
    is_empty v
    || not (
        text_eq v (codes "0")
        || text_eq v (codes "false")
        || text_eq v (codes "no")
        || text_eq v (codes "off"))
