-- ===== src/Speedtest/Control.antt =====
-- speedtest.rs, `SpeedTestControl`: the handle by which the dashboard wakes the loop.
use xboxproxy.Prelude.{ℕ, zero, suc, Bool, true, false, Option, none}
use xboxproxy.Text.{Text}

-- `notify` holds at most one permit. The code has no `asking`: it counts the calls of `trigger` that
-- have stored their URL and have not notified the loop yet.
pub record SpeedTestControl : Type 0 where
  pub notify : Bool
  pub running : Bool
  pub pending_url : Option Text
  pub asking : ℕ

abbrev pub new : SpeedTestControl
new = record { notify = false; running = false; pending_url = none; asking = 0 }

-- The two operations of `trigger`, between which other tasks run.
unfoldable pub store_url : SpeedTestControl → Option Text → SpeedTestControl
store_url c url = record c { pending_url = url; asking = suc c.asking }

abbrev one_less : ℕ → ℕ
one_less zero = zero
one_less (suc n) = n

unfoldable pub notify_one : SpeedTestControl → SpeedTestControl
notify_one c = record c { notify = true; asking = one_less c.asking }

unfoldable pub trigger : SpeedTestControl → Option Text → SpeedTestControl
unfolding store_url notify_one
trigger c url = notify_one (store_url c url)

unfoldable pub take_url : SpeedTestControl → Option Text × SpeedTestControl
take_url c = (c.pending_url, record c { pending_url = none })
