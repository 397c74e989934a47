-- ===== src/Speedtest/Loop.antt =====
-- speedtest.rs, `run_forever`: the loop that starts the passes, as the steps that it takes side by side
-- with the other tasks. Each wait, each check and each change of the control is a step of its own.
pub mod Waiting
pub mod Polls
pub mod Control
pub mod Counting
pub mod Busy
use xboxproxy.Prelude.{
  ℕ, zero, suc, ◌+◌, ◌≡◌, Bool, true, false, Option, none, some, ltb, if◌then◌else◌,
}
use xboxproxy.Float.{Float}
use xboxproxy.Http.{Http}
use xboxproxy.Text.{Text}
use xboxproxy.Metrics.{MetricsStore, is_busy}
use xboxproxy.Speedtest.{SpeedTestConfig, activity_grace}
use xboxproxy.Speedtest.Pass.{Pass, PassEnv, Streams, run_pass}
use xboxproxy.Speedtest.Control.{SpeedTestControl, new, store_url, notify_one, take_url}

-- What a pass is run for: a round of the warm-up, the interval, or a request with its URL.
pub data Purpose : Type 0 where
  warmup : ℕ → Purpose
  scheduled : Purpose
  manual : Option Text → Purpose

-- Where the loop stands: before a check of `wait_until_idle` and in the sleep after it, before and in
-- a pass, in the sleep after round `i` of the warm-up, in the `select!`, and before `take_url`.
pub data Phase : Type 0 where
  checking sleeping ready passing : Purpose → Phase
  between : ℕ → Phase
  selecting notified : Phase

-- The argument `forced` of `run_pass`, and the `url_override`.
abbrev pub is_forced : Purpose → Bool
is_forced (warmup i) = false
is_forced scheduled = false
is_forced (manual url) = true

abbrev pub url_override : Purpose → Option Text
url_override (warmup i) = none
url_override scheduled = none
url_override (manual url) = url

-- `warmup_passes.max(1)`
abbrev pub warmup_rounds : SpeedTestConfig → ℕ
warmup_rounds cfg = if ltb cfg.warmup_passes 1 then 1 else cfg.warmup_passes

-- What follows a pass.
unfoldable pub after_pass : SpeedTestConfig → Purpose → Phase
after_pass cfg (warmup i) = if ltb (i + 1) (warmup_rounds cfg) then between i else selecting
after_pass cfg scheduled = selecting
after_pass cfg (manual url) = selecting

abbrev pub start_phase : Bool → Phase
start_phase auto = if auto then checking (warmup 0) else selecting

pub record Loop (F : Type 0) : Type 0 where
  pub control : SpeedTestControl
  pub pass : Pass F
  pub phase : Phase

unfoldable pub start : {F : Type 0} → Bool → SpeedTestControl → Pass F → Loop F
start auto control pass = record { control = control; pass = pass; phase = start_phase auto }

-- `wait_until_idle`, on what the store is and what the clock shows at each poll from poll `k` on: the
-- poll that ends it. `none` is one that is still waiting when the fuel is spent.
unfoldable pub wait_until_idle : {F : Type 0} → (ℕ → MetricsStore F) → (ℕ → ℕ) → ℕ → ℕ → Option ℕ
wait_until_idle metrics clock zero k = none
wait_until_idle metrics clock (suc fuel) k =
    let later = wait_until_idle metrics clock fuel (suc k) in
    if is_busy (metrics k) (clock k) activity_grace then later else some k

abbrev pub set_running : Bool → SpeedTestControl → SpeedTestControl
set_running b c = record c { running = b }

-- The steps of the loop that leave the selector and the metrics as they are.
pub data Move (auto : Bool) {F : Type 0} (st : Loop F) : Loop F → Type 0 where
  find_busy :
      (p : Purpose) (now : ℕ)
      → st.phase ≡ checking p
      → is_busy st.pass.metrics now activity_grace ≡ true
      → Move auto st (record st { phase = sleeping p })
  find_idle :
      (p : Purpose) (now : ℕ)
      → st.phase ≡ checking p
      → is_busy st.pass.metrics now activity_grace ≡ false
      → Move auto st (record st { phase = ready p })
  wake : (p : Purpose) → st.phase ≡ sleeping p → Move auto st (record st { phase = checking p })
  begin :
      (p : Purpose)
      → st.phase ≡ ready p
      → Move auto st (record st { control = set_running true st.control; phase = passing p })
  next_round :
      (i : ℕ)
      → st.phase ≡ between i
      → Move auto st (record st { phase = checking (warmup (i + 1)) })
  due : st.phase ≡ selecting → auto ≡ true → Move auto st (record st { phase = checking scheduled })
  hear :
      st.phase ≡ selecting
      → st.control.notify ≡ true
      → Move auto st
          (record st { control = record st.control { notify = false }; phase = notified })
  take :
      st.phase ≡ notified
      → Move auto st (record st {
        control = (take_url st.control).1;
        phase = ready (manual (take_url st.control).0);
      })

module _ (lib : Http) (f : Float) (streams : Streams) (cfg : SpeedTestConfig) (auto : Bool) where
  open f use {Carrier as F}

  pub data Step (st : Loop F) : Loop F → Type 0 where
    -- What other tasks do to the selector and to the metrics, and the two operations of `trigger`
    -- for a request of the dashboard.
    outside : (pass : Pass F) → Step st (record st { pass = pass })
    ask : (url : Option Text) → Step st (record st { control = store_url st.control url })
    notify :
        (n : ℕ)
        → st.control.asking ≡ suc n
        → Step st (record st { control = notify_one st.control })
    moved : {st' : Loop F} → Move auto st st' → Step st st'
    finish :
        (p : Purpose) (env : PassEnv lib F)
        → st.phase ≡ passing p
        → Step st (record st {
          control = set_running false st.control;
          pass = run_pass lib f streams cfg env (is_forced p) st.pass (url_override p);
          phase = after_pass cfg p;
        })

  pub data Reach (st : Loop F) : Loop F → Type 0 where
    stay : Reach st st
    go : {st' st'' : Loop F} → Reach st st' → Step st' st'' → Reach st st''
