-- ===== src/System.antt =====
-- main.rs: the running program. The tasks that `main` starts share the state below, and a step is one
-- operation of one of them on it, in any order.
pub mod Operations
pub mod Parts
pub mod Invariant
pub mod Started
pub mod Attempts
pub mod Handlers
pub mod Requests
pub mod Shown
pub mod Idle
use xboxproxy.Prelude.{
  ℕ, suc, ◌<◌, ◌≡◌, Bool, true, false, List, [], ◌∷◌, ◌++◌, map, Option, none, some, ok, modify,
}
use mathlib.Core.Option
use xboxproxy.Text.{Text}
use xboxproxy.Net.{IpAddr}
use xboxproxy.Http.{Http}
use xboxproxy.Db.{RequestRecord, HasWords, SpeedTestRecord, DbCommand}
use xboxproxy.Db.Tables.{Database, Answers, Prepared, all_prepared, execute}
use xboxproxy.Selector.{
  Selector, HostStateInner, index_of, mark_failure, update_result, set_pinned_ip, write_pin,
  write_candidates,
}
use xboxproxy.Metrics.{
  MetricsStore, u64_mod, begin_request, drop_guard, record_request, record_speedtest,
}
use xboxproxy.Speedtest.{SpeedTestConfig}
use xboxproxy.Speedtest.Control.{SpeedTestControl, store_url, notify_one}
use xboxproxy.Speedtest.Loop.{Purpose, Phase, passing, after_pass, Loop, Move, set_running}
use xboxproxy.Dashboard.{started, wanted_url, run_speedtest}
use xboxproxy.Dashboard.Api.{AppState, PinGroupBody, wanted_ip}
use xboxproxy.Startup.{App, cleanup_at}

-- What the handlers share; where the task of the speed tests stands, if there is one; the guards
-- that handlers hold; the requests for a speed test that were let through and have not stored their URL
-- yet; the requests that have written the pin of a group and not its candidates yet; what SQLite
-- answered to the writer's preparation, once it did; the commands that the writer has executed, with SQLite's answers; and the
-- database.
pub record World (F : Type 0) : Type 0 where
  pub state : AppState F
  pub metrics : MetricsStore F
  pub task : Option Phase
  pub guards : ℕ
  pub asked : List (Option Text)
  pub pinning : List (ℕ × Option IpAddr)
  pub prepared : Option Prepared
  pub executed : List (Answers × DbCommand F)
  pub db : Database F

module _ {F : Type 0} where
  unfoldable pub launch : App F → World F
  launch app = record {
    state = app.state;
    metrics = app.metrics;
    task = Option.map (λ l. l.phase) app.speedtest_task;
    guards = 0;
    asked = [];
    pinning = [];
    prepared = none;
    executed = [];
    db = app.db;
  }

  abbrev pub with_selector : Selector F → World F → World F
  with_selector s w = record w { state = record w.state { selector = s } }

  abbrev pub with_metrics : MetricsStore F → World F → World F
  with_metrics m w = record w { metrics = m }

  abbrev pub with_control : SpeedTestControl → World F → World F
  with_control c w = record w { state = record w.state { speedtest = c } }

  abbrev pub with_guards : ℕ → MetricsStore F → World F → World F
  with_guards n m w = record w { guards = n; metrics = m }

  abbrev pub modify_host : ℕ → (HostStateInner F → HostStateInner F) → Selector F → Selector F
  modify_host i change s = record s { hosts = modify s.hosts i change }

  -- What the loop of the speed tests shares with the others.
  abbrev pub loop_of : World F → Phase → Loop F
  loop_of w phase = record {
    control = w.state.speedtest;
    pass = record { selector = w.state.selector; metrics = w.metrics };
    phase = phase;
  }

  abbrev pub with_task : SpeedTestControl → Phase → World F → World F
  with_task c phase w = record w { state = record w.state { speedtest = c }; task = some phase }

module _ (lib : Http) (cfg : SpeedTestConfig) {F : Type 0} where
  pub data Step (w : World F) : World F → Type 0 where
    -- The proxy's handler, and the bodies that it returned.
    begins :
        (now : ℕ)
        → suc w.guards < u64_mod
        → Step w (with_guards (suc w.guards) (begin_request w.metrics now) w)
    ends : (now n : ℕ) → w.guards ≡ suc n → Step w (with_guards n (drop_guard w.metrics now) w)
    marks :
        (now : ℕ) (host : Text) (ip : IpAddr)
        → Step w (with_selector (mark_failure w.state.selector now host ip) w)
    records :
        (r : RequestRecord F) → HasWords r → Step w (with_metrics (record_request w.metrics r) w)
    -- The dashboard.
    asks :
        (url : Option Text) (c : SpeedTestControl)
        → run_speedtest lib w.state.pinned w.state.selector w.state.speedtest url ≡ (started, c)
        → Step w (record w { asked = wanted_url url ∷ w.asked })
    stores_url :
        (before after : List (Option Text)) (url : Option Text)
        → w.asked ≡ before ++ url ∷ after
        → Step w
            (record (with_control (store_url w.state.speedtest url) w) { asked = before ++ after })
    notifies :
        (n : ℕ)
        → w.state.speedtest.asking ≡ suc n
        → Step w (with_control (notify_one w.state.speedtest) w)
    pins :
        (body : PinGroupBody) (ip : Option IpAddr) (i : ℕ) (s : Selector F)
        → wanted_ip body.ip ≡ ok ip
        → index_of w.state.selector body.name ≡ some i
        → set_pinned_ip w.state.selector body.name ip ≡ ok s
        → Step w (record (with_selector (modify_host i (write_pin ip) w.state.selector) w) {
          pinning = (i, ip) ∷ w.pinning;
        })
    resets :
        (before after : List (ℕ × Option IpAddr)) (i : ℕ) (ip : Option IpAddr)
        → w.pinning ≡ before ++ (i, ip) ∷ after
        → Step w (record (with_selector (modify_host i (write_candidates ip) w.state.selector) w) {
          pinning = before ++ after;
        })
    -- The task of the speed tests.
    moves :
        (phase : Phase) {l : Loop F}
        → w.task ≡ some phase
        → Move w.state.auto_speedtest (loop_of w phase) l
        → Step w (with_task l.control l.phase w)
    updates :
        (p : Purpose) (now : ℕ) (host : Text) (ip : IpAddr) (latency_ms : Option ℕ)
        (speed_kbps : Option F) (success : Bool)
        → w.task ≡ some (passing p)
        → Step w (
            with_selector
              (update_result w.state.selector now host ip latency_ms speed_kbps success)
              w)
    stores :
        (p : Purpose) (r : SpeedTestRecord F)
        → w.task ≡ some (passing p)
        → Step w (with_metrics (record_speedtest w.metrics r) w)
    finishes :
        (p : Purpose)
        → w.task ≡ some (passing p)
        → Step w (with_task (set_running false w.state.speedtest) (after_pass cfg p) w)
    -- The clean-up task, and the writer, which prepares its statements and then takes the next
    -- command.
    cleans :
        (now : ℕ)
        → Step w
            (with_metrics (record w.metrics { db_tx = w.metrics.db_tx ++ cleanup_at now ∷ [] }) w)
    prepares : (p : Prepared) → w.prepared ≡ none → Step w (record w { prepared = some p })
    writes :
        (p : Prepared) (a : Answers) (cmd : DbCommand F) (rest : List (DbCommand F))
        → w.prepared ≡ some p
        → all_prepared p ≡ true
        → w.metrics.db_tx ≡ map (λ c. c.1) w.executed ++ cmd ∷ rest
        → Step w (record w { executed = w.executed ++ (a, cmd) ∷ []; db = execute a cmd w.db })

  pub data Reach (w : World F) : World F → Type 0 where
    here : Reach w w
    next : {u v : World F} → Reach w u → Step u v → Reach w v
