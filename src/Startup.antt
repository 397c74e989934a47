-- ===== src/Startup.antt =====
-- main.rs: what the program starts with. The sockets, the threads and the runtime are not modelled.
pub mod Ready
pub mod Retention
use xboxproxy.Prelude.{
  ℕ, ◌*◌, ℤ, pos, as_i64, ◌-ℤ◌, Bool, true, false, ◌&&◌, not, Option, none, some, List, [], ◌∷◌,
  map, Result, ok, err, if◌then◌else◌,
}
use xboxproxy.Text.{Text}
use xboxproxy.Endpoints.{
  EndpointSpec, EnvVar, not_present, not_unicode, present, LoadError, LoadedEndpoints, load,
}
use xboxproxy.Selector.{Selector}
use xboxproxy.Selector as Selector
use xboxproxy.Metrics.{MetricsStore}
use xboxproxy.Metrics as Metrics
use xboxproxy.Db.{DbCommand, cleanup}
use xboxproxy.Db.Tables.{Database}
use xboxproxy.Db.Opening.{Opening}
use xboxproxy.Db.Opening as Opened
use xboxproxy.Speedtest.{default_config, parse_auto_speedtest}
use xboxproxy.Speedtest.Pass.{Pass}
use xboxproxy.Speedtest.Control.{SpeedTestControl}
use xboxproxy.Speedtest.Control as Control
use xboxproxy.Speedtest.Loop.{Loop}
use xboxproxy.Speedtest.Loop as Loop
use xboxproxy.Dashboard.Api.{AppState}

-- The endpoints cannot be loaded, or the database cannot be opened.
pub data StartError : Type 0 where
  not_loaded : LoadError → StartError
  no_database : StartError

-- The state that the handlers share, the task of the speed tests, if it is spawned, and the database
-- that the writer begins with.
pub record App (F : Type 0) : Type 0 where
  pub state : AppState F
  pub metrics : MetricsStore F
  pub connect_timeout_ms : ℕ
  pub speedtest_task : Option (Loop F)
  pub db : Database F

-- `auto_from_env`: a variable that is not Unicode counts as unset.
unfoldable pub auto_from_env : EnvVar → Bool
auto_from_env not_present = parse_auto_speedtest none
auto_from_env not_unicode = parse_auto_speedtest none
auto_from_env (present raw) = parse_auto_speedtest (some raw)

-- `retention_days`
abbrev pub retention_days : ℕ
retention_days = 7

abbrev pub cutoff_at : ℕ → ℤ
cutoff_at now = as_i64 now -ℤ pos (retention_days * 86400)

-- What the clean-up task sends, at the times of its ticks.
abbrev pub cleanup_at : {F : Type 0} → ℕ → DbCommand F
cleanup_at now = cleanup (cutoff_at now)

module _ {F : Type 0} where
  unfoldable pub app_of : LoadedEndpoints → Bool → Database F → App F
  app_of loaded auto_speedtest db =
      let selector = Selector.new loaded.hosts default_config.failure_penalty_sec in
      let metrics = Metrics.new [] in
      let control = Control.new in
      record {
        state = record {
          selector = selector;
          speedtest = control;
          pinned = loaded.pinned;
          auto_speedtest = auto_speedtest && not loaded.pinned;
        };
        metrics = metrics;
        connect_timeout_ms = default_config.connect_timeout_ms;
        speedtest_task =
            if loaded.pinned
            then none
            else some (
                Loop.start auto_speedtest control
                  (record { selector = selector; metrics = metrics }));
        db = db;
      }

  -- The endpoints, the variables of the two pins and of the automatic tests, and what `Db::start`
  -- meets.
  unfoldable pub main :
      List EndpointSpec → EnvVar → EnvVar → EnvVar → Opening F → Result StartError (App F)
  unfolding app_of auto_from_env
  main specs pin_cn1 pin_cn2 auto opening = elim (load specs pin_cn1 pin_cn2) [
    | err e ↦ err (not_loaded e)
    | ok loaded ↦ elim (Opened.start opening) [
      | none ↦ err no_database
      | some db ↦ ok (app_of loaded (auto_from_env auto) db)
    ]
  ]
