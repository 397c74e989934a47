-- ===== src/Startup/Ready.antt =====
-- main.rs: the parts are ready to work together when the program has started.
use mathlib.Core.Path.{subst}
use mathlib.Core.Option.{none-ne-some, some-injective}
use xboxproxy.Hosts.{HostDef}
use xboxproxy.Prelude.{
  ◌≢◌, ◌&&◌, arith, ◌≡◌, refl, Bool, true, false, not, Option, some, is_some, List, ok, err≢ok,
  ok-injective, Result-cases, Option-cases, inl, inr,
}
use xboxproxy.Text.{Text}
use xboxproxy.Http.{Http}
use xboxproxy.Db.Tables.{Database}
use xboxproxy.Db.Opening.{Opening}
use xboxproxy.Db.Opening as Opened
use xboxproxy.Endpoints.{EndpointSpec, EnvVar, LoadedEndpoints, load}
use xboxproxy.Endpoints.Loading.{load-IsUsable}
use xboxproxy.Selector.{Selector}
use xboxproxy.Selector.Invariant.{IsValid, new-IsValid}
use xboxproxy.Speedtest.{default_config}
use xboxproxy.Speedtest.Control.{SpeedTestControl, new}
use xboxproxy.Speedtest.Loop.{Loop, start}
use xboxproxy.Speedtest.Loop.Control.{IsConsistent, start-IsConsistent}
use xboxproxy.Dashboard.{Reason, started, refused, run_speedtest}
use xboxproxy.Startup.{App, app_of, main, auto_from_env}

refused≢started : {reason : Reason} → refused reason ≢ started
refused≢started h = cc

not_auto : (b : Bool) → (b && false) ≢ true
not_auto b h = ground arith

module _ (lib : Http) {F : Type 0} where
  -- The selector is valid, and where the dashboard says that it started a speed test there is a task
  -- that hears it.
  pub record IsReady (loaded : LoadedEndpoints) (app : App F) : Type 0 where
    pub selector : IsValid loaded.hosts default_config.failure_penalty_sec app.state.selector
    pub task_spawned : is_some app.speedtest_task ≡ not loaded.pinned
    pub task :
        {l : Loop F}
        → app.speedtest_task ≡ some l
        → IsConsistent default_config l × (l.control ≡ app.state.speedtest)
    pub heard :
        (s : Selector F) (c : SpeedTestControl) (url : Option Text)
        → (run_speedtest lib app.state.pinned s c url).0 ≡ started
        → is_some app.speedtest_task ≡ true
    pub automatic : app.state.auto_speedtest ≡ true → is_some app.speedtest_task ≡ true

  app_of-IsReady :
      (specs : List EndpointSpec) (pin_cn1 pin_cn2 : EnvVar) (hosts : List HostDef)
      (is_pinned auto : Bool) (db : Database F)
      → load specs pin_cn1 pin_cn2 ≡ ok (record { hosts = hosts; pinned = is_pinned })
      → IsReady
          (record { hosts = hosts; pinned = is_pinned })
          (app_of (record { hosts = hosts; pinned = is_pinned }) auto db)
  unfolding app_of run_speedtest start
  app_of-IsReady specs pin_cn1 pin_cn2 hosts true auto db a = record {
    selector =
        new-IsValid F default_config.failure_penalty_sec hosts
          (load-IsUsable specs pin_cn1 pin_cn2 _ a).0;
    task_spawned = refl;
    task = λ h. absurd (none-ne-some _ h);
    heard = λ s c url h. absurd (refused≢started h);
    automatic = λ h. absurd (not_auto auto h);
  }
  app_of-IsReady specs pin_cn1 pin_cn2 hosts false auto db a = record {
    selector =
        new-IsValid F default_config.failure_penalty_sec hosts
          (load-IsUsable specs pin_cn1 pin_cn2 _ a).0;
    task_spawned = refl;
    task = λ h.
        subst (λ l. IsConsistent default_config l × (l.control ≡ new)) (some-injective _ _ h)
          (start-IsConsistent default_config auto _, refl);
    heard = λ s c url h. refl;
    automatic = λ h. refl;
  }

  -- If the program starts, the endpoints are loaded, the selector is valid for them with the
  -- default penalty, the task of the speed tests is spawned exactly if nothing is pinned, it starts
  -- in a consistent state with the control that the dashboard triggers, and whenever the dashboard,
  -- with the program's `pinned`, answers that it started a test, or the state says that tests are
  -- automatic, there is that task.
  pub main-IsReady :
      (specs : List EndpointSpec) (pin_cn1 pin_cn2 auto : EnvVar) (opening : Opening F)
      (app : App F)
      → main specs pin_cn1 pin_cn2 auto opening ≡ ok app
      → (loaded : LoadedEndpoints) × (load specs pin_cn1 pin_cn2 ≡ ok loaded) × IsReady loaded app
  unfolding main
  main-IsReady specs pin_cn1 pin_cn2 auto opening app e =
      elim (Result-cases (load specs pin_cn1 pin_cn2)) [
        | inr (x, a) ↦ absurd (err≢ok (rw (a, main) at e))
        | inl (loaded, a) ↦ elim (Option-cases (Opened.start opening)) [
          | inl b ↦ absurd (err≢ok (rw (a, main, b) at e))
          | inr (db, b) ↦
              let same = ok-injective (rw (a, main, b) at e) in
              (
                loaded,
                a,
                subst (IsReady loaded) same (
                    app_of-IsReady specs pin_cn1 pin_cn2 loaded.hosts loaded.pinned
                      (auto_from_env auto) db a),
              )
        ]
      ]
