-- ===== src/Speedtest/Pass.antt =====
-- speedtest.rs, `target_defs` and `run_pass`: which addresses a pass tests, and what it does with the
-- results. The `futures` crate is a parameter, and so is what other tasks do between the steps.
pub mod Coverage
pub mod Aborted
pub mod Steps
pub mod Shown
use xboxproxy.Prelude.{
  ℕ, suc, ◌≡◌, Bool, true, false, not, ◌&&◌, List, [], ◌∷◌, ◌++◌, map, Option, none, some, Result,
  ok, err, ltb, as_i64, if◌then◌else◌,
}
use mathlib.Core.List.{Perm}
use xboxproxy.Float.{Float}
use xboxproxy.Text.{Text}
use xboxproxy.Net.{IpAddr}
use xboxproxy.Http.{Http}
use xboxproxy.Hosts.{HostDef}
use xboxproxy.Db.{SpeedTestRecord}
use xboxproxy.Selector.{Selector, defs, def_for_host, update_result}
use xboxproxy.Metrics.{MetricsStore, is_busy, record_speedtest}
use xboxproxy.Speedtest.{SpeedTestConfig, activity_grace}
use xboxproxy.Speedtest.Measure.{MeasureResult, Answer, measure}

pub data TargetError : Type 0 where
  invalid_url no_host unmanaged_host : TargetError

-- One measurement to make.
pub record Task (lib : Http) : Type 0 where
  pub def : HostDef
  pub ip : IpAddr
  pub url : lib.Uri

pub record Pass (F : Type 0) : Type 0 where
  pub selector : Selector F
  pub metrics : MetricsStore F

abbrev pub concat : {A : Type 0} → List (List A) → List A
concat [] = []
concat (xs ∷ xss) = xs ++ concat xss

-- `chunks`, and the order in which `buffer_unordered` yields the results of wave `k`.
pub record Streams : Type 1 where
  pub chunks : {A : Type 0} → ℕ → List A → List (List A)
  pub completed : {A : Type 0} → ℕ → List A → List A

-- Nothing is lost, doubled or made up, and `chunks` keeps the order.
pub record IsStreams (streams : Streams) : Type 1 where
  pub concat-chunks : {A : Type 0} (n : ℕ) (xs : List A) → concat (streams.chunks n xs) ≡ xs
  pub completed-perm : {A : Type 0} (k : ℕ) (xs : List A) → Perm (streams.completed k xs) xs

-- What a pass meets: what other tasks do before the check of a wave and before each of its results is
-- stored, the clock at the check, at the update and for the record, and what each request leads to.
pub record PassEnv (lib : Http) (F : Type 0) : Type 0 where
  pub before_check : ℕ → Pass F → Pass F
  pub before_result : ℕ → ℕ → Pass F → Pass F
  pub checked_at : ℕ → ℕ
  pub updated_at : ℕ → ℕ → ℕ
  pub recorded_at : ℕ → ℕ → ℕ
  pub answer : ℕ → Task lib → Answer F
  pub print_ip : IpAddr → Text

module _ (lib : Http) where
  unfoldable pub target_defs :
      {F : Type 0} → Selector F → Option Text → Result TargetError (List HostDef × Option lib.Uri)
  target_defs s none = ok (defs s, none)
  target_defs s (some raw) = elim (lib.parse_uri raw) [
    | none ↦ err invalid_url
    | some uri ↦ elim (lib.uri_host uri) [
      | none ↦ err no_host
      | some host ↦ elim (def_for_host s host) [
        | none ↦ err unmanaged_host
        | some def ↦ ok (def ∷ [], some uri)
      ]
    ]
  ]

  task_url : Option lib.Uri → HostDef → Option lib.Uri
  task_url (some uri) def = some uri
  task_url none def = lib.parse_uri def.test_url

  -- A group whose URL is invalid is left out.
  unfoldable pub tasks_of : Option lib.Uri → List HostDef → List (Task lib)
  unfolding task_url
  tasks_of override_uri [] = []
  tasks_of override_uri (def ∷ defs) =
      let rest = tasks_of override_uri defs in
      elim (task_url override_uri def) [
        | none ↦ rest
        | some url ↦ map (λ ip. record { def = def; ip = ip; url = url }) def.ips ++ rest
      ]

module _ (lib : Http) (f : Float) (streams : Streams) (cfg : SpeedTestConfig)
    (env : PassEnv lib f.Carrier) (forced : Bool) where
  open f use {Carrier as F}

  abbrev pub record_of_result : ℕ → Task lib × MeasureResult F → SpeedTestRecord F
  record_of_result now (t, r) = record {
    ts = as_i64 now;
    host = t.def.name;
    ip = env.print_ip t.ip;
    latency_ms = r.latency_ms;
    speed_kbps = r.speed_kbps;
    success = r.success;
  }

  unfoldable pub store_result : ℕ → ℕ → Task lib × MeasureResult F → Pass F → Pass F
  store_result k j (t, r) pass = record {
    selector =
        update_result pass.selector (env.updated_at k j) t.def.name t.ip r.latency_ms r.speed_kbps
          r.success;
    metrics = record_speedtest pass.metrics (record_of_result (env.recorded_at k j) (t, r));
  }

  -- The results of wave `k`, from the one at `j` on.
  unfoldable pub store_results : ℕ → ℕ → List (Task lib × MeasureResult F) → Pass F → Pass F
  store_results k j [] pass = pass
  store_results k j (x ∷ xs) pass =
      store_results k (suc j) xs (store_result k j x (env.before_result k j pass))

  abbrev pub measured : ℕ → List (Task lib) → List (Task lib × MeasureResult F)
  measured k = map (λ t. (t, measure f cfg (env.answer k t)))

  -- The waves from wave `k` on.
  unfoldable pub run_waves : ℕ → List (List (Task lib)) → Pass F → Pass F
  run_waves k [] pass = pass
  run_waves k (wave ∷ waves) pass =
      let checked = env.before_check k pass in
      let rest =
        run_waves (suc k) waves
          (store_results k 0 (streams.completed k (measured k wave)) checked) in
      if not forced && is_busy checked.metrics (env.checked_at k) activity_grace
      then checked
      else rest

  unfoldable pub run_pass : Pass F → Option Text → Pass F
  run_pass pass url_override = elim (target_defs lib pass.selector url_override) [
    | err e ↦ pass
    | ok (defs, override_uri) ↦
        let n = if ltb cfg.max_concurrency 1 then 1 else cfg.max_concurrency in
        run_waves 0 (streams.chunks n (tasks_of lib override_uri defs)) pass
  ]
