-- ===== src/Speedtest/Pass/Steps.antt =====
-- speedtest.rs, `run_pass`: what a pass does to the selector.
use xboxproxy.Prelude.{
  ℕ, suc, Bool, not, List, [], ◌∷◌, Option, Result-cases, Bool-cases, inl, inr, ◌&&◌,
}
use xboxproxy.Float.{Float}
use xboxproxy.Text.{Text}
use xboxproxy.Http.{Http}
use xboxproxy.Selector.{Selector}
use xboxproxy.Selector.Invariant.{Reach, next, updated}
use xboxproxy.Metrics.{MetricsStore, is_busy}
use xboxproxy.Speedtest.{SpeedTestConfig, activity_grace}
use xboxproxy.Speedtest.Measure.{MeasureResult}
use xboxproxy.Speedtest.Pass.{
  Task, Pass, Streams, PassEnv, target_defs, measured, store_result, store_results, run_waves,
  run_pass,
}

-- The other tasks change the selector by its own steps.
pub record IsStepping {lib : Http} {F : Type 0} (env : PassEnv lib F) (s : Selector F)
    : Type 0 where
  pub at_check : (k : ℕ) (p : Pass F) → Reach s p.selector → Reach s (env.before_check k p).selector
  pub at_result :
      (k j : ℕ) (p : Pass F) → Reach s p.selector → Reach s (env.before_result k j p).selector

module _ (lib : Http) (f : Float) (streams : Streams) (cfg : SpeedTestConfig)
    (env : PassEnv lib f.Carrier) (forced : Bool) where
  open f use {Carrier as F}

  module _ (s : Selector F) (steps : IsStepping env s) where
    results-Reach :
        (k j : ℕ) (xs : List (Task lib × MeasureResult F)) (pass : Pass F)
        → Reach s pass.selector
        → Reach s (store_results lib f streams cfg env forced k j xs pass).selector
    unfolding store_results store_result
    results-Reach k j [] pass r = r
    results-Reach k j ((t, m) ∷ xs) pass r = results-Reach k (suc j) xs _ (
        next (steps.at_result k j pass r)
          (updated _ (env.updated_at k j) t.def.name t.ip m.latency_ms m.speed_kbps m.success))

    waves-Reach :
        (k : ℕ) (waves : List (List (Task lib))) (pass : Pass F)
        → Reach s pass.selector
        → Reach s (run_waves lib f streams cfg env forced k waves pass).selector
    unfolding run_waves
    waves-Reach k [] pass r = r
    waves-Reach k (wave ∷ waves) pass r =
        let checked = env.before_check k pass in
        let here = steps.at_check k pass r in
        let rest = waves-Reach (suc k) waves _ (
          results-Reach k 0 (streams.completed k (measured lib f streams cfg env forced k wave))
            checked here) in
        elim (Bool-cases
          (not forced && is_busy checked.metrics (env.checked_at k) activity_grace)) [
            | inl b ↦ rw b here
            | inr b ↦ rw b rest
          ]

    -- If other tasks change the selector only by its own steps, then the selector after a pass,
    -- forced or not, aborted or not, is reached from the one before by such steps.
    run_pass-Reach :
        (m : MetricsStore F) (url_override : Option Text)
        → Reach s
            (run_pass lib f streams cfg env forced
              (record { selector = s; metrics = m })
              url_override).selector
    unfolding run_pass
    run_pass-Reach m url_override = elim (Result-cases (target_defs lib s url_override)) [
      | inl ((groups, uri), e) ↦ rw (e, run_pass) (waves-Reach 0 _ _ Reach.here)
      | inr (x, e) ↦ rw (e, run_pass) Reach.here
    ]
