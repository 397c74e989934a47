-- ===== src/Speedtest/Pass/Aborted.antt =====
-- speedtest.rs, `run_pass`: which addresses a pass tests that gives way to downloads.
use mathlib.Core.Path.{subst}
use mathlib.Core.List.{Perm, map-append}
use xboxproxy.Prelude.{
  ℕ, suc, ◌≡◌, sym, ap, ◌∙◌, Bool, false, List, [], ◌∷◌, ◌++◌, map, Option, ok, ltb, inl, inr,
  Bool-cases, if◌then◌else◌,
}
use xboxproxy.Float.{Float}
use xboxproxy.Text.{Text}
use xboxproxy.Http.{Http}
use xboxproxy.Hosts.{HostDef}
use xboxproxy.Db.{insert_speed_test}
use xboxproxy.Metrics.{is_busy}
use xboxproxy.Speedtest.{SpeedTestConfig, activity_grace}
use xboxproxy.Speedtest.Pass.{
  Task, Pass, concat, Streams, IsStreams, PassEnv, target_defs, tasks_of, run_waves, run_pass,
}
use xboxproxy.Speedtest.Pass.Coverage.{
  IsSent, IsQuiet, key_of_task, key_of_record, none-IsSent, append-IsSent, wave-IsSent,
}

-- The waves before the first check that finds the proxy busy, from check `k` on.
unfoldable pub before_busy : {A : Type 0} → (ℕ → Bool) → ℕ → List A → List A
before_busy busy k [] = []
before_busy busy k (w ∷ ws) =
    let rest = before_busy busy (suc k) ws in if busy k then [] else w ∷ rest

module _ (lib : Http) (f : Float) (streams : Streams) (cfg : SpeedTestConfig)
    (env : PassEnv lib f.Carrier) where
  open f use {Carrier as F}

  -- Whether the proxy is busy at a check is up to the other tasks.
  abbrev pub IsBusyAt : (ℕ → Bool) → Type 0
  IsBusyAt busy =
      (k : ℕ) (p : Pass F)
      → is_busy (env.before_check k p).metrics (env.checked_at k) activity_grace ≡ busy k

  unforced-IsSent :
      (busy : ℕ → Bool) (k : ℕ) (waves : List (List (Task lib))) (pass : Pass F)
      → IsBusyAt busy
      → IsStreams streams
      → IsQuiet env
      → IsSent pass.metrics.db_tx
          (run_waves lib f streams cfg env false k waves pass).metrics.db_tx
          (map (key_of_task lib f streams cfg env false) (concat (before_busy busy k waves)))
  unfolding run_waves before_busy
  unforced-IsSent busy k [] pass at laws quiet = none-IsSent pass.metrics.db_tx
  unforced-IsSent busy k (wave ∷ waves) pass at laws quiet =
      let key = key_of_task lib f streams cfg env false in
      let checked = env.before_check k pass in
      let one = wave-IsSent lib f streams cfg env false k wave checked laws quiet in
      let rest = unforced-IsSent busy (suc k) waves _ at laws quiet in
      elim (Bool-cases (busy k)) [
        | inl b ↦
            rw (at k pass, b)
              (subst (λ l. IsSent l checked.metrics.db_tx []) (quiet.at_check k pass)
                (none-IsSent checked.metrics.db_tx))
        | inr b ↦
            let (recs, e, p) =
              append-IsSent _ _ _ (map key wave) (map key (concat (before_busy busy (suc k) waves)))
                one rest in
            rw (at k pass, b)
              (
                recs,
                e ∙ ap (λ l. l ++ map insert_speed_test recs) (quiet.at_check k pass),
                subst (Perm (map key_of_record recs))
                    (sym (map-append key wave (concat (before_busy busy (suc k) waves)))) p,
              )
      ]

  -- If the waves of the `futures` crate lose and double nothing, no other task sends commands, the
  -- other tasks alone determine at which checks the proxy is busy, and the targets are found, then
  -- a pass that is not forced sends, in some order, exactly one record for each of the tests in the
  -- waves before the first check that finds the proxy busy, with the group's name and the address,
  -- and none for the others; the waves are the chunks of `max_concurrency`, but at least one, of
  -- the addresses of the target groups whose test URL parses.
  pub run_pass-before_busy :
      (busy : ℕ → Bool) (pass : Pass F) (url_override : Option Text) (groups : List HostDef)
      (override_uri : Option lib.Uri)
      → IsBusyAt busy
      → IsStreams streams
      → IsQuiet env
      → target_defs lib pass.selector url_override ≡ ok (groups, override_uri)
      → IsSent pass.metrics.db_tx
          (run_pass lib f streams cfg env false pass url_override).metrics.db_tx
          (map (key_of_task lib f streams cfg env false) (
            concat (
              before_busy busy 0 (
                streams.chunks
                  (if ltb cfg.max_concurrency 1 then 1 else cfg.max_concurrency)
                  (tasks_of lib override_uri groups)))))
  unfolding run_pass
  run_pass-before_busy busy pass url_override groups override_uri at laws quiet e =
      rw (e, run_pass) (unforced-IsSent busy 0 _ pass at laws quiet)
