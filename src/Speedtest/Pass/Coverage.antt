-- ===== src/Speedtest/Pass/Coverage.antt =====
-- speedtest.rs, `run_pass`: which addresses a pass tests, and which records it sends.
use mathlib.Core.Path.{subst}
use mathlib.Core.List.{Perm, append_assoc, append-nil, map-append}
use mathlib.Core.List.Perm
use xboxproxy.Prelude.{
  arith, ℕ, suc, ◌≡◌, refl, sym, ap, ◌∙◌, Bool, true, false, not, List, [], ◌∷◌, ◌++◌, map, Option,
  ok, ltb, if◌then◌else◌, ◌&&◌,
}
use xboxproxy.Float.{Float}
use xboxproxy.Text.{Text}
use xboxproxy.Http.{Http}
use xboxproxy.Hosts.{HostDef}
use xboxproxy.Db.{SpeedTestRecord, DbCommand, insert_speed_test}
use xboxproxy.Metrics.{record_speedtest}
use xboxproxy.Speedtest.{SpeedTestConfig}
use xboxproxy.Speedtest.Measure.{MeasureResult}
use xboxproxy.Speedtest.Pass.{
  Task, Pass, concat, Streams, IsStreams, PassEnv, target_defs, tasks_of, measured, store_result,
  store_results, run_waves, run_pass, record_of_result,
}

-- The records that were sent between two states of the channel: one for each key.
abbrev pub key_of_record : {F : Type 0} → SpeedTestRecord F → Text × Text
key_of_record r = (r.host, r.ip)

module _ {F : Type 0} where
  abbrev pub IsSent : List (DbCommand F) → List (DbCommand F) → List (Text × Text) → Type 0
  IsSent before after keys =
      (recs : List (SpeedTestRecord F)) × (after ≡ before ++ map insert_speed_test recs)
      × Perm (map key_of_record recs) keys

  pub none-IsSent : (a : List (DbCommand F)) → IsSent a a []
  none-IsSent a = ([], sym (append-nil a), Perm.refl [])

  pub append-IsSent :
      (a b c : List (DbCommand F)) (ks ls : List (Text × Text))
      → IsSent a b ks
      → IsSent b c ls
      → IsSent a c (ks ++ ls)
  append-IsSent a b c ks ls (rs, e, p) (qs, d, q) = (
    rs ++ qs,
    d
        ∙ ap (λ l. l ++ map insert_speed_test qs) e
        ∙ append_assoc a (map insert_speed_test rs) (map insert_speed_test qs)
        ∙ ap (λ l. a ++ l) (sym (map-append insert_speed_test rs qs)),
    subst (λ l. Perm l (ks ++ ls)) (sym (map-append key_of_record rs qs)) (Perm.append p q),
  )

  perm-IsSent :
      (a b : List (DbCommand F)) (ks ls : List (Text × Text))
      → Perm ks ls
      → IsSent a b ks
      → IsSent a b ls
  perm-IsSent a b ks ls p (rs, e, q) = (rs, e, Perm.trans q p)

not_aborted : {A : Type 0} (b c : Bool) (x y : A) → b ≡ true → (if not b && c then x else y) ≡ y
not_aborted true c x y h = refl
not_aborted false c x y h = absurd (ground arith)

-- No other task sends a command.
pub record IsQuiet {lib : Http} {F : Type 0} (env : PassEnv lib F) : Type 0 where
  pub at_check : (k : ℕ) (p : Pass F) → (env.before_check k p).metrics.db_tx ≡ p.metrics.db_tx
  pub at_result : (k j : ℕ) (p : Pass F) → (env.before_result k j p).metrics.db_tx ≡ p.metrics.db_tx

module _ (lib : Http) (f : Float) (streams : Streams) (cfg : SpeedTestConfig)
    (env : PassEnv lib f.Carrier) (forced : Bool) where
  open f use {Carrier as F}

  abbrev pub key_of_task : Task lib → Text × Text
  key_of_task t = (t.def.name, env.print_ip t.ip)

  abbrev key_of_result : Task lib × MeasureResult F → Text × Text
  key_of_result (t, r) = key_of_task t

  result-IsSent :
      (k j : ℕ) (x : Task lib × MeasureResult F) (pass : Pass F)
      → IsQuiet env
      → IsSent pass.metrics.db_tx
          (store_result lib f streams cfg env forced k j x
            (env.before_result k j pass)).metrics.db_tx
          (key_of_result x ∷ [])
  unfolding store_result record_speedtest
  result-IsSent k j (t, r) pass quiet =
      let sent : List (DbCommand F) =
        insert_speed_test
          (record_of_result lib f streams cfg env forced (env.recorded_at k j) (t, r))
        ∷ [] in
      (
        record_of_result lib f streams cfg env forced (env.recorded_at k j) (t, r) ∷ [],
        ap (λ l. l ++ sent) (quiet.at_result k j pass),
        Perm.refl _,
      )

  results-IsSent :
      (k j : ℕ) (xs : List (Task lib × MeasureResult F)) (pass : Pass F)
      → IsQuiet env
      → IsSent pass.metrics.db_tx
          (store_results lib f streams cfg env forced k j xs pass).metrics.db_tx
          (map key_of_result xs)
  unfolding store_results
  results-IsSent k j [] pass quiet = none-IsSent pass.metrics.db_tx
  results-IsSent k j (x ∷ xs) pass quiet =
      append-IsSent _ _ _ (key_of_result x ∷ []) (map key_of_result xs)
        (result-IsSent k j x pass quiet) (results-IsSent k (suc j) xs _ quiet)

  map-measured :
      (k : ℕ) (wave : List (Task lib))
      → map key_of_result (measured lib f streams cfg env forced k wave) ≡ map key_of_task wave
  map-measured k [] = refl
  map-measured k (t ∷ wave) = ap (λ l. key_of_task t ∷ l) (map-measured k wave)

  pub wave-IsSent :
      (k : ℕ) (wave : List (Task lib)) (pass : Pass F)
      → IsStreams streams
      → IsQuiet env
      → IsSent pass.metrics.db_tx
          (store_results lib f streams cfg env forced k 0
            (streams.completed k (measured lib f streams cfg env forced k wave))
            pass).metrics.db_tx
          (map key_of_task wave)
  wave-IsSent k wave pass laws quiet =
      let ms = measured lib f streams cfg env forced k wave in
      perm-IsSent _ _ _ _
        (subst (λ l. Perm (map key_of_result (streams.completed k ms)) l) (map-measured k wave)
          (Perm.map key_of_result (laws.completed-perm k ms)))
        (results-IsSent k 0 (streams.completed k ms) pass quiet)

  wave_forced :
      (k : ℕ) (wave : List (Task lib)) (waves : List (List (Task lib))) (pass : Pass F)
      → forced ≡ true
      → run_waves lib f streams cfg env forced k (wave ∷ waves) pass
        ≡ run_waves lib f streams cfg env forced (suc k) waves (
            store_results lib f streams cfg env forced k 0
              (streams.completed k (measured lib f streams cfg env forced k wave))
              (env.before_check k pass))
  unfolding run_waves
  wave_forced k wave waves pass h = not_aborted forced _ _ _ h

  waves-IsSent :
      (k : ℕ) (waves : List (List (Task lib))) (pass : Pass F)
      → forced ≡ true
      → IsStreams streams
      → IsQuiet env
      → IsSent pass.metrics.db_tx
          (run_waves lib f streams cfg env forced k waves pass).metrics.db_tx
          (map key_of_task (concat waves))
  waves-IsSent k [] pass h laws quiet = unfold run_waves in none-IsSent pass.metrics.db_tx
  waves-IsSent k (wave ∷ waves) pass h laws quiet =
      let checked = env.before_check k pass in
      let one = wave-IsSent k wave checked laws quiet in
      let rest = waves-IsSent (suc k) waves _ h laws quiet in
      let (recs, e, p) =
        append-IsSent _ _ _ (map key_of_task wave) (map key_of_task (concat waves)) one rest in
      (
        recs,
        ap (λ q. q.metrics.db_tx) (wave_forced k wave waves pass h)
            ∙ e
            ∙ ap (λ l. l ++ map insert_speed_test recs) (quiet.at_check k pass),
        subst (Perm (map key_of_record recs)) (sym (map-append key_of_task wave (concat waves))) p,
      )

  -- If the waves of the `futures` crate lose and double nothing, no other task sends commands and
  -- the targets are found, then a forced pass sends, in some order, exactly one record for each
  -- address of each target group whose test URL parses, with the group's name and the address.
  pub run_pass-IsSent :
      (pass : Pass F) (url_override : Option Text) (groups : List HostDef)
      (override_uri : Option lib.Uri)
      → forced ≡ true
      → IsStreams streams
      → IsQuiet env
      → target_defs lib pass.selector url_override ≡ ok (groups, override_uri)
      → IsSent pass.metrics.db_tx
          (run_pass lib f streams cfg env forced pass url_override).metrics.db_tx
          (map key_of_task (tasks_of lib override_uri groups))
  unfolding run_pass
  run_pass-IsSent pass url_override groups override_uri h laws quiet e =
      let n = if ltb cfg.max_concurrency 1 then 1 else cfg.max_concurrency in
      let tasks = tasks_of lib override_uri groups in
      rw (e, run_pass)
        (subst
          (λ l.
            IsSent pass.metrics.db_tx
              (run_waves lib f streams cfg env forced 0 (streams.chunks n tasks) pass).metrics.db_tx
              (map key_of_task l))
          (laws.concat-chunks n tasks) (waves-IsSent 0 (streams.chunks n tasks) pass h laws quiet))
