-- ===== src/Tests/Measuring.antt =====
-- Tests of speedtest.rs: a forced pass over the group.
use mathlib.Core.List.{append_assoc}
use mathlib.Core.List.Perm
use xboxproxy.Prelude.{
  ℕ, ℤ, pos, ◌+◌, ◌<◌, ◌≤◌, ◌≡◌, refl, ap, ◌∙◌, true, false, List, [], ◌∷◌, ◌++◌, map, none, some,
  leb, ltb, min, length, is_empty, Bool-cases, inl, inr, if◌then◌else◌, arith,
}
use xboxproxy.Float.Scaled.{scaled}
use xboxproxy.Text.{codes}
use xboxproxy.Http.Lists.{plain_http}
use xboxproxy.Selector.{defs}
use xboxproxy.Metrics.{MetricsStore, is_busy, busy_at}
use xboxproxy.Proxy.Recording.{throughput}
use xboxproxy.Speedtest.{SpeedTestConfig, activity_grace, default_config, parse_auto_speedtest}
use xboxproxy.Speedtest.Measure.{
  MeasureResult, total_size, chunk_of, range_of, Read, data_read, read_failed, responded, measure,
}
use xboxproxy.Speedtest.Measure.Bounds.{delivered, range_of-chunk_of, measure_responded}
use xboxproxy.Speedtest.Pass.{
  Task, record_of_result, store_result, Pass, concat, Streams, IsStreams, PassEnv, target_defs,
  tasks_of, run_pass,
}
use xboxproxy.Speedtest.Pass.Coverage.{IsSent, IsQuiet, key_of_task, run_pass-IsSent}
use xboxproxy.Speedtest.Pass.Aborted.{before_busy, run_pass-before_busy}
use xboxproxy.Speedtest.Pass.Shown.{store_result-recent_speedtests}
use xboxproxy.Db.{insert_speed_test}
use xboxproxy.Db.Tables.{init, execute}
use xboxproxy.Db.Queries.{recent_speedtests}
use xboxproxy.Tests.Data.{ip1, cdn, servers}

auto_off :
    (parse_auto_speedtest none ≡ true)
    × (parse_auto_speedtest (some (codes " OFF ")) ≡ false)
    × (parse_auto_speedtest (some (codes "")) ≡ true)
unfolding parse_auto_speedtest
auto_off = (refl, refl, refl)

range_of-chunk_of_example :
    (1 ≤ chunk_of default_config)
    × ((range_of (chunk_of default_config) 123456789).1 < total_size)
    × ((range_of (chunk_of default_config) 123456789).1 + 1
        ≡ (range_of (chunk_of default_config) 123456789).0 + chunk_of default_config)
range_of-chunk_of_example = range_of-chunk_of default_config 123456789

abbrev reads : List (ℕ × Read)
reads = (0, data_read 500) ∷ (900, data_read 700) ∷ (1200, read_failed) ∷ []

measure_responded_example :
    let result = measure scaled default_config (responded true 20 reads (pos 2)) in
    (result.success ≡ ltb 0 (delivered 10000 reads))
    × (result.latency_ms ≡ some 20)
    × (result.speed_kbps
        ≡ some (throughput scaled (min (delivered 10000 reads) (chunk_of default_config)) (pos 2)))
measure_responded_example = measure_responded scaled default_config 20 reads (pos 2)

-- Chunks as they fill up.
abbrev chunk_from : {A : Type 0} → ℕ → List A → List A → List (List A)
chunk_from n cur [] = if is_empty cur then [] else cur ∷ []
chunk_from n cur (x ∷ xs) =
    let full = chunk_from n [] xs in
    let more = chunk_from n (cur ++ x ∷ []) xs in
    if leb n (length (cur ++ x ∷ [])) then (cur ++ x ∷ []) ∷ full else more

concat-chunk_from :
    {A : Type 0} (n : ℕ) (cur xs : List A) → concat (chunk_from n cur xs) ≡ cur ++ xs
concat-chunk_from n [] [] = refl
concat-chunk_from n (c ∷ cur) [] = refl
concat-chunk_from n cur (x ∷ xs) = elim (Bool-cases (leb n (length (cur ++ x ∷ [])))) [
  | inl e ↦
      rw e
        (ap (λ l. (cur ++ x ∷ []) ++ l) (concat-chunk_from n [] xs) ∙ append_assoc cur (x ∷ []) xs)
  | inr e ↦ rw e (concat-chunk_from n (cur ++ x ∷ []) xs ∙ append_assoc cur (x ∷ []) xs)
]

abbrev pub in_order : Streams
in_order = record { chunks = λ n xs. chunk_from n [] xs; completed = λ k xs. xs }

in_order-IsStreams : IsStreams in_order
in_order-IsStreams = record {
  concat-chunks = λ n xs. concat-chunk_from n [] xs;
  completed-perm = λ k xs. Perm.refl xs;
}

abbrev pub env : PassEnv plain_http ℤ
env = record {
  before_check = λ k p. p;
  before_result = λ k j p. p;
  checked_at = λ k. 1000;
  updated_at = λ k j. 1001;
  recorded_at = λ k j. 1001;
  answer = λ k t. responded true 20 reads (pos 2);
  print_ip = λ ip. codes "an address";
}

env-IsQuiet : IsQuiet env
env-IsQuiet = record { at_check = λ k p. refl; at_result = λ k j p. refl }

abbrev store : MetricsStore ℤ
store = record { db_tx = []; active_requests = 1; last_activity = 990 }

abbrev pub pass : Pass ℤ
pass = record { selector = servers; metrics = store }

run_pass-IsSent_example :
    IsSent []
      (run_pass plain_http scaled in_order default_config env true pass none).metrics.db_tx
      (map
        (key_of_task plain_http scaled in_order default_config env true)
        (tasks_of plain_http none (cdn ∷ [])))
unfolding target_defs defs
run_pass-IsSent_example =
    run_pass-IsSent plain_http scaled in_order default_config env true pass none (cdn ∷ []) none
      refl in_order-IsStreams env-IsQuiet refl

-- A download begins before the second check, and the waves are of one test each.
abbrev interrupted : PassEnv plain_http ℤ
interrupted = record env {
  before_check =
      λ k p. record p { metrics = record p.metrics { active_requests = k; last_activity = 0 } };
}

interrupted-IsQuiet : IsQuiet interrupted
interrupted-IsQuiet = record { at_check = λ k p. refl; at_result = λ k j p. refl }

interrupted-IsBusyAt :
    (k : ℕ) (p : Pass ℤ)
    → is_busy (interrupted.before_check k p).metrics (interrupted.checked_at k) activity_grace
      ≡ ltb 0 k
unfolding is_busy busy_at
interrupted-IsBusyAt k p = elim (Bool-cases (ltb 0 k)) [ inl b ↦ rw b refl | inr b ↦ rw b refl ]

abbrev one_by_one : SpeedTestConfig
one_by_one = record default_config { max_concurrency = 1 }

run_pass-before_busy_example :
    IsSent []
      (run_pass plain_http scaled in_order one_by_one interrupted false pass none).metrics.db_tx
      (map (key_of_task plain_http scaled in_order one_by_one interrupted false) (
        concat
          (before_busy (λ k. ltb 0 k) 0 (chunk_from 1 [] (tasks_of plain_http none (cdn ∷ []))))))
unfolding target_defs defs
run_pass-before_busy_example =
    run_pass-before_busy plain_http scaled in_order one_by_one interrupted (λ k. ltb 0 k) pass none
      (cdn ∷ []) none interrupted-IsBusyAt in_order-IsStreams interrupted-IsQuiet refl

abbrev task : Task plain_http
task = record { def = cdn; ip = ip1; url = (codes "origin.example.cn", codes "/large") }

abbrev result : MeasureResult ℤ
result = measure scaled default_config (responded true 20 reads (pos 2))

store_result-recent_speedtests_example :
    let rec =
      record_of_result plain_http scaled in_order default_config env true 1001 (task, result) in
    ((store_result plain_http scaled in_order default_config env true 0 0
        (task, result)
        pass).metrics.db_tx
      ≡ [] ++ insert_speed_test rec ∷ [])
    × (recent_speedtests (pos 10) (execute (true, true) (insert_speed_test rec) init)
        ≡ rec ∷ recent_speedtests (pos 9) init)
unfolding measure
store_result-recent_speedtests_example =
    store_result-recent_speedtests plain_http scaled in_order default_config env true 0 0 9 true
      task result pass init (omega arith) (omega arith)
