-- ===== src/Speedtest/Pass/Shown.antt =====
-- speedtest.rs, metrics.rs, db.rs: the way of a result from a pass to the dashboard's list.
use xboxproxy.Prelude.{ℕ, suc, ◌<◌, ◌≡◌, refl, pos, Bool, true, [], ◌∷◌, ◌++◌}
use xboxproxy.Float.{Float}
use xboxproxy.Http.{Http}
use xboxproxy.Db.{insert_speed_test}
use xboxproxy.Db.Tables.{Database, execute}
use xboxproxy.Db.Queries.{recent_speedtests}
use xboxproxy.Db.Queries.Recent.{IsWord, recent_speedtests-execute}
use xboxproxy.Metrics.{record_speedtest}
use xboxproxy.Speedtest.{SpeedTestConfig}
use xboxproxy.Speedtest.Measure.{MeasureResult}
use xboxproxy.Speedtest.Pass.{Task, Pass, Streams, PassEnv, record_of_result, store_result}

module _ (lib : Http) (f : Float) (streams : Streams) (cfg : SpeedTestConfig)
    (env : PassEnv lib f.Carrier) (forced : Bool) where
  open f use {Carrier as F}

  -- If a result has no latency or one that fits 64 bits, storing it sends its record as the last
  -- command, and on any database, once that command is executed, the dashboard's list of the `n +
  -- 1` last speed tests, for `n` below 500, is that same record and then the list of the `n` last
  -- ones from before.
  pub store_result-recent_speedtests :
      (k j n : ℕ) (q : Bool) (t : Task lib) (r : MeasureResult F) (pass : Pass F) (db : Database F)
      → IsWord r.latency_ms
      → n < 500
      → let rec = record_of_result lib f streams cfg env forced (env.recorded_at k j) (t, r) in
        ((store_result lib f streams cfg env forced k j (t, r) pass).metrics.db_tx
          ≡ pass.metrics.db_tx ++ insert_speed_test rec ∷ [])
        × (recent_speedtests (pos (suc n)) (execute (true, q) (insert_speed_test rec) db)
            ≡ rec ∷ recent_speedtests (pos n) db)
  unfolding store_result record_speedtest
  store_result-recent_speedtests k j n q t r pass db w h = (
    refl,
    recent_speedtests-execute n q
        (record_of_result lib f streams cfg env forced (env.recorded_at k j) (t, r)) db h w,
  )
