-- ===== src/Tests/Running.antt =====
-- Tests of main.rs: the program starts, and a request comes while the first pass waits.
use xboxproxy.Prelude.{
  ℕ, zero, suc, Option, ok-injective, ◌≡◌, refl, ℤ, pos, true, false, List, [], ◌∷◌, ◌++◌, map,
  take, select, none, some, ok, arith,
}
use mathlib.Core.List.{reverse}
use mathlib.Core.Path.{subst}
use xboxproxy.Net.{IpAddr}
use xboxproxy.Proxy.Retry.{Reply}
use xboxproxy.Proxy.Retry.Words.{IsReply}
use xboxproxy.Text.{codes}
use xboxproxy.Float.Scaled.{scaled}
use xboxproxy.Http.Lists.{plain_http}
use xboxproxy.Db.{DbCommand, insert_request, HasWords}
use xboxproxy.Db.Tables.{Prepared, all_prepared, init, execute, writer_thread}
use xboxproxy.Db.Opening.{Opening}
use xboxproxy.Db.Opening as Opened
use xboxproxy.Db.Queries.{clamp_limit, recent_requests}
use xboxproxy.Db.Queries.Recent.{sent, is_since}
use xboxproxy.Endpoints.{not_present, LoadedEndpoints, load, load_bundled, load_spec, ipv4_from_env}
use xboxproxy.Metrics.{begin_request, record_request, is_busy, busy_at, new}
use xboxproxy.Speedtest.{parse_auto_speedtest, default_config}
use xboxproxy.Speedtest.Loop.{warmup, manual, checking, sleeping, passing, Move, start}
use xboxproxy.Startup.{App, app_of, main, auto_from_env}
use xboxproxy.System.{World, launch, with_metrics, with_guards, with_task, Step, Reach, here, next}
use xboxproxy.System.Invariant.{IsCoherent}
use xboxproxy.System.Started.{main-IsCoherent}
use xboxproxy.System.Idle.{IsHeld, task_waiting_for, IsHeld-task_waiting_for}
use xboxproxy.Speedtest.Control as Control
use xboxproxy.Proxy.Handler.{proxy_handler}
use xboxproxy.System.Attempts.{Run, Run-trans, IsMeanwhile}
use xboxproxy.System.Requests.{handled_world, body_dropped, proxy_handler-Run}
use xboxproxy.System.Shown.{
  answered, IsWriting, executed_in, recent_requests-Reach, writer_loop-Reach,
}
use xboxproxy.Tests.Proxying.{store, reading, polls, env, answers}
use xboxproxy.Tests.Proxying.{request as get_of}
use xboxproxy.Tests.Data.{cdn, client_host, servers}
use xboxproxy.Tests.Loading.{spec}
use xboxproxy.Tests.Storing.{request}

abbrev loaded : LoadedEndpoints
loaded = record { hosts = record cdn { name = codes "xbox-assets" } ∷ []; pinned = false }

abbrev new_file : Opening ℤ
new_file = record {
  dir_created = some true;
  opened = true;
  initialised = true;
  spawned = true;
  found = none;
}

abbrev app : App ℤ
app = app_of loaded true init

starts : main (spec ∷ []) not_present not_present not_present new_file ≡ ok app
unfolding main Opened.start load load_bundled load_spec ipv4_from_env auto_from_env
    parse_auto_speedtest
starts = refl

abbrev launched : World ℤ
launched = launch app

-- A request begins, the first check finds it, and it is recorded.
abbrev begun : World ℤ
begun = with_guards 1 (begin_request launched.metrics 1000) launched

abbrev slept : World ℤ
slept = with_task begun.state.speedtest (sleeping (warmup 0)) begun

abbrev all_four : Prepared
all_four = record { insert_req = true; insert_st = true; del_req = true; del_st = true }

abbrev recorded : World ℤ
recorded = with_metrics (record_request slept.metrics (request 100 200)) slept

-- The writer stores the record.
abbrev written : World ℤ
written = record recorded {
  prepared = some all_four;
  executed = ((true, true), insert_request (request 100 200)) ∷ [];
  db = execute (true, true) (insert_request (request 100 200)) init;
}

request-HasWords : HasWords (request 100 200)
request-HasWords = record {
  status-lt = omega arith;
  bytes-lt = omega arith;
  duration_ms-lt = omega arith;
  ttfb_ms-lt = omega arith;
}

begins : Reach plain_http default_config launched begun
unfolding launch
begins = next here (Step.begins 1000 (omega arith))

goes_on : Reach plain_http default_config begun recorded
unfolding launch app_of start is_busy busy_at begin_request new
goes_on =
    next
      (next here (Step.moves (checking (warmup 0)) refl (Move.find_busy (warmup 0) 1010 refl refl)))
      (Step.records (request 100 200) request-HasWords)

stores : Reach plain_http default_config launched written
unfolding launch app_of start is_busy busy_at begin_request new record_request
stores =
    next
      (next (Run-trans plain_http scaled default_config begins goes_on)
        (Step.prepares all_four refl))
      (Step.writes all_four (true, true) (insert_request (request 100 200)) [] refl
        (unfold all_prepared in refl) refl)

goes_on-IsHeld : IsHeld plain_http default_config goes_on
unfolding IsHeld goes_on
goes_on-IsHeld = ((tt, (0, refl)), (0, refl))

IsHeld-task_waiting_for_example : task_waiting_for recorded.task ≡ some (warmup 0)
unfolding launch app_of start
IsHeld-task_waiting_for_example =
    IsHeld-task_waiting_for plain_http (spec ∷ []) not_present not_present not_present new_file app
      begun recorded (warmup 0) goes_on starts begins goes_on-IsHeld refl

main-IsCoherent_example :
    (l : LoadedEndpoints) × (load (spec ∷ []) not_present not_present ≡ ok l)
    × (Opened.start new_file ≡ some app.db)
    × IsCoherent l default_config init written
unfolding app_of
main-IsCoherent_example =
    main-IsCoherent plain_http (spec ∷ []) not_present not_present not_present new_file app written
      starts stores

recent_requests-Reach_example :
    (recent_requests (pos 10) none written.db
      ≡ take
          (clamp_limit (pos 10))
          (reverse (select (λ r. is_since none r.ts) (sent written.executed))))
    × ((waiting : List (DbCommand ℤ)) × (written.metrics.db_tx
          ≡ map (λ c. c.1) written.executed ++ waiting))
recent_requests-Reach_example =
    recent_requests-Reach plain_http (spec ∷ []) not_present not_present not_present new_file app
      written (pos 10) none starts stores refl

-- The writer prepares its statements, and takes the record that waits.
abbrev ready : World ℤ
ready = record recorded { prepared = some all_four }

gets_ready : Reach plain_http default_config launched ready
unfolding launch app_of start
gets_ready =
    next (Run-trans plain_http scaled default_config begins goes_on) (Step.prepares all_four refl)

writer_loop-Reach_example :
    (waiting : List (DbCommand ℤ)) × (ready.metrics.db_tx
      ≡ map (λ c. c.1) ready.executed ++ waiting)
    × ((r : Reach plain_http default_config ready
          (executed_in plain_http (answered plain_http (λ k. (true, false)) waiting) ready))
        × IsWriting plain_http default_config r)
    × (writer_thread all_four
          (ready.executed ++ answered plain_http (λ k. (true, false)) waiting)
          init
        ≡ some (executed_in plain_http (answered plain_http (λ k. (true, false)) waiting) ready).db)
unfolding app_of
writer_loop-Reach_example =
    writer_loop-Reach plain_http (spec ∷ []) not_present not_present not_present new_file app ready
      all_four (λ k. (true, false)) starts gets_ready refl (unfold all_prepared in refl)

-- A program with one group, before a request of the proxy, and in a forced pass.
abbrev world : World ℤ
world = record {
  state = record {
    selector = servers;
    speedtest = Control.new;
    pinned = false;
    auto_speedtest = true;
  };
  metrics = store;
  task = some (passing (manual none));
  guards = 0;
  asked = [];
  pinning = [];
  prepared = none;
  executed = [];
  db = init;
}

turns-IsMeanwhile : IsMeanwhile plain_http scaled default_config env.turns
turns-IsMeanwhile j w = here

answers-AreReplies : (j : ℕ) (ip : Option IpAddr) (r : Reply) → answers j ip ≡ ok r → IsReply r
answers-AreReplies zero ip r e = absurd cc
answers-AreReplies (suc j) ip r e =
    subst IsReply (ok-injective e) (record { status-lt = omega arith; ttfb_ms-lt = omega arith })

proxy_handler-Run_example :
    let h = proxy_handler plain_http scaled env servers store (get_of client_host) in
    Run plain_http scaled default_config world
      (handled_world plain_http scaled default_config h world)
    × Run plain_http scaled default_config
        (handled_world plain_http scaled default_config h world)
        (with_metrics
          (body_dropped plain_http scaled default_config polls reading h.metrics h.response.body)
          (handled_world plain_http scaled default_config h world))
proxy_handler-Run_example =
    proxy_handler-Run plain_http scaled default_config env turns-IsMeanwhile answers-AreReplies
      (get_of client_host) world (omega arith) polls reading
