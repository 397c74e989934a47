-- ===== src/Tests/Looping.antt =====
-- Tests of speedtest.rs: the loop, from a busy proxy to a manual pass.
use xboxproxy.Prelude.{
  ℕ, suc, ◌+◌, ◌*◌, ◌≤◌, ◌≡◌, refl, ℤ, true, false, [], Option, none, some, arith, if◌then◌else◌,
}
use xboxproxy.Float.Scaled.{scaled}
use xboxproxy.Text.{Text, codes}
use xboxproxy.Http.Lists.{plain_http}
use xboxproxy.Metrics.{MetricsStore, is_busy, busy_at}
use xboxproxy.Speedtest.{default_config, activity_grace}
use xboxproxy.Speedtest.Pass.{Pass, run_pass}
use xboxproxy.Speedtest.Control.{new, trigger, store_url, notify_one, take_url}
use xboxproxy.Speedtest.Loop.{
  warmup, manual, sleeping, ready, passing, notified, warmup_rounds, after_pass, Loop, start,
  wait_until_idle, Move, Step, Reach,
}
use xboxproxy.Speedtest.Loop.Waiting.{IsQuiet}
use xboxproxy.Speedtest.Loop.Polls.{wait_until_idle-Reach}
use xboxproxy.Speedtest.Loop.Control.{IsConsistent, Reach-IsConsistent}
use xboxproxy.Speedtest.Loop.Counting.{is_warmup, passes, passes-warmup_rounds}
use xboxproxy.Speedtest.Loop.Busy.{AllBusy, is_waiting, passes-AllBusy}
use xboxproxy.Tests.Measuring.{in_order, env, pass}

-- One request ends at 990, and nothing happens after it; the polls come each minute from 1000 on.
abbrev idle_store : MetricsStore ℤ
idle_store = record { db_tx = []; active_requests = 0; last_activity = 990 }

abbrev each_minute : ℕ → ℕ
each_minute k = 1000 + k * 60

idle_store-IsQuiet : IsQuiet (λ k. idle_store) each_minute 60 990 0
idle_store-IsQuiet = record {
  none_active = λ k h. refl;
  last_activity-le = λ k h. omega arith;
  le-clock = omega arith;
  clock-le = λ k. omega arith;
}

abbrev waiting : Loop ℤ
waiting = start true new pass

wait_until_idle-Reach_example :
    (n : ℕ) × (after : Loop ℤ) × (wait_until_idle (λ k. idle_store) each_minute (suc (0 + 1)) 0
      ≡ some n)
    × n ≤ 0 + 1
    × (is_busy idle_store (each_minute n) activity_grace ≡ false)
    × Reach plain_http scaled in_order default_config true waiting after
    × (after.phase ≡ ready (warmup 0))
    × (after.control ≡ waiting.control)
unfolding start
wait_until_idle-Reach_example =
    wait_until_idle-Reach plain_http scaled in_order default_config true (λ k. idle_store)
      each_minute (warmup 0) 60 990 0 1 waiting idle_store-IsQuiet (omega arith) refl

-- The passes of `pass` find a request in flight, as the store of it says.
abbrev idle_pass : Pass ℤ
idle_pass = record pass { metrics = idle_store }

abbrev wanted : Option Text
wanted = some (codes "http://cdn.example.com/large")

-- The loop of a program without automatic tests: a request, and its pass.
abbrev asked : Loop ℤ
asked = record (start false new pass) { control = trigger new wanted }

abbrev heard : Loop ℤ
heard = record asked { control = record asked.control { notify = false }; phase = notified }

abbrev taken : Loop ℤ
taken = record heard {
  control = (take_url heard.control).1;
  phase = ready (manual (take_url heard.control).0);
}

abbrev begun : Loop ℤ
begun = record taken {
  control = record taken.control { running = true };
  phase = passing (manual (take_url heard.control).0);
}

-- Without automatic tests: a request, and the start of its pass.
on_demand : Reach plain_http scaled in_order default_config false (start false new pass) begun
unfolding start trigger store_url notify_one take_url
on_demand =
    Reach.go
      (Reach.go
        (Reach.go (Reach.go (Reach.go Reach.stay (Step.ask wanted)) (Step.notify 0 refl))
          (Step.moved (Move.hear refl refl)))
        (Step.moved (Move.take refl)))
      (Step.moved (Move.begin (manual wanted) refl))

Reach-IsConsistent_example : IsConsistent default_config begun
Reach-IsConsistent_example =
    Reach-IsConsistent plain_http scaled in_order default_config false pass on_demand

-- With automatic tests: the only round of the warm-up begins after the wait.
abbrev warmed : Loop ℤ
warmed = record (start true new idle_pass) {
  control = record new { running = false };
  pass = run_pass plain_http scaled in_order default_config env false idle_pass none;
  phase = after_pass default_config (warmup 0);
}

warm_up : Reach plain_http scaled in_order default_config true (start true new idle_pass) warmed
unfolding start is_busy busy_at
warm_up =
    Reach.go
      (Reach.go
        (Reach.go
          (Reach.go (Reach.go Reach.stay (Step.moved (Move.find_busy (warmup 0) 1000 refl refl)))
            (Step.moved (Move.wake (warmup 0) refl)))
          (Step.moved (Move.find_idle (warmup 0) 1060 refl refl)))
        (Step.moved (Move.begin (warmup 0) refl)))
      (Step.finish (warmup 0) env refl)

passes-warmup_rounds_example :
    passes is_warmup warm_up ≡ (if true then warmup_rounds default_config else 0)
unfolding after_pass
passes-warmup_rounds_example = passes-warmup_rounds idle_pass warm_up refl

-- A request comes while the proxy is busy.
abbrev unheard : Loop ℤ
unheard = record (start true new pass) { control = trigger new wanted; phase = sleeping (warmup 0) }

postponed : Reach plain_http scaled in_order default_config true (start true new pass) unheard
unfolding start trigger store_url notify_one is_busy busy_at
postponed =
    Reach.go (Reach.go (Reach.go Reach.stay (Step.ask wanted)) (Step.notify 0 refl))
      (Step.moved (Move.find_busy (warmup 0) 1000 refl refl))

passes-AllBusy_example : (is_waiting unheard.phase ≡ true) × (passes (λ p. true) postponed ≡ 0)
unfolding start AllBusy postponed
passes-AllBusy_example = passes-AllBusy postponed (((tt, refl), refl), refl) refl
