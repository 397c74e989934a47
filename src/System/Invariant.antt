-- ===== src/System/Invariant.antt =====
-- main.rs: what holds of the running program in every order of its tasks' steps.
use xboxproxy.Prelude.{ℕ, Bool, Option, ◌≡◌, refl, false, none, arith}
use xboxproxy.Http.{Http}
use xboxproxy.Endpoints.{LoadedEndpoints}
use xboxproxy.Db.Tables.{Database}
use xboxproxy.Selector.{mark_failure, update_result}
use xboxproxy.Selector.Interleaving.{
  IsLive, update_result-IsLive, write_pin-IsLive, write_candidates-IsLive,
}
use xboxproxy.Dashboard.{wanted_url}
use xboxproxy.Text.{Text}
use xboxproxy.Net.{IpAddr}
use xboxproxy.Metrics.{begin_request, drop_guard, record_request, record_speedtest}
use xboxproxy.Speedtest.{SpeedTestConfig}
use xboxproxy.Speedtest.Loop.{passing}
use xboxproxy.Speedtest.Loop.Control.{Move-IsConsistent, finish-IsConsistent}
use xboxproxy.System.{World, loop_of, Step, Reach}
use xboxproxy.System.Operations.{run_speedtest-unpinned}
use xboxproxy.System.Parts.{
  IsCounted, IsWritten, IsAttended, sent-IsWritten, executed-IsWritten, task-IsAttended,
  asked-IsAttended, store_url-IsAttended, notify_one-IsAttended,
}

module _ {F : Type 0} (loaded : LoadedEndpoints) (cfg : SpeedTestConfig) (db0 : Database F) where
  -- All of it together.
  pub record IsCoherent (w : World F) : Type 0 where
    pub selector : IsLive loaded.hosts cfg.failure_penalty_sec w.state.selector
    pub same_pin : w.state.pinned ≡ loaded.pinned
    pub guards : IsCounted w.metrics.active_requests w.guards
    pub task : IsAttended cfg F w.state.pinned w.state.speedtest w.asked w.task
    pub writer : IsWritten db0 w.metrics.db_tx w.executed w.db

  changed :
      {w : World F}
      → IsCoherent w
      → (now : ℕ) (host : Text) (ip : IpAddr) (latency_ms : Option ℕ) (speed_kbps : Option F)
        (success : Bool)
      → IsLive loaded.hosts cfg.failure_penalty_sec
          (update_result w.state.selector now host ip latency_ms speed_kbps success)
  changed {w} i now host ip latency_ms speed_kbps success =
      update_result-IsLive loaded.hosts cfg.failure_penalty_sec w.state.selector i.selector now host
        ip latency_ms speed_kbps success

  module _ (lib : Http) where
    Step-IsCoherent : {w v : World F} → Step lib cfg w v → IsCoherent w → IsCoherent v
    unfolding record_request record_speedtest mark_failure begin_request drop_guard
    Step-IsCoherent {w} (Step.begins now few) i = record {
      selector = i.selector;
      same_pin = i.same_pin;
      guards = record { counted = omega (arith, i.guards.counted); few = few };
      task = i.task;
      writer = i.writer;
    }
    Step-IsCoherent {w} (Step.ends now n e) i = record {
      selector = i.selector;
      same_pin = i.same_pin;
      guards = record {
        counted = omega (arith, i.guards.counted, i.guards.few);
        few = omega (arith, i.guards.few);
      };
      task = i.task;
      writer = i.writer;
    }
    Step-IsCoherent {w} (Step.marks now host ip) i = record {
      selector = changed i now host ip none none false;
      same_pin = i.same_pin;
      guards = i.guards;
      task = i.task;
      writer = i.writer;
    }
    Step-IsCoherent {w} (Step.records r words) i = record {
      selector = i.selector;
      same_pin = i.same_pin;
      guards = i.guards;
      task = i.task;
      writer = sent-IsWritten db0 _ _ _ i.writer _ words;
    }
    Step-IsCoherent {w} (Step.asks url c e) i = record {
      selector = i.selector;
      same_pin = i.same_pin;
      guards = i.guards;
      task =
          asked-IsAttended cfg F _ _ _ _ i.task (wanted_url url)
            (run_speedtest-unpinned lib _ _ c w.state.pinned url e);
      writer = i.writer;
    }
    Step-IsCoherent {w} (Step.stores_url before after url e) i = record {
      selector = i.selector;
      same_pin = i.same_pin;
      guards = i.guards;
      task = store_url-IsAttended cfg F _ _ _ _ i.task before after url e;
      writer = i.writer;
    }
    Step-IsCoherent {w} (Step.notifies n e) i = record {
      selector = i.selector;
      same_pin = i.same_pin;
      guards = i.guards;
      task = notify_one-IsAttended cfg F _ _ _ _ i.task n e;
      writer = i.writer;
    }
    Step-IsCoherent {w} (Step.pins body ip k s a b c) i = record {
      selector = write_pin-IsLive loaded.hosts cfg.failure_penalty_sec _ i.selector k ip;
      same_pin = i.same_pin;
      guards = i.guards;
      task = i.task;
      writer = i.writer;
    }
    Step-IsCoherent {w} (Step.resets before after k ip e) i = record {
      selector = write_candidates-IsLive loaded.hosts cfg.failure_penalty_sec _ i.selector k ip;
      same_pin = i.same_pin;
      guards = i.guards;
      task = i.task;
      writer = i.writer;
    }
    Step-IsCoherent {w} (Step.moves phase {l} e m) i = record {
      selector = i.selector;
      same_pin = i.same_pin;
      guards = i.guards;
      task =
          task-IsAttended cfg F _ _ _ _ i.task phase l e
            (Move-IsConsistent cfg m (i.task.consistent phase e _));
      writer = i.writer;
    }
    Step-IsCoherent {w} (Step.updates p now host ip latency_ms speed_kbps success e) i = record {
      selector = changed i now host ip latency_ms speed_kbps success;
      same_pin = i.same_pin;
      guards = i.guards;
      task = i.task;
      writer = i.writer;
    }
    Step-IsCoherent {w} (Step.stores p r e) i = record {
      selector = i.selector;
      same_pin = i.same_pin;
      guards = i.guards;
      task = i.task;
      writer = sent-IsWritten db0 _ _ _ i.writer _ tt;
    }
    Step-IsCoherent {w} (Step.finishes p e) i = record {
      selector = i.selector;
      same_pin = i.same_pin;
      guards = i.guards;
      task = task-IsAttended cfg F _ _ _ _ i.task (passing p) _ e (
          finish-IsConsistent cfg (loop_of w (passing p)) p (loop_of w (passing p)).pass refl
            (i.task.consistent (passing p) e _));
      writer = i.writer;
    }
    Step-IsCoherent {w} (Step.cleans now) i = record {
      selector = i.selector;
      same_pin = i.same_pin;
      guards = i.guards;
      task = i.task;
      writer = sent-IsWritten db0 _ _ _ i.writer _ tt;
    }
    Step-IsCoherent {w} (Step.prepares p e) i = record {
      selector = i.selector;
      same_pin = i.same_pin;
      guards = i.guards;
      task = i.task;
      writer = i.writer;
    }
    Step-IsCoherent {w} (Step.writes p a cmd rest r q e) i = record {
      selector = i.selector;
      same_pin = i.same_pin;
      guards = i.guards;
      task = i.task;
      writer = executed-IsWritten db0 _ _ _ i.writer cmd a rest e;
    }

    pub Reach-IsCoherent : {w v : World F} → IsCoherent w → Reach lib cfg w v → IsCoherent v
    Reach-IsCoherent i Reach.here = i
    Reach-IsCoherent i (Reach.next r s) = Step-IsCoherent s (Reach-IsCoherent i r)
