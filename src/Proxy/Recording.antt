-- ===== src/Proxy/Recording.antt =====
-- proxy.rs: the record of a request, which is written once, when its body ends, fails or is dropped.
-- What the tasks share behind `Arc` and atomics is a value, passed through.
pub mod Once
pub mod Words
use xboxproxy.Prelude.{
  ℕ, ◌+◌, ◌%◌, ◌^◌, Bool, true, false, List, [], ◌∷◌, Option, none, some, Ordering, as_i64,
  if◌then◌else◌,
}
use xboxproxy.Float.{Float, is_gt, cmp_or_equal}
use xboxproxy.Text.{Text}
use xboxproxy.Db.{RequestRecord}
use xboxproxy.Metrics.{MetricsStore, record_request, u64_mod}

pub record RequestMeta : Type 0 where
  pub client_ip : Text
  pub host : Text
  pub path : Text
  pub method : Text
  pub status : ℕ
  pub upstream_ip : Option Text
  pub passthrough : Bool
  pub ttfb_ms : ℕ

pub record RecordState (F : Type 0) : Type 0 where
  pub metrics : MetricsStore F
  pub meta : RequestMeta
  pub bytes : ℕ
  pub recorded : Bool
  pub error : Option Text

-- What `finalize` reads of the clocks: `now_unix()`, and the time since the start in milliseconds and
-- in seconds.
pub record Reading (F : Type 0) : Type 0 where
  pub now : ℕ
  pub duration_ms : ℕ
  pub duration_secs : F

-- What the inner stream answers to a poll.
pub data Poll : Type 0 where
  chunk : ℕ → Poll
  failed : Text → Poll
  finished pending : Poll

module _ (f : Float) where
  open f use {Carrier as F, of_u64, mul, div}

  -- `bytes as f64 * 8.0 / 1024.0 / secs`, or 0 if no time has passed.
  unfoldable pub throughput : ℕ → F → F
  throughput bytes secs =
      if is_gt (cmp_or_equal f secs (of_u64 0))
      then div (div (mul (of_u64 bytes) (of_u64 8)) (of_u64 1024)) secs
      else of_u64 0

  unfoldable pub record_of : Reading F → RecordState F → RequestRecord F
  unfolding throughput
  record_of r state = record {
    ts = as_i64 r.now;
    client_ip = state.meta.client_ip;
    host = state.meta.host;
    path = state.meta.path;
    method = state.meta.method;
    status = state.meta.status;
    bytes = state.bytes;
    duration_ms = r.duration_ms % u64_mod;
    ttfb_ms = state.meta.ttfb_ms;
    throughput_kbps = throughput state.bytes r.duration_secs;
    upstream_ip = state.meta.upstream_ip;
    passthrough = state.meta.passthrough;
    error = state.error;
  }

  unfoldable pub finalize : Reading F → RecordState F → RecordState F
  unfolding record_request
  finalize r state = if state.recorded then state else record state {
    recorded = true;
    metrics = record_request state.metrics (record_of r state);
  }

  -- `CountingStream::poll_next`, on what the inner stream answers.
  unfoldable pub poll_next : Reading F → Poll → RecordState F → RecordState F
  unfolding finalize
  poll_next r (chunk len) state = record state { bytes = (state.bytes + len) % u64_mod }
  poll_next r (failed e) state = finalize r (record state { error = some e })
  poll_next r finished state = finalize r state
  poll_next r pending state = state

  -- The polls of a body, and the drop of the stream after them.
  unfoldable pub stream_body : List (Reading F × Poll) → Reading F → RecordState F → RecordState F
  unfolding poll_next
  stream_body [] dropped state = finalize dropped state
  stream_body ((r, p) ∷ polls) dropped state = stream_body polls dropped (poll_next r p state)
