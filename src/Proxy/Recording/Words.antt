-- ===== src/Proxy/Recording/Words.antt =====
-- proxy.rs: the numbers of a `RecordState` as words of the types that its struct declares.
use xboxproxy.Prelude.{◌<◌, ◌^◌, Bool, true, false, if◌then◌else◌, some, arith}
use xboxproxy.Float.{Float}
use xboxproxy.Text.{Text}
use xboxproxy.Metrics.{MetricsStore}
use xboxproxy.Db.{HasWords}
use xboxproxy.Proxy.Recording.{
  RecordState, Reading, Poll, chunk, failed, finished, pending, record_of, finalize, poll_next,
}

pub record AreWords {F : Type 0} (s : RecordState F) : Type 0 where
  pub status-lt : s.meta.status < 2 ^ 16
  pub bytes-lt : s.bytes < 2 ^ 64
  pub ttfb_ms-lt : s.meta.ttfb_ms < 2 ^ 64

module _ (f : Float) where
  open f use {Carrier as F}

  pub record_of-HasWords :
      (r : Reading F) (s : RecordState F) → AreWords s → HasWords (record_of f r s)
  unfolding record_of
  record_of-HasWords r s w = record {
    status-lt = w.status-lt;
    bytes-lt = w.bytes-lt;
    duration_ms-lt = omega arith;
    ttfb_ms-lt = w.ttfb_ms-lt;
  }

  finalize-AreWords :
      (b : Bool) (s : RecordState F) (m : MetricsStore F)
      → AreWords s
      → AreWords (if b then s else record s { recorded = true; metrics = m })
  finalize-AreWords true s m w = w
  finalize-AreWords false s m w = record {
    status-lt = w.status-lt;
    bytes-lt = w.bytes-lt;
    ttfb_ms-lt = w.ttfb_ms-lt;
  }

  pub with_error-AreWords :
      (s : RecordState F) (e : Text) → AreWords s → AreWords (record s { error = some e })
  with_error-AreWords s e w = record {
    status-lt = w.status-lt;
    bytes-lt = w.bytes-lt;
    ttfb_ms-lt = w.ttfb_ms-lt;
  }

  pub poll_next-AreWords :
      (r : Reading F) (p : Poll) (s : RecordState F) → AreWords s → AreWords (poll_next f r p s)
  unfolding poll_next finalize
  poll_next-AreWords r (chunk len) s w = record {
    status-lt = w.status-lt;
    bytes-lt = omega arith;
    ttfb_ms-lt = w.ttfb_ms-lt;
  }
  poll_next-AreWords r (failed e) s w = finalize-AreWords s.recorded _ _ (with_error-AreWords s e w)
  poll_next-AreWords r finished s w = finalize-AreWords s.recorded s _ w
  poll_next-AreWords r pending s w = w
