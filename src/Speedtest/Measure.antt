-- ===== src/Speedtest/Measure.antt =====
-- speedtest.rs, `measure`: the part of the file that is asked for, and the result of one address.
pub mod Bounds
use xboxproxy.Prelude.{
  ℕ, ◌+◌, ◌-◌, ◌*◌, ◌%◌, Bool, true, false, List, [], ◌∷◌, Option, none, some, ltb, leb, min, ◌==◌,
  if◌then◌else◌,
}
use xboxproxy.Float.{Float}
use xboxproxy.Metrics.{u64_mod}
use xboxproxy.Proxy.Recording.{throughput}
use xboxproxy.Speedtest.{SpeedTestConfig}

pub record MeasureResult (F : Type 0) : Type 0 where
  pub latency_ms : Option ℕ
  pub speed_kbps : Option F
  pub success : Bool

abbrev pub total_size : ℕ
total_size = 30 * 1024 * 1024

-- `cfg.test_chunk_bytes.clamp(1, total_size)`
unfoldable pub chunk_of : SpeedTestConfig → ℕ
chunk_of cfg =
    if ltb cfg.test_chunk_bytes 1
    then 1
    else if ltb total_size cfg.test_chunk_bytes
    then total_size
    else cfg.test_chunk_bytes

-- The first and the last byte of the range, with the random number that is drawn.
unfoldable pub range_of : ℕ → ℕ → ℕ × ℕ
range_of chunk random =
    let max_start = total_size - chunk in
    let range_from = if max_start == 0 then 0 else random % (max_start + 1) in
    (range_from, range_from + chunk - 1)

-- What a read of the body gives before its timeout, or the timeout.
pub data Read : Type 0 where
  data_read : ℕ → Read
  read_failed body_ended timed_out : Read

-- The loop over the body: each round has the milliseconds since its start. After the last read the
-- body has ended.
unfoldable pub read_body : ℕ → ℕ → List (ℕ × Read) → ℕ → ℕ
read_body chunk timeout [] bytes = bytes
read_body chunk timeout ((elapsed, data_read len) ∷ reads) bytes =
    let rest = read_body chunk timeout reads (min (min (bytes + len) (u64_mod - 1)) chunk) in
    if leb chunk bytes then bytes else if leb timeout elapsed then bytes else rest
read_body chunk timeout ((elapsed, read_failed) ∷ reads) bytes = bytes
read_body chunk timeout ((elapsed, body_ended) ∷ reads) bytes = bytes
read_body chunk timeout ((elapsed, timed_out) ∷ reads) bytes = bytes

-- What comes of the request: no headers in time, an error, or a response, with the time to its
-- headers, its body and the seconds that reading it took.
pub data Answer (F : Type 0) : Type 0 where
  headers_timed_out request_failed : Answer F
  responded : (is_success : Bool) (latency_ms : ℕ) → List (ℕ × Read) → F → Answer F

module _ (f : Float) where
  open f use {Carrier as F}

  unfoldable pub measure : SpeedTestConfig → Answer F → MeasureResult F
  unfolding throughput chunk_of read_body
  measure cfg headers_timed_out = record { latency_ms = none; speed_kbps = none; success = false }
  measure cfg request_failed = record { latency_ms = none; speed_kbps = none; success = false }
  measure cfg (responded is_success latency_ms reads secs) =
      let bytes = read_body (chunk_of cfg) cfg.read_timeout_ms reads 0 in
      if is_success
      then record {
        latency_ms = some latency_ms;
        speed_kbps = some (throughput f bytes secs);
        success = ltb 0 bytes;
      }
      else record { latency_ms = some latency_ms; speed_kbps = none; success = false }
