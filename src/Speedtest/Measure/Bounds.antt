-- ===== src/Speedtest/Measure/Bounds.antt =====
-- speedtest.rs, `measure`: bounds of the range and of the bytes that count.
use xboxproxy.Prelude.{
  ℕ, ◌+◌, ◌-◌, ◌≤◌, ◌<◌, ◌≡◌, refl, true, List, [], ◌∷◌, some, ltb, leb, min, arith, if◌then◌else◌,
  ap, ◌∙◌,
}
use native.Mathlib.Nat.{mod-lt}
use xboxproxy.Proxy.Recording.{throughput}
use xboxproxy.Metrics.{u64_mod}
use xboxproxy.Float.{Float}
use xboxproxy.Speedtest.{SpeedTestConfig}
use xboxproxy.Speedtest.Measure.{
  total_size, chunk_of, range_of, Read, data_read, read_failed, body_ended, timed_out, read_body,
  responded, measure,
}

chunk_of_bounds : (cfg : SpeedTestConfig) → (1 ≤ chunk_of cfg) × (chunk_of cfg ≤ total_size)
unfolding chunk_of
chunk_of_bounds cfg = (ground arith, ground arith)

range_of_bounds :
    (chunk random : ℕ)
    → 1 ≤ chunk
    → chunk ≤ total_size
    → let range = range_of chunk random in (range.1 < total_size) × (range.1 + 1 ≡ range.0 + chunk)
unfolding range_of
range_of_bounds chunk random lo hi =
    let small = mod-lt random {m = total_size - chunk + 1} (omega arith) in
    (ground (arith, small), ground arith)

-- Whatever the configured chunk and the random number, the range that a measurement asks for is not
-- empty, ends within the file's 30 MiB, and has the length of the clamped chunk.
pub range_of-chunk_of :
    (cfg : SpeedTestConfig) (random : ℕ)
    → let range = range_of (chunk_of cfg) random in
      (1 ≤ chunk_of cfg) × (range.1 < total_size) × (range.1 + 1 ≡ range.0 + chunk_of cfg)
range_of-chunk_of cfg random =
    let (lo, hi) = chunk_of_bounds cfg in
    let (a, b) = range_of_bounds (chunk_of cfg) random lo hi in (lo, a, b)

-- The bytes of the reads before the first that is no data or that begins too late.
unfoldable pub delivered : ℕ → List (ℕ × Read) → ℕ
delivered timeout [] = 0
delivered timeout ((elapsed, data_read len) ∷ reads) =
    let rest = delivered timeout reads in if leb timeout elapsed then 0 else len + rest
delivered timeout ((elapsed, read_failed) ∷ reads) = 0
delivered timeout ((elapsed, body_ended) ∷ reads) = 0
delivered timeout ((elapsed, timed_out) ∷ reads) = 0

read_body_lem :
    (chunk timeout : ℕ) (reads : List (ℕ × Read)) (bytes : ℕ)
    → chunk ≤ total_size
    → bytes ≤ chunk
    → read_body chunk timeout reads bytes ≡ min (bytes + delivered timeout reads) chunk
unfolding read_body delivered
read_body_lem chunk timeout [] bytes t h = ground arith
read_body_lem chunk timeout ((elapsed, data_read len) ∷ reads) bytes t h =
    let next = min (min (bytes + len) (u64_mod - 1)) chunk in
    let rest = read_body_lem chunk timeout reads next t (ground arith) in ground (arith, rest)
read_body_lem chunk timeout ((elapsed, read_failed) ∷ reads) bytes t h = ground arith
read_body_lem chunk timeout ((elapsed, body_ended) ∷ reads) bytes t h = ground arith
read_body_lem chunk timeout ((elapsed, timed_out) ∷ reads) bytes t h = ground arith

module _ (f : Float) (cfg : SpeedTestConfig) (latency : ℕ) (reads : List (ℕ × Read))
    (secs : f.Carrier) where
  counted :
      read_body (chunk_of cfg) cfg.read_timeout_ms reads 0
      ≡ min (delivered cfg.read_timeout_ms reads) (chunk_of cfg)
  counted = ground (
    arith,
    read_body_lem (chunk_of cfg) cfg.read_timeout_ms reads 0 (chunk_of_bounds cfg).1 (omega arith),
  )

  -- A measurement with a success status succeeds exactly if some byte arrives before the first read
  -- that is no data or begins after the timeout; its latency is that of the headers, and its speed
  -- counts the bytes that arrive before that read, at most the configured chunk.
  pub measure_responded :
      let result = measure f cfg (responded true latency reads secs) in
      (result.success ≡ ltb 0 (delivered cfg.read_timeout_ms reads))
      × (result.latency_ms ≡ some latency)
      × (result.speed_kbps
          ≡ some (throughput f (min (delivered cfg.read_timeout_ms reads) (chunk_of cfg)) secs))
  unfolding measure
  measure_responded =
      let positive = (chunk_of_bounds cfg).0 in
      (
        ap (ltb 0) counted ∙ ground (arith, positive),
        refl,
        ap (λ n. some (throughput f n secs)) counted,
      )
