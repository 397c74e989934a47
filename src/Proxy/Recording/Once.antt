-- ===== src/Proxy/Recording/Once.antt =====
-- proxy.rs: the polls and the drop of a `CountingStream`, and what they send to the metrics store.
use xboxproxy.Prelude.{
  ℕ, ◌+◌, ◌%◌, ◌≡◌, refl, ap, ◌∙◌, true, false, List, [], ◌∷◌, Option, some, arith, ◌<◌,
}
use xboxproxy.Float.{Float}
use xboxproxy.Text.{Text}
use xboxproxy.Db.{RequestRecord}
use xboxproxy.Metrics.{MetricsStore, record_request, u64_mod}
use xboxproxy.Proxy.Recording.{
  RecordState, Reading, Poll, chunk, failed, finished, pending, record_of, finalize, stream_body,
}

module _ (f : Float) where
  open f use {Carrier as F}

  -- The bytes of the chunks before the first answer that ends the body.
  pub bytes_of : List (Reading F × Poll) → ℕ
  bytes_of [] = 0
  bytes_of ((r, chunk len) ∷ polls) = len + bytes_of polls
  bytes_of ((r, failed e) ∷ polls) = 0
  bytes_of ((r, finished) ∷ polls) = 0
  bytes_of ((r, pending) ∷ polls) = bytes_of polls

  -- The error that the record shows: that of the answer that ends the body, if it is one, or the
  -- error that was there.
  pub error_of : List (Reading F × Poll) → Option Text → Option Text
  error_of [] e = e
  error_of ((r, chunk len) ∷ polls) e = error_of polls e
  error_of ((r, failed e') ∷ polls) e = some e'
  error_of ((r, finished) ∷ polls) e = e
  error_of ((r, pending) ∷ polls) e = error_of polls e

  finalize_again : (r : Reading F) (s : RecordState F) → s.recorded ≡ true → finalize f r s ≡ s
  unfolding finalize
  finalize_again r s e = rw e

  recorded-finalize : (r : Reading F) (s : RecordState F) → (finalize f r s).recorded ≡ true
  unfolding finalize
  recorded-finalize r s = ground arith

  metrics-finalize :
      (r : Reading F) (s : RecordState F)
      → s.recorded ≡ false
      → (finalize f r s).metrics ≡ record_request s.metrics (record_of f r s)
  unfolding finalize
  metrics-finalize r s e = rw e

  -- After the record is written, nothing more is sent.
  stream_body_recorded :
      (polls : List (Reading F × Poll)) (d : Reading F) (s : RecordState F)
      → s.recorded ≡ true
      → (stream_body f polls d s).metrics ≡ s.metrics
  unfolding stream_body
  stream_body_recorded [] d s e = ap (λ t. t.metrics) (finalize_again d s e)
  stream_body_recorded ((r, chunk len) ∷ polls) d s e = stream_body_recorded polls d _ e
  stream_body_recorded ((r, failed m) ∷ polls) d s e =
      let s' = record s { error = some m } in
      stream_body_recorded polls d (finalize f r s') (recorded-finalize r s')
      ∙ ap (λ t. t.metrics) (finalize_again r s' e)
  stream_body_recorded ((r, finished) ∷ polls) d s e =
      stream_body_recorded polls d (finalize f r s) (recorded-finalize r s)
      ∙ ap (λ t. t.metrics) (finalize_again r s e)
  stream_body_recorded ((r, pending) ∷ polls) d s e = stream_body_recorded polls d s e

  -- What one body sends: its record, once.
  abbrev pub IsRecorded : List (Reading F × Poll) → RecordState F → MetricsStore F → Type 0
  IsRecorded polls s after =
      (rec : RequestRecord F) × (after ≡ record_request s.metrics rec)
      × (rec.bytes ≡ (s.bytes + bytes_of polls) % u64_mod)
      × (rec.error ≡ error_of polls s.error)
      × (rec.status ≡ s.meta.status)
      × (rec.host ≡ s.meta.host)
      × (rec.ttfb_ms ≡ s.meta.ttfb_ms)
      × (rec.duration_ms < u64_mod)

  recorded_now :
      (polls : List (Reading F × Poll)) (r d : Reading F) (s : RecordState F)
      → s.recorded ≡ false
      → (stream_body f polls d (finalize f r s)).metrics
        ≡ record_request s.metrics (record_of f r s)
  recorded_now polls r d s e =
      stream_body_recorded polls d (finalize f r s) (recorded-finalize r s) ∙ metrics-finalize r s e

  -- A body that is not recorded yet, with a count that fits 64 bits, is recorded exactly once by
  -- its polls and its drop, with the bytes so far and those of the chunks before its end (modulo
  -- 2^64), the error that ended it or else the one it had, the status, the host and the time to the
  -- headers of its request, and a duration that fits 64 bits.
  pub stream_body-IsRecorded :
      (polls : List (Reading F × Poll)) (d : Reading F) (s : RecordState F)
      → s.recorded ≡ false
      → s.bytes < u64_mod
      → IsRecorded polls s (stream_body f polls d s).metrics
  unfolding stream_body bytes_of error_of record_of
  stream_body-IsRecorded [] d s e small =
      (record_of f d s, metrics-finalize d s e, omega arith, refl, refl, refl, refl, omega arith)
  stream_body-IsRecorded ((r, chunk len) ∷ polls) d s e small =
      let s' = record s { bytes = (s.bytes + len) % u64_mod } in
      let (rec, sent, bytes, error, status, host, ttfb, duration) =
        stream_body-IsRecorded polls d s' e (omega arith) in
      (rec, sent, omega (arith, bytes), error, status, host, ttfb, duration)
  stream_body-IsRecorded ((r, failed m) ∷ polls) d s e small =
      let s' = record s { error = some m } in
      (
        record_of f r s',
        recorded_now polls r d s' e,
        omega arith,
        refl,
        refl,
        refl,
        refl,
        omega arith,
      )
  stream_body-IsRecorded ((r, finished) ∷ polls) d s e small = (
    record_of f r s,
    recorded_now polls r d s e,
    omega arith,
    refl,
    refl,
    refl,
    refl,
    omega arith,
  )
  stream_body-IsRecorded ((r, pending) ∷ polls) d s e small =
      stream_body-IsRecorded polls d s e small
