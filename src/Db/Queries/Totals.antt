-- ===== src/Db/Queries/Totals.antt =====
-- db.rs: the totals of the buckets and of the status groups are those of the window.
use mathlib.Core.Path.{subst}
use xboxproxy.Prelude.{
  ℕ, ◌≤◌, ◌≡◌, refl, sym, ap, ◌∙◌, ℤ, pos, pos_part, leb_ℤ, Bool, List, [], ◌∷◌, map, some, select,
  length, All, All-select, ok, if◌then◌else◌, Bool-cases, inl, inr, arith,
}
use xboxproxy.Float.{Float}
use xboxproxy.Db.Tables.{RequestRow, Database}
use xboxproxy.Db.Queries.{
  TimeWindowStats, BucketStat, Sqlite, IsSqlite, i64_max, total, is_error, bucket_of, keys_of,
  requests_since, count_of, average, throughput_over, window_stats, stats_since, bucket_stats,
  series_of, series_since,
}
use xboxproxy.Db.Queries.Sums.{
  sum_ℤ, total-select-le, length-total, collect-map, map-map_self, sum-fields,
}
use xboxproxy.Db.Queries.Groups.{IsAscending, keys_of-IsAscending, group}

module _ {F : Type 0} where
  abbrev pub bytes_of : RequestRow F → ℕ
  bytes_of row = pos_part row.bytes

  abbrev pub errors_of : RequestRow F → ℕ
  errors_of row = if leb_ℤ (pos 500) row.status then 1 else 0

  -- The sums of the rows are in the range of SQLite's integers.
  pub record HasTotals (rows : List (RequestRow F)) : Type 0 where
    pub nonneg : All (λ row. row.bytes ≡ pos (bytes_of row)) rows
    pub total-bytes-le : total (map bytes_of rows) ≤ i64_max
    pub length-le : length rows ≤ i64_max

  map-bytes :
      (rows : List (RequestRow F))
      → All (λ row. row.bytes ≡ pos (bytes_of row)) rows
      → map (λ row. row.bytes) rows ≡ map pos (map bytes_of rows)
  map-bytes [] h = refl
  map-bytes (row ∷ rows) (e, h) = rw (e, map-bytes rows h) refl

  is_error-errors_of : (row : RequestRow F) → is_error row ≡ pos (errors_of row)
  is_error-errors_of row = elim (Bool-cases (leb_ℤ (pos 500) row.status)) [
    | inl e ↦ rw e refl
    | inr e ↦ rw e refl
  ]

  map-is_error : (rows : List (RequestRow F)) → map is_error rows ≡ map pos (map errors_of rows)
  map-is_error [] = refl
  map-is_error (row ∷ rows) = rw (is_error-errors_of row, map-is_error rows) refl

  total-errors-le : (rows : List (RequestRow F)) → total (map errors_of rows) ≤ length rows
  total-errors-le [] = omega arith
  total-errors-le (row ∷ rows) = elim (Bool-cases (leb_ℤ (pos 500) row.status)) [
    | inl e ↦ rw e (omega (arith, total-errors-le rows))
    | inr e ↦ rw e (omega (arith, total-errors-le rows))
  ]

  pub HasTotals-select :
      (p : RequestRow F → Bool) (rows : List (RequestRow F))
      → HasTotals rows
      → HasTotals (select p rows)
  HasTotals-select p rows h = record {
    nonneg = All-select _ p rows h.nonneg;
    total-bytes-le = omega (arith, total-select-le bytes_of p rows, h.total-bytes-le);
    length-le = omega (
      arith,
      length-total rows,
      length-total (select p rows),
      total-select-le (λ row. 1) p rows,
      h.length-le,
    );
  }

  -- The buckets are in order, and none of the window is counted twice or left out.
  pub record AddsUp (series : List (BucketStat F)) (stats : TimeWindowStats F) : Type 0 where
    pub requests : sum_ℤ (map (λ (b : BucketStat F). b.requests) series) ≡ stats.requests
    pub errors : sum_ℤ (map (λ (b : BucketStat F). b.errors) series) ≡ stats.errors
    pub ascending : IsAscending (map (λ (b : BucketStat F). b.ts) series)

abbrev key_of : {F : Type 0} → ℕ → RequestRow F → ℤ
key_of width row = bucket_of width row.ts

module _ (f : Float) (sqlite : Sqlite f.Carrier) where
  open f use {Carrier as F}

  unfoldable pub stats_of : ℤ → List (RequestRow F) → TimeWindowStats F
  stats_of secs rows = record {
    requests = count_of rows;
    throughput_kbps = throughput_over f sqlite (pos (total (map bytes_of rows))) secs;
    ttfb_ms = average f sqlite (map (λ row. row.ttfb_ms) rows);
    errors = pos (total (map errors_of rows));
    bytes = pos (total (map bytes_of rows));
  }

  bucket_at : ℕ → List (RequestRow F) → ℤ → BucketStat F
  bucket_at width rows k =
      let rows_of = group (key_of width) k rows in
      record {
        ts = k;
        requests = count_of rows_of;
        throughput_kbps = throughput_over f sqlite (pos (total (map bytes_of rows_of))) (pos width);
        ttfb_ms = average f sqlite (map (λ row. row.ttfb_ms) rows_of);
        errors = pos (total (map errors_of rows_of));
      }

module _ (f : Float) (sqlite : Sqlite f.Carrier) (laws : IsSqlite sqlite) where
  open f use {Carrier as F}

  -- The aggregates of some rows, where nothing overflows.
  sums :
      (rows : List (RequestRow F))
      → HasTotals rows
      → (sqlite.sum (map (λ row. row.bytes) rows) ≡ ok (pos (total (map bytes_of rows))))
        × (sqlite.sum (map is_error rows) ≡ ok (pos (total (map errors_of rows))))
  sums rows h = (
    rw (map-bytes rows h.nonneg) (laws.sum_exact (map bytes_of rows) h.total-bytes-le),
    rw (map-is_error rows)
        (laws.sum_exact (map errors_of rows) (omega (arith, total-errors-le rows, h.length-le))),
  )

  window_stats-ok :
      (secs : ℤ) (rows : List (RequestRow F))
      → HasTotals rows
      → window_stats f sqlite secs rows ≡ ok (stats_of f sqlite secs rows)
  unfolding window_stats stats_of
  window_stats-ok secs rows h = let (b, e) = sums rows h in rw (b, e, window_stats) refl

  pub stats_since-ok :
      (since secs : ℤ) (db : Database F)
      → HasTotals (requests_since (some since) db)
      → stats_since f sqlite since secs db
        ≡ ok (stats_of f sqlite secs (requests_since (some since) db))
  unfolding stats_since
  stats_since-ok since secs db h = window_stats-ok secs (requests_since (some since) db) h

  bucket_stats-ok :
      (width : ℕ) (rows : List (RequestRow F)) (k : ℤ)
      → HasTotals rows
      → bucket_stats f sqlite width rows k ≡ ok (bucket_at f sqlite width rows k)
  unfolding bucket_stats bucket_at
  bucket_stats-ok width rows k h =
      let (b, e) = sums (group (key_of width) k rows) (HasTotals-select _ rows h) in
      rw (b, e, bucket_stats) refl

  bucket_at-AddsUp :
      (width : ℕ) (secs : ℤ) (rows : List (RequestRow F))
      → AddsUp
          (map (bucket_at f sqlite width rows) (keys_of (map (key_of width) rows)))
          (stats_of f sqlite secs rows)
  unfolding bucket_at stats_of
  bucket_at-AddsUp width secs rows = record {
    requests =
        sum-fields (λ b. b.requests) (bucket_at f sqlite width rows) (key_of width) (λ row. 1) rows
          (λ k. ap pos (length-total _))
        ∙ ap pos (sym (length-total rows));
    errors =
        sum-fields (λ b. b.errors) (bucket_at f sqlite width rows) (key_of width) errors_of rows
          (λ k. refl);
    ascending =
        subst IsAscending
          (sym (
            map-map_self (λ b. b.ts) (bucket_at f sqlite width rows)
              (keys_of (map (key_of width) rows)) (λ k. refl)))
          (keys_of-IsAscending _);
  }

  pub series_since-AddsUp :
      (since : ℤ) (secs : ℤ) (width : ℕ) (db : Database F)
      → HasTotals (requests_since (some since) db)
      → (stats : TimeWindowStats F) × (series : List (BucketStat F)) × (stats_since f sqlite since
            secs db
          ≡ ok stats)
        × (series_since f sqlite since width db ≡ ok series)
        × AddsUp series stats
  unfolding series_since series_of
  series_since-AddsUp since secs width db h =
      let rows = requests_since (some since) db in
      (
        stats_of f sqlite secs rows,
        map (bucket_at f sqlite width rows) (keys_of (map (key_of width) rows)),
        stats_since-ok since secs db h,
        collect-map _ _ _ (λ k. bucket_stats-ok width rows k h),
        bucket_at-AddsUp width secs rows,
      )
