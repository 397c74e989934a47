-- ===== src/Db/Queries.antt =====
-- db.rs: the queries. A SQL statement is the list function that it denotes; what SQLite computes of a
-- column, and the order of rows that `ORDER BY` leaves open, is a parameter with named laws.
pub mod Recent
pub mod Groups
pub mod Sums
pub mod Totals
pub mod Statuses
use mathlib.Core.Option
use mathlib.Core.List.{Perm, reverse}
use xboxproxy.Prelude.{
  ℕ, zero, suc, ◌+◌, ◌*◌, ◌/◌, ◌-◌, ◌^◌, ◌≤◌, ◌<◌, ◌≡◌, ℤ, pos, negsuc, as_u64, as_u16, leb_ℤ,
  ltb_ℤ, eq_ℤ, pos_part, neg_part, sub_ℕ, Bool, true, false, not, List, [], ◌∷◌, ◌++◌, map, Option,
  none, some, Result, ok, err, select, take, is_empty, length, All, leb, ltb, if◌then◌else◌,
}
use xboxproxy.Float.{Float}
use xboxproxy.Db.{RequestRecord, SpeedTestRecord}
use xboxproxy.Db.Tables.{RequestRow, SpeedTestRow, Database}

pub record TimeWindowStats (F : Type 0) : Type 0 where
  pub requests : ℤ
  pub throughput_kbps : F
  pub ttfb_ms : F
  pub errors : ℤ
  pub bytes : ℤ

pub record BucketStat (F : Type 0) : Type 0 where
  pub ts : ℤ
  pub requests : ℤ
  pub throughput_kbps : F
  pub ttfb_ms : F
  pub errors : ℤ

pub record StatusCount : Type 0 where
  pub status : ℤ
  pub count : ℤ

-- An integer overflow in `SUM`.
pub data SqlError : Type 0 where
  overflow : SqlError

abbrev pub i64_max : ℕ
i64_max = 2 ^ 63 - 1

abbrev pub total : List ℕ → ℕ
total [] = 0
total (n ∷ ns) = n + total ns

-- `COALESCE(SUM(c), 0)` and `AVG(c)` of a column, and the order that `ORDER BY cnt DESC` gives.
pub record Sqlite (F : Type 0) : Type 0 where
  pub sum : List ℤ → Result SqlError ℤ
  pub avg : List ℤ → F
  pub order_desc : List StatusCount → List StatusCount

abbrev pub IsDescending : List StatusCount → Type 0
IsDescending [] = Unit
IsDescending (s ∷ ss) = All (λ t. leb_ℤ t.count s.count ≡ true) ss × IsDescending ss

-- `SUM` is exact where nothing can overflow, and `ORDER BY` orders the rows that there are.
pub record IsSqlite {F : Type 0} (sqlite : Sqlite F) : Type 0 where
  pub sum_exact : (ns : List ℕ) → total ns ≤ i64_max → sqlite.sum (map pos ns) ≡ ok (pos (total ns))
  pub order_desc-perm : (ss : List StatusCount) → Perm (sqlite.order_desc ss) ss
  pub order_desc-IsDescending : (ss : List StatusCount) → IsDescending (sqlite.order_desc ss)

-- `limit.clamp(0, 500)`
abbrev pub clamp_limit : ℤ → ℕ
clamp_limit (pos n) = if ltb 500 n then 500 else n
clamp_limit (negsuc n) = 0

-- `CASE WHEN status >= 500 THEN 1 ELSE 0 END`
abbrev pub is_error : {F : Type 0} → RequestRow F → ℤ
is_error row = if leb_ℤ (pos 500) row.status then pos 1 else pos 0

-- `(ts / ?2) * ?2`: integer division truncates towards zero. The width is positive.
unfoldable pub bucket_of : ℕ → ℤ → ℤ
bucket_of width (pos n) = pos (n / width * width)
bucket_of width (negsuc n) = sub_ℕ 0 (suc n / width * width)

-- The different keys in ascending order, as `GROUP BY` and `ORDER BY` give them.
unfoldable pub insert_key : ℤ → List ℤ → List ℤ
insert_key k [] = k ∷ []
insert_key k (j ∷ js) =
    let later = insert_key k js in
    if eq_ℤ k j then j ∷ js else if ltb_ℤ k j then k ∷ j ∷ js else j ∷ later

unfoldable pub keys_of : List ℤ → List ℤ
unfolding insert_key
keys_of [] = []
keys_of (k ∷ ks) = insert_key k (keys_of ks)

-- `for r in rows { out.push(r?) }`
unfoldable pub collect : {A : Type 0} → List (Result SqlError A) → Result SqlError (List A)
collect [] = ok []
collect (err e ∷ rs) = err e
collect (ok a ∷ rs) = elim (collect rs) [ err e ↦ err e | ok as' ↦ ok (a ∷ as') ]

module _ {F : Type 0} where
  -- `row_to_request`
  unfoldable pub row_to_request : RequestRow F → RequestRecord F
  row_to_request row = record {
    ts = row.ts;
    client_ip = row.client_ip;
    host = row.host;
    path = row.path;
    method = row.method;
    status = as_u16 row.status;
    bytes = as_u64 row.bytes;
    duration_ms = as_u64 row.duration_ms;
    ttfb_ms = as_u64 row.ttfb_ms;
    throughput_kbps = row.throughput_kbps;
    upstream_ip = row.upstream_ip;
    passthrough = not (eq_ℤ row.passthrough (pos 0));
    error = row.error;
  }

  unfoldable pub row_to_speedtest : SpeedTestRow F → SpeedTestRecord F
  row_to_speedtest row = record {
    ts = row.ts;
    host = row.host;
    ip = row.ip;
    latency_ms = Option.map as_u64 row.latency_ms;
    speed_kbps = row.speed_kbps;
    success = not (eq_ℤ row.success (pos 0));
  }

  -- `WHERE ts >= ?1`, or all rows, without their ids.
  unfoldable pub requests_since : Option ℤ → Database F → List (RequestRow F)
  requests_since none db = map (λ row. row.1) db.requests
  requests_since (some since) db =
      select (λ row. leb_ℤ since row.ts) (map (λ row. row.1) db.requests)

  -- `ORDER BY id DESC LIMIT`: the last rows first.
  unfoldable pub recent_requests : ℤ → Option ℤ → Database F → List (RequestRecord F)
  unfolding requests_since row_to_request
  recent_requests limit since db =
      map row_to_request (take (clamp_limit limit) (reverse (requests_since since db)))

  unfoldable pub recent_speedtests : ℤ → Database F → List (SpeedTestRecord F)
  unfolding row_to_speedtest
  recent_speedtests limit db =
      map row_to_speedtest (take (clamp_limit limit) (reverse (map (λ row. row.1) db.speedtests)))

  abbrev pub count_of : List (RequestRow F) → ℤ
  count_of rows = pos (length rows)

  -- `GROUP BY status`, before the order.
  unfoldable pub status_groups : List (RequestRow F) → List StatusCount
  unfolding keys_of
  status_groups rows =
      map (λ k. record { status = k; count = count_of (select (λ row. eq_ℤ row.status k) rows) })
        (keys_of (map (λ row. row.status) rows))

  unfoldable pub status_counts : Sqlite F → ℤ → Database F → List StatusCount
  unfolding status_groups requests_since
  status_counts sqlite since db = sqlite.order_desc (status_groups (requests_since (some since) db))

module _ (f : Float) (sqlite : Sqlite f.Carrier) where
  open f use {Carrier as F, of_i64, of_u64, mul, div}

  -- `COALESCE(AVG(ttfb_ms), 0)`
  abbrev pub average : List ℤ → F
  average ns = if is_empty ns then of_u64 0 else sqlite.avg ns

  -- `bytes as f64 * 8.0 / 1024.0 / secs as f64`
  abbrev pub throughput_over : ℤ → ℤ → F
  throughput_over bytes secs = div (div (mul (of_i64 bytes) (of_u64 8)) (of_u64 1024)) (of_i64 secs)

  -- The `SELECT` of `stats_since`, on the rows of the window.
  unfoldable pub window_stats : ℤ → List (RequestRow F) → Result SqlError (TimeWindowStats F)
  window_stats window_secs rows = elim (sqlite.sum (map (λ row. row.bytes) rows)) [
    | err e ↦ err e
    | ok bytes ↦ elim (sqlite.sum (map is_error rows)) [
      | err e ↦ err e
      | ok errors ↦ ok (record {
        requests = count_of rows;
        throughput_kbps = throughput_over bytes window_secs;
        ttfb_ms = average (map (λ row. row.ttfb_ms) rows);
        errors = errors;
        bytes = bytes;
      })
    ]
  ]

  unfoldable pub stats_since : ℤ → ℤ → Database F → Result SqlError (TimeWindowStats F)
  unfolding window_stats requests_since
  stats_since since window_secs db = window_stats window_secs (requests_since (some since) db)

  -- One row of the `SELECT` of `series_since`.
  unfoldable pub bucket_stats : ℕ → List (RequestRow F) → ℤ → Result SqlError (BucketStat F)
  unfolding bucket_of
  bucket_stats width rows k =
      let group = select (λ row. eq_ℤ (bucket_of width row.ts) k) rows in
      elim (sqlite.sum (map (λ row. row.bytes) group)) [
        | err e ↦ err e
        | ok bytes ↦ elim (sqlite.sum (map is_error group)) [
          | err e ↦ err e
          | ok errors ↦ ok (record {
            ts = k;
            requests = count_of group;
            throughput_kbps = throughput_over bytes (pos width);
            ttfb_ms = average (map (λ row. row.ttfb_ms) group);
            errors = errors;
          })
        ]
      ]

  unfoldable pub series_of : ℕ → List (RequestRow F) → Result SqlError (List (BucketStat F))
  unfolding bucket_stats keys_of collect
  series_of width rows =
      collect (map (bucket_stats width rows) (keys_of (map (λ row. bucket_of width row.ts) rows)))

  unfoldable pub series_since : ℤ → ℕ → Database F → Result SqlError (List (BucketStat F))
  unfolding series_of requests_since
  series_since since bucket_secs db = series_of bucket_secs (requests_since (some since) db)
