-- ===== src/Dashboard/Overview.antt =====
-- dashboard.rs, `summary`: the parts of the overview agree with each other.
use xboxproxy.Prelude.{ℕ, ◌≡◌, refl, ℤ, pos, as_i64, ◌-ℤ◌, List, map, none, some}
use xboxproxy.Float.{Float}
use xboxproxy.Db.Tables.{Database}
use xboxproxy.Db.Queries.{
  Sqlite, IsSqlite, TimeWindowStats, BucketStat, StatusCount, requests_since, status_counts,
  recent_requests, recent_speedtests,
}
use xboxproxy.Db.Queries.Sums.{sum_ℤ}
use xboxproxy.Db.Queries.Totals.{
  HasTotals, HasTotals-select, AddsUp, series_since-AddsUp, stats_of, stats_since-ok,
}
use xboxproxy.Db.Queries.Statuses.{Counts, status_counts-Counts}
use xboxproxy.Dashboard.Api.{AppState, Summary, summary, hosts}

module _ (f : Float) (sqlite : Sqlite f.Carrier) (state : AppState f.Carrier) (unix : ℕ)
    (clock : ℕ → ℕ) (db : Database f.Carrier) where
  open f use {Carrier as F}

  -- The buckets of the last hour add up to its totals, and the counts of the last day to its requests.
  pub record IsOverview (page : Summary F) : Type 0 where
    pub hour : AddsUp page.series page.last_hour
    pub day : sum_ℤ (map (λ (s : StatusCount). s.count) page.status_counts) ≡ page.last_24h.requests
    pub statuses : Counts (requests_since (some (as_i64 unix -ℤ pos 86400)) db) page.status_counts

  HasTotals-since :
      (since : ℤ) → HasTotals (requests_since none db) → HasTotals (requests_since (some since) db)
  unfolding requests_since
  HasTotals-since since h = HasTotals-select _ (requests_since none db) h

  abbrev page_of : TimeWindowStats F → List (BucketStat F) → Summary F
  page_of last_hour series = record {
    now = as_i64 unix;
    last_hour = last_hour;
    last_24h = stats_of f sqlite (pos 86400) (requests_since (some (as_i64 unix -ℤ pos 86400)) db);
    series = series;
    status_counts = status_counts sqlite (as_i64 unix -ℤ pos 86400) db;
    hosts = hosts f state clock;
    recent = recent_requests (pos 50) (some (as_i64 unix -ℤ pos 3600)) db;
    recent_speedtests = recent_speedtests (pos 20) db;
    speedtest_running = state.speedtest.running;
    pinned = state.pinned;
    speedtest_disabled = state.pinned;
    auto_speedtest = state.auto_speedtest;
  }

  -- If `SUM` is exact where nothing overflows, `ORDER BY` only orders, the stored byte counts are
  -- not negative and their sum and the number of rows fit an i64, and no query fails or sees
  -- another state of the database, then the overview is returned: its buckets are in ascending
  -- order and their requests and errors add up to those of the last hour, and its status counts
  -- list each status of the last day once, the most frequent first, and add up to the requests of
  -- the last day.
  pub summary-IsOverview :
      IsSqlite sqlite
      → HasTotals (requests_since none db)
      → (page : Summary F) × (summary f sqlite state unix clock (λ n. some db) ≡ some page)
        × IsOverview page
  unfolding summary stats_of
  summary-IsOverview laws h =
      let hour = as_i64 unix -ℤ pos 3600 in
      let day = as_i64 unix -ℤ pos 86400 in
      let (last_hour, series, e, e', sums) =
        series_since-AddsUp f sqlite laws hour (pos 3600) 60 db (HasTotals-since hour h) in
      let counts = status_counts-Counts sqlite day db laws in
      (
        page_of last_hour series,
        rw (e, stats_since-ok f sqlite laws day (pos 86400) db (HasTotals-since day h), e', summary)
            refl,
        record { hour = sums; day = counts.sum; statuses = counts },
      )
