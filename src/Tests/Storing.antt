-- ===== src/Tests/Storing.antt =====
-- Tests of db.rs: what the writer stores, and the queries on it.
use xboxproxy.Prelude.{
  ℕ, ◌+◌, ◌≡◌, refl, ap, ℤ, pos, pos_part, neg_part, leb_ℤ, true, false, List, [], ◌∷◌, none, some,
  ok, All, compare, Ordering, arith,
}
use xboxproxy.Float.{is_gt}
use xboxproxy.Float.Scaled.{scaled}
use xboxproxy.Text.{codes}
use xboxproxy.Candidates.{sort_by}
use xboxproxy.Candidates.Ranking.{Orders, IsSortedBy, sort_by-perm, sort_by-IsSortedBy}
use xboxproxy.Db.{RequestRecord, DbCommand, insert_request, cleanup}
use xboxproxy.Db.Tables.{Database, Answers, init, writer_loop}
use xboxproxy.Db.Queries.{
  StatusCount, Sqlite, IsSqlite, IsDescending, requests_since, recent_requests,
}
use xboxproxy.Db.Queries.Sums.{sum_ℤ, sum_ℤ-pos}
use xboxproxy.Db.Queries.Totals.{HasTotals}
use xboxproxy.Dashboard.Api.{AppState, Summary, summary}
use xboxproxy.Dashboard.Overview.{IsOverview, summary-IsOverview}
use xboxproxy.Speedtest.Control.{new}
use xboxproxy.Tests.Data.{servers}

-- Whole sums, no average, and a stable sort.
abbrev by_count : StatusCount → StatusCount → Ordering
by_count a b = compare (pos_part b.count + neg_part a.count) (pos_part a.count + neg_part b.count)

abbrev plain_sql : Sqlite ℤ
plain_sql = record { sum = λ ns. ok (sum_ℤ ns); avg = λ ns. pos 0; order_desc = sort_by by_count }

by_count-Orders : Orders by_count (λ s. Unit {0})
by_count-Orders = record {
  asymm = λ x y p q h. ground arith;
  trans = λ x y z p q r h k. ground arith;
}

All-counts : (ss : List StatusCount) → All (λ s. Unit {0}) ss
All-counts [] = tt
All-counts (s ∷ ss) = (tt, All-counts ss)

not_above : (a b : StatusCount) → is_gt (by_count a b) ≡ false → leb_ℤ b.count a.count ≡ true
not_above a b h = ground arith

below_first :
    (s : StatusCount) (ss : List StatusCount)
    → All (λ t. is_gt (by_count s t) ≡ false) ss
    → All (λ t. leb_ℤ t.count s.count ≡ true) ss
below_first s [] h = tt
below_first s (t ∷ ss) (a, h) = (not_above s t a, below_first s ss h)

IsSortedBy-IsDescending : (ss : List StatusCount) → IsSortedBy by_count ss → IsDescending ss
IsSortedBy-IsDescending [] h = tt
IsSortedBy-IsDescending (s ∷ ss) (a, h) = (below_first s ss a, IsSortedBy-IsDescending ss h)

plain_sql-IsSqlite : IsSqlite plain_sql
plain_sql-IsSqlite = record {
  sum_exact = λ ns h. ap ok (sum_ℤ-pos ns);
  order_desc-perm = sort_by-perm by_count;
  order_desc-IsDescending = λ ss.
      IsSortedBy-IsDescending _ (sort_by-IsSortedBy by_count by_count-Orders ss (All-counts ss));
}

-- A request at time `ts` with a status.
abbrev pub request : ℕ → ℕ → RequestRecord ℤ
request ts status = record {
  ts = pos ts;
  client_ip = codes "10.0.0.2";
  host = codes "cdn.example.com";
  path = codes "/large";
  method = codes "GET";
  status = status;
  bytes = 4096;
  duration_ms = 20;
  ttfb_ms = 5;
  throughput_kbps = pos 1600;
  upstream_ip = none;
  passthrough = false;
  error = none;
}

-- The second insert fails, and the clean-up removes the first request.
abbrev history : List (Answers × DbCommand ℤ)
history =
    ((true, true), insert_request (request 100 200))
    ∷ ((false, true), insert_request (request 7000 500))
    ∷ ((true, true), insert_request (request 7000 206))
    ∷ ((true, true), cleanup (pos 5000))
    ∷ ((true, true), insert_request (request 7100 502))
    ∷ []

newest_first :
    recent_requests (pos 10) none (writer_loop history init)
    ≡ request 7100 502 ∷ request 7000 206 ∷ []
unfolding recent_requests writer_loop
newest_first = refl

abbrev state : AppState ℤ
state = record { selector = servers; speedtest = new; pinned = false; auto_speedtest = true }

abbrev db : Database ℤ
db = writer_loop history init

db-HasTotals : HasTotals (requests_since none db)
unfolding requests_since writer_loop
db-HasTotals = record {
  nonneg = (refl, (refl, tt));
  total-bytes-le = omega arith;
  length-le = omega arith;
}

summary-IsOverview_example :
    (page : Summary ℤ) × (summary scaled plain_sql state 7200 (λ i. 7200) (λ n. some db)
      ≡ some page)
    × IsOverview scaled plain_sql state 7200 (λ i. 7200) db page
summary-IsOverview_example =
    summary-IsOverview scaled plain_sql state 7200 (λ i. 7200) db plain_sql-IsSqlite db-HasTotals
