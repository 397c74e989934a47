-- ===== src/Dashboard/Api.antt =====
-- dashboard.rs: the requests that read the database and the selector, and the one that pins a group.
-- What SQLite and the file system answer is an argument; `none` is the answer 500.
use xboxproxy.Prelude.{
  ℕ, ℤ, pos, as_i64, ◌-ℤ◌, ltb_ℤ, Bool, List, Option, none, some, Result, ok, err, unwrap_or, ◌>>=◌,
  if◌then◌else◌,
}
use xboxproxy.Float.{Float}
use xboxproxy.Text.{Text}
use xboxproxy.Net.{IpAddr, parse_ipv4}
use xboxproxy.Db.{RequestRecord, SpeedTestRecord}
use xboxproxy.Db.Tables.{Database}
use xboxproxy.Db.Queries.{
  Sqlite, SqlError, TimeWindowStats, BucketStat, StatusCount, stats_since, series_since,
  status_counts, recent_requests, recent_speedtests,
}
use xboxproxy.Selector.{Selector, HostState, PinError, set_pinned_ip, snapshot}
use xboxproxy.Speedtest.Control.{SpeedTestControl}
use xboxproxy.Dashboard.{wanted_url}

pub record LimitQuery : Type 0 where
  pub limit : Option ℤ
  pub since : Option ℤ

-- `clamp(1, 500)`
abbrev pub limit_of : Option ℤ → ℤ
limit_of limit =
    let n = unwrap_or limit (pos 100) in
    if ltb_ℤ n (pos 1) then pos 1 else if ltb_ℤ (pos 500) n then pos 500 else n

pub record PinGroupBody : Type 0 where
  pub name : Text
  pub ip : Option Text

pub data PinReply : Type 0 where
  pinned_to : Option IpAddr → PinReply
  invalid_ip : PinReply
  not_pinned : PinError → PinReply

-- The part of `AppState` that the dashboard reads.
pub record AppState (F : Type 0) : Type 0 where
  pub selector : Selector F
  pub speedtest : SpeedTestControl
  pub pinned : Bool
  pub auto_speedtest : Bool

pub record Summary (F : Type 0) : Type 0 where
  pub now : ℤ
  pub last_hour : TimeWindowStats F
  pub last_24h : TimeWindowStats F
  pub series : List (BucketStat F)
  pub status_counts : List StatusCount
  pub hosts : List (HostState F)
  pub recent : List (RequestRecord F)
  pub recent_speedtests : List (SpeedTestRecord F)
  pub speedtest_running : Bool
  pub pinned : Bool
  pub speedtest_disabled : Bool
  pub auto_speedtest : Bool

-- `None` where there is nothing but white space.
unfoldable pub wanted_ip : Option Text → Result PinReply (Option IpAddr)
wanted_ip ip = elim (wanted_url ip) [
  | none ↦ ok none
  | some raw ↦ elim (parse_ipv4 raw) [ none ↦ err invalid_ip | some a ↦ ok (some a) ]
]

module _ {F : Type 0} where
  unfoldable pub pin_group : Selector F → PinGroupBody → PinReply × Selector F
  pin_group s body = elim (wanted_ip body.ip) [
    | err reply ↦ (reply, s)
    | ok ip ↦ elim (set_pinned_ip s body.name ip) [
      | ok pinned ↦ (pinned_to ip, pinned)
      | err e ↦ (not_pinned e, s)
    ]
  ]

  -- The database as the query finds it, or its error.
  unfoldable pub requests : Option (Database F) → LimitQuery → Option (List (RequestRecord F))
  requests found q = do db ← found; some (recent_requests (limit_of q.limit) q.since db)

  unfoldable pub speedtests : Option (Database F) → LimitQuery → Option (List (SpeedTestRecord F))
  speedtests found q = do db ← found; some (recent_speedtests (limit_of q.limit) db)

abbrev answer_of : {A : Type 0} → Result SqlError A → Option A
answer_of (ok a) = some a
answer_of (err e) = none

unfoldable pub hosts : (f : Float) → AppState f.Carrier → (ℕ → ℕ) → List (HostState f.Carrier)
hosts f state clock = snapshot f state.selector clock

module _ (f : Float) (sqlite : Sqlite f.Carrier) where
  open f use {Carrier as F}

  -- The queries see the database one after the other: `found n` is what query `n` finds.
  unfoldable pub summary : AppState F → ℕ → (ℕ → ℕ) → (ℕ → Option (Database F)) → Option (Summary F)
  unfolding hosts
  summary state unix clock found = do
    let now = as_i64 unix
    db0 ← found 0
    last_hour ← answer_of (stats_since f sqlite (now -ℤ pos 3600) (pos 3600) db0)
    db1 ← found 1
    last_24h ← answer_of (stats_since f sqlite (now -ℤ pos 86400) (pos 86400) db1)
    db2 ← found 2
    series ← answer_of (series_since f sqlite (now -ℤ pos 3600) 60 db2)
    db3 ← found 3
    db4 ← found 4
    db5 ← found 5
    some (record {
      now = now;
      last_hour = last_hour;
      last_24h = last_24h;
      series = series;
      status_counts = status_counts sqlite (now -ℤ pos 86400) db3;
      hosts = hosts f state clock;
      recent = recent_requests (pos 50) (some (now -ℤ pos 3600)) db4;
      recent_speedtests = recent_speedtests (pos 20) db5;
      speedtest_running = state.speedtest.running;
      pinned = state.pinned;
      speedtest_disabled = state.pinned;
      auto_speedtest = state.auto_speedtest;
    })
