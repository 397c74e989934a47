-- ===== src/Db/Tables.antt =====
-- db.rs: the two tables, and the writer thread's loop over the commands. A table is the list of its
-- rows in the order of their ids; what SQLite answers to a statement is an argument.
pub mod Survivors
use xboxproxy.Prelude.{
  ℕ, ◌+◌, ℤ, pos, as_i64, leb_ℤ, Bool, true, false, List, [], ◌∷◌, ◌++◌, Option, none, some, ◌&&◌,
  select, if◌then◌else◌,
}
use mathlib.Core.Option
use xboxproxy.Text.{Text}
use xboxproxy.Db.{
  RequestRecord, SpeedTestRecord, DbCommand, insert_request, insert_speed_test, cleanup,
}

-- The columns, without the id.
pub record RequestRow (F : Type 0) : Type 0 where
  pub ts : ℤ
  pub client_ip : Text
  pub host : Text
  pub path : Text
  pub method : Text
  pub status : ℤ
  pub bytes : ℤ
  pub duration_ms : ℤ
  pub ttfb_ms : ℤ
  pub throughput_kbps : F
  pub upstream_ip : Option Text
  pub passthrough : ℤ
  pub error : Option Text

pub record SpeedTestRow (F : Type 0) : Type 0 where
  pub ts : ℤ
  pub host : Text
  pub ip : Text
  pub latency_ms : Option ℤ
  pub speed_kbps : Option F
  pub success : ℤ

-- The rows with their ids, and the id that comes next: `AUTOINCREMENT` gives no id twice.
pub record Database (F : Type 0) : Type 0 where
  pub requests : List (ℕ × RequestRow F)
  pub next_request : ℕ
  pub speedtests : List (ℕ × SpeedTestRow F)
  pub next_speedtest : ℕ

-- `b as i64`
abbrev pub bool_as_i64 : Bool → ℤ
bool_as_i64 true = pos 1
bool_as_i64 false = pos 0

-- Whether the first and the second statement of a command succeed.
abbrev pub Answers : Type 0
Answers = Bool × Bool

module _ {F : Type 0} where
  -- `CREATE TABLE IF NOT EXISTS`, on a new file.
  abbrev pub init : Database F
  init = record { requests = []; next_request = 1; speedtests = []; next_speedtest = 1 }

  -- The parameters of the two `INSERT` statements.
  unfoldable pub request_row : RequestRecord F → RequestRow F
  request_row r = record {
    ts = r.ts;
    client_ip = r.client_ip;
    host = r.host;
    path = r.path;
    method = r.method;
    status = pos r.status;
    bytes = as_i64 r.bytes;
    duration_ms = as_i64 r.duration_ms;
    ttfb_ms = as_i64 r.ttfb_ms;
    throughput_kbps = r.throughput_kbps;
    upstream_ip = r.upstream_ip;
    passthrough = bool_as_i64 r.passthrough;
    error = r.error;
  }

  -- That SQLite stores a NaN as NULL is left out: `throughput` divides by a positive number only.
  unfoldable pub speedtest_row : SpeedTestRecord F → SpeedTestRow F
  speedtest_row s = record {
    ts = s.ts;
    host = s.host;
    ip = s.ip;
    latency_ms = Option.map as_i64 s.latency_ms;
    speed_kbps = s.speed_kbps;
    success = bool_as_i64 s.success;
  }

  -- `DELETE FROM requests WHERE ts < ?1`, and the same for speed tests.
  unfoldable pub delete_requests : ℤ → Database F → Database F
  delete_requests cutoff db = record db {
    requests = select (λ row. leb_ℤ cutoff row.1.ts) db.requests;
  }

  unfoldable pub delete_speedtests : ℤ → Database F → Database F
  delete_speedtests cutoff db = record db {
    speedtests = select (λ row. leb_ℤ cutoff row.1.ts) db.speedtests;
  }

  -- One round of the loop. Both deletions are tried, and a failure changes nothing.
  unfoldable pub execute : Answers → DbCommand F → Database F → Database F
  unfolding request_row speedtest_row delete_requests delete_speedtests
  execute (first, _) (insert_request r) db =
      if first
      then record db {
        requests = db.requests ++ (db.next_request, request_row r) ∷ [];
        next_request = db.next_request + 1;
      }
      else db
  execute (first, _) (insert_speed_test s) db =
      if first
      then record db {
        speedtests = db.speedtests ++ (db.next_speedtest, speedtest_row s) ∷ [];
        next_speedtest = db.next_speedtest + 1;
      }
      else db
  execute (first, second) (cleanup cutoff) db =
      let db1 = if first then delete_requests cutoff db else db in
      if second then delete_speedtests cutoff db1 else db1

  -- The loop of `writer_loop`, until the channel is closed: the commands that came, each with what SQLite answered.
  unfoldable pub writer_loop : List (Answers × DbCommand F) → Database F → Database F
  unfolding execute
  writer_loop [] db = db
  writer_loop ((a, cmd) ∷ cmds) db = writer_loop cmds (execute a cmd db)

-- Whether SQLite prepares each of the four statements.
pub record Prepared : Type 0 where
  pub insert_req : Bool
  pub insert_st : Bool
  pub del_req : Bool
  pub del_st : Bool

-- None of the four `expect`s panics.
unfoldable pub all_prepared : Prepared → Bool
all_prepared p = p.insert_req && (p.insert_st && (p.del_req && p.del_st))

-- The whole of `writer_loop`, with its preparation: `none` is a panic, before any command is taken.
unfoldable pub writer_thread :
    {F : Type 0} → Prepared → List (Answers × DbCommand F) → Database F → Option (Database F)
unfolding writer_loop all_prepared
writer_thread p cmds db = if all_prepared p then some (writer_loop cmds db) else none
