-- ===== src/Db.antt =====
-- db.rs: the records that are persisted and the commands of the writer thread.
pub mod Tables
pub mod Opening
pub mod Queries
use xboxproxy.Prelude.{ℕ, ◌<◌, ◌^◌, ℤ, Bool, Option}
use xboxproxy.Text.{Text}

pub record RequestRecord (F : Type 0) : Type 0 where
  pub ts : ℤ
  pub client_ip : Text
  pub host : Text
  pub path : Text
  pub method : Text
  pub status : ℕ
  pub bytes : ℕ
  pub duration_ms : ℕ
  pub ttfb_ms : ℕ
  pub throughput_kbps : F
  pub upstream_ip : Option Text
  pub passthrough : Bool
  pub error : Option Text

-- The numbers are words of the types that the struct declares: u16 and u64.
pub record HasWords {F : Type 0} (r : RequestRecord F) : Type 0 where
  pub status-lt : r.status < 2 ^ 16
  pub bytes-lt : r.bytes < 2 ^ 64
  pub duration_ms-lt : r.duration_ms < 2 ^ 64
  pub ttfb_ms-lt : r.ttfb_ms < 2 ^ 64

pub record SpeedTestRecord (F : Type 0) : Type 0 where
  pub ts : ℤ
  pub host : Text
  pub ip : Text
  pub latency_ms : Option ℕ
  pub speed_kbps : Option F
  pub success : Bool

pub data DbCommand (F : Type 0) : Type 0 where
  insert_request : RequestRecord F → DbCommand F
  insert_speed_test : SpeedTestRecord F → DbCommand F
  cleanup : ℤ → DbCommand F
