-- ===== src/Proxy/Retry.antt =====
-- proxy.rs: the attempts of `proxy_handler` at the upstream.
pub mod Consistency
pub mod Rounds
pub mod First
pub mod Bounds
pub mod Induction
pub mod Words
use xboxproxy.Prelude.{
  ℕ, zero, suc, ◌+◌, Bool, true, false, List, Option, none, some, Result, ok, err, if◌then◌else◌,
}
use xboxproxy.Float.{Float}
use xboxproxy.Net.{IpAddr}
use xboxproxy.Text.{Text}
use xboxproxy.Selector.{Selector, best_ip, mark_failure}

pub data Method : Type 0 where
  get head : Method
  other : Text → Method

-- An upstream response, with the address that the connector chose and the time to its headers.
pub record Reply : Type 0 where
  pub status : ℕ
  pub headers : List (Text × Text)
  pub chosen : Option IpAddr
  pub ttfb_ms : ℕ

-- What one attempt meets: the clock when the address is chosen and when a failure is marked, what
-- other tasks do to the selector while it waits, and the upstream's answer to the address asked for.
pub record Turn (F : Type 0) : Type 0 where
  pub chosen_at : ℕ
  pub failed_at : ℕ
  pub meanwhile : Selector F → Selector F
  pub answer : Option IpAddr → Result Text Reply

-- The local variables of the handler that the attempts write.
pub record Progress (F : Type 0) : Type 0 where
  pub selector : Selector F
  pub resp : Option Reply
  pub ttfb_ms : ℕ
  pub upstream_ip : Option IpAddr
  pub upstream_status : Option ℕ
  pub last_err : Option Text
  pub attempts : ℕ

-- `matches!(method, Method::GET | Method::HEAD)`
unfoldable pub retryable : Method → Bool
retryable get = true
retryable head = true
retryable (other m) = false

unfoldable pub max_attempts : Method → ℕ
unfolding retryable
max_attempts method = if retryable method then 3 else 1

module _ {F : Type 0} where
  unfoldable pub start : Selector F → Progress F
  start s = record {
    selector = s;
    resp = none;
    ttfb_ms = 0;
    upstream_ip = none;
    upstream_status = none;
    last_err = none;
    attempts = 0;
  }

  unfoldable pub responded : Reply → Progress F → Progress F
  responded r p = record p {
    ttfb_ms = r.ttfb_ms;
    upstream_ip = r.chosen;
    upstream_status = some r.status;
    resp = some r;
  }

  -- `if let Some(ip) = ip { mark_failure(..) }`
  unfoldable pub mark_asked : ℕ → Text → Option IpAddr → Selector F → Selector F
  mark_asked now host_name none s = s
  mark_asked now host_name (some ip) s = mark_failure s now host_name ip

  unfoldable pub attempt_failed : Turn F → Text → Option IpAddr → Text → Progress F → Progress F
  unfolding mark_asked
  attempt_failed turn host_name ip e p = record p {
    last_err = some e;
    selector = mark_asked turn.failed_at host_name ip p.selector;
  }

module _ (f : Float) (host_name : Text) (turns : ℕ → Turn f.Carrier)
    (build_req : Result Text (Unit {0})) where
  open f use {Carrier as F}

  -- The loop over `attempt in 0..max_attempts`, `left` rounds before its end.
  unfoldable pub attempt_from : ℕ → ℕ → Progress F → Progress F
  unfolding responded attempt_failed
  attempt_from zero attempt p = p
  attempt_from (suc left) attempt p =
      let turn = turns attempt in
      let ip = best_ip f p.selector turn.chosen_at host_name in
      let p1 = record p { attempts = attempt + 1 } in
      let p2 = record p1 { selector = turn.meanwhile p1.selector } in
      elim build_req [
        | err e ↦ record p1 { last_err = some e }
        | ok _ ↦ elim (turn.answer ip) [
          | ok r ↦ responded r p2
          | err e ↦ attempt_from left (attempt + 1) (attempt_failed turn host_name ip e p2)
        ]
      ]

  -- The other methods are tried once. An `err` is the message of an early return.
  unfoldable pub attempt_once : Progress F → Result Text (Progress F)
  unfolding responded attempt_failed
  attempt_once p =
      let turn = turns 0 in
      let ip = best_ip f p.selector turn.chosen_at host_name in
      let p1 = record p { attempts = 1 } in
      let p2 = record p1 { selector = turn.meanwhile p1.selector } in
      elim build_req [
        | err e ↦ err e
        | ok _ ↦ elim (turn.answer ip) [
          | ok r ↦ ok (responded r p2)
          | err e ↦ ok (attempt_failed turn host_name ip e p2)
        ]
      ]

  unfoldable pub attempts_of : Method → Selector F → Result Text (Progress F)
  unfolding attempt_from attempt_once max_attempts start
  attempts_of method s =
      if retryable method
      then ok (attempt_from (max_attempts method) 0 (start s))
      else attempt_once (start s)
