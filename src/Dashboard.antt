-- ===== src/Dashboard.antt =====
-- dashboard.rs: the handlers of the dashboard's requests.
pub mod Targets
pub mod Api
pub mod Pins
pub mod Overview
use mathlib.Core.Option
use xboxproxy.Prelude.{
  ℕ, Bool, true, false, not, List, [], ◌∷◌, Option, none, some, is_empty, is_some, unwrap_or,
  if◌then◌else◌,
}
use xboxproxy.Text.{Text, trim}
use xboxproxy.Http.{Http}
use xboxproxy.Speedtest.Control.{SpeedTestControl, trigger}
use xboxproxy.Selector.{Selector, host_for}

pub data Reason : Type 0 where
  pinned already_running invalid_url unknown_host : Reason

-- `{"started": true}`, or `{"started": false}` with a reason.
pub data Reply : Type 0 where
  started : Reply
  refused : Reason → Reply

-- `body.url.map(trim).filter(|s| !s.is_empty())`
unfoldable pub wanted_url : Option Text → Option Text
unfolding trim
wanted_url none = none
wanted_url (some raw) = if is_empty (trim raw) then none else some (trim raw)

module _ (lib : Http) {F : Type 0} where
  unfoldable pub start_test : Selector F → SpeedTestControl → Option Text → Reply × SpeedTestControl
  unfolding trigger
  start_test s c none = (started, trigger c none)
  start_test s c (some raw) = elim (lib.parse_uri raw) [
    | none ↦ (refused invalid_url, c)
    | some uri ↦
        if is_some (host_for s (unwrap_or (lib.uri_host uri) []))
        then (started, trigger c (some raw))
        else (refused unknown_host, c)
  ]

  -- `pinned` of the state, and the `url` of the request's body.
  unfoldable pub run_speedtest :
      Bool → Selector F → SpeedTestControl → Option Text → Reply × SpeedTestControl
  unfolding wanted_url
  run_speedtest is_pinned s c url =
      if is_pinned
      then (refused pinned, c)
      else if c.running
      then (refused already_running, c)
      else start_test s c (wanted_url url)
