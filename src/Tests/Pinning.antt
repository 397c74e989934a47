-- ===== src/Tests/Pinning.antt =====
-- Tests of dashboard.rs: the handlers that write, alone, and two that overlap.
use xboxproxy.Prelude.{refl, ℤ, false, [], ◌∷◌, Option, none, some}
use xboxproxy.Float.Scaled.{scaled}
use xboxproxy.Text.{Text, codes, eq_ignore_ascii_case}
use xboxproxy.Net.{parse_ipv4}
use xboxproxy.Http.Lists.{plain_http}
use xboxproxy.Hosts.{manages}
use xboxproxy.Db.Tables.{init}
use xboxproxy.Selector.{
  HostStateInner, index_of, set_pinned_ip, pin_host, write_pin, write_candidates,
}
use xboxproxy.Candidates.{fresh_candidates}
use xboxproxy.Speedtest.{default_config}
use xboxproxy.Speedtest.Control.{new}
use xboxproxy.Dashboard.{wanted_url}
use xboxproxy.Dashboard.Api.{PinGroupBody, wanted_ip}
use xboxproxy.System.{World, with_selector, Step, here, next}
use xboxproxy.System.Attempts.{Run}
use xboxproxy.Tests.Data.{ip1, ip2, candidate, group, servers}
use xboxproxy.Tests.Proxying.{store}

abbrev world : World ℤ
world = record {
  state = record { selector = servers; speedtest = new; pinned = false; auto_speedtest = false };
  metrics = store;
  task = none;
  guards = 0;
  asked = [];
  pinning = [];
  prepared = none;
  executed = [];
  db = init;
}

abbrev url : Option Text
url = some (codes " http://cdn.example.com/large ")

abbrev body : Text → PinGroupBody
body ip = record { name = codes "cdn"; ip = some ip }

-- Two requests pin the group: the second writes between the two writes of the first.
abbrev mixed : HostStateInner ℤ
mixed = record group { pinned_ip = some ip2; candidates = candidate ip1 ∷ [] }

overlapping :
    Run plain_http scaled default_config world
      (with_selector (record servers { hosts = mixed ∷ [] }) world)
unfolding wanted_ip wanted_url parse_ipv4 index_of manages eq_ignore_ascii_case set_pinned_ip
    pin_host write_pin write_candidates fresh_candidates
overlapping =
    next
      (next
        (next (next here (Step.pins (body (codes "1.1.1.1")) (some ip1) 0 _ refl refl refl))
          (Step.pins (body (codes "2.2.2.2")) (some ip2) 0 _ refl refl refl))
        (Step.resets [] ((0, some ip1) ∷ []) 0 (some ip2) refl))
      (Step.resets [] [] 0 (some ip1) refl)
