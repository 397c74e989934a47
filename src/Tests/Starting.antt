-- ===== src/Tests/Starting.antt =====
-- A test of dashboard.rs: a manual speed test with a URL.
use xboxproxy.Prelude.{◌≡◌, refl, true, false, List, Option, some, ok}
use xboxproxy.Text.{Text, codes}
use xboxproxy.Http.Lists.{plain_http}
use xboxproxy.Hosts.{HostDef, manages}
use xboxproxy.Selector.{host_for}
use xboxproxy.Speedtest.Pass.{target_defs}
use xboxproxy.Dashboard.{
  refused, already_running, unknown_host, wanted_url, run_speedtest, start_test,
}
use xboxproxy.Speedtest.Control.{SpeedTestControl, new, take_url}
use xboxproxy.Dashboard.Targets.{run_speedtest-target_defs}
use xboxproxy.Tests.Data.{servers}

abbrev url : Option Text
url = some (codes " http://cdn.example.com/large ")

abbrev triggered : SpeedTestControl
triggered = record {
  notify = true;
  running = false;
  pending_url = some (codes "http://cdn.example.com/large");
  asking = 0;
}

refusals :
    ((run_speedtest plain_http false servers (record new { running = true }) url).0
      ≡ refused already_running)
    × ((run_speedtest plain_http false servers new (some (codes "http://example.org/x"))).0
        ≡ refused unknown_host)
unfolding run_speedtest start_test host_for manages
refusals = (refl, refl)

run_speedtest-target_defs_example :
    (false ≡ false)
    × (new.running ≡ false)
    × (triggered.notify ≡ true)
    × ((take_url triggered).0 ≡ wanted_url url)
    × ((groups : List HostDef) × (uri : Option plain_http.Uri) × (target_defs plain_http servers
            (take_url triggered).0
          ≡ ok (groups, uri)))
unfolding run_speedtest start_test host_for manages
run_speedtest-target_defs_example =
    run_speedtest-target_defs plain_http servers false new triggered url refl refl
