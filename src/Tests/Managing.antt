-- ===== src/Tests/Managing.antt =====
-- Tests of dashboard.rs and main.rs: a group is pinned, and the program starts.
use xboxproxy.Prelude.{ℤ, ◌≡◌, refl, true, false, [], ◌∷◌, some, ok}
use xboxproxy.Float.Scaled.{scaled}
use xboxproxy.Text.{codes, eq_ignore_ascii_case}
use xboxproxy.Http.Lists.{plain_http}
use xboxproxy.Selector.{Selector, unknown_group, set_pinned_ip, index_of}
use xboxproxy.Hosts.{manages}
use xboxproxy.Net.{parse_ipv4}
use xboxproxy.Dashboard.{wanted_url}
use xboxproxy.Speedtest.{parse_auto_speedtest}
use xboxproxy.Endpoints.{not_present, LoadedEndpoints, load, load_bundled, load_spec, ipv4_from_env}
use xboxproxy.Dashboard.Api.{PinGroupBody, not_pinned, pin_group, wanted_ip}
use xboxproxy.Dashboard.Pins.{Outcome, IsUndone, pin_group-Outcome, pin_group-IsUndone}
use xboxproxy.Db.Tables.{init}
use xboxproxy.Db.Opening.{start}
use xboxproxy.Startup.{app_of, main, auto_from_env}
use xboxproxy.Startup.Ready.{IsReady, main-IsReady}
use xboxproxy.Tests.Data.{ip2, cdn, client_host, group, servers}
use xboxproxy.Tests.Selection.{servers-IsValid, indexed, found}
use xboxproxy.Tests.Loading.{spec}

abbrev body : PinGroupBody
body = record { name = codes "other"; ip = some (codes "2.2.2.2") }

no_such_group : (pin_group servers body).0 ≡ not_pinned (unknown_group (codes "other"))
unfolding pin_group wanted_ip wanted_url parse_ipv4 set_pinned_ip index_of manages
    eq_ignore_ascii_case
no_such_group = refl

pin_group-Outcome_example : Outcome (cdn ∷ []) 60 servers body
pin_group-Outcome_example = pin_group-Outcome (cdn ∷ []) 60 servers body servers-IsValid

pin_group-IsUndone_example :
    (pinned : Selector ℤ) × (restored : Selector ℤ) × IsUndone scaled servers client_host
      (some (codes " 2.2.2.2 "))
      (some (codes " "))
      ip2
      0
      group
      1000
      pinned
      restored
unfolding wanted_ip wanted_url parse_ipv4
pin_group-IsUndone_example =
    pin_group-IsUndone scaled servers client_host (some (codes " 2.2.2.2 ")) (some (codes " ")) ip2
      0 group 1000 (servers-IsValid.groups.0) indexed found refl refl

abbrev loaded : LoadedEndpoints
loaded = record { hosts = record cdn { name = codes "xbox-assets" } ∷ []; pinned = false }

main-IsReady_example :
    (l : LoadedEndpoints) × (load (spec ∷ []) not_present not_present ≡ ok l)
    × IsReady plain_http {F = ℤ} l (app_of loaded true init)
unfolding main start load load_bundled load_spec ipv4_from_env auto_from_env parse_auto_speedtest
main-IsReady_example =
    main-IsReady plain_http {F = ℤ} (spec ∷ []) not_present not_present not_present
      (record {
        dir_created = some true;
        opened = true;
        initialised = true;
        spawned = true;
        found = some init;
      })
      (app_of loaded true init) refl
