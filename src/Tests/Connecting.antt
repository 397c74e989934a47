-- ===== src/Tests/Connecting.antt =====
-- A test of the connector in proxy.rs.
use xboxproxy.Prelude.{ℕ, ℤ, err, true, ◌≡◌, refl, [], ◌∷◌, none, some, ok}
use xboxproxy.Float.Scaled.{scaled}
use xboxproxy.Text.{codes, eq_ignore_ascii_case}
use xboxproxy.Net.{IpAddr}
use xboxproxy.Http.Lists.{plain_http}
use xboxproxy.Hosts.{manages, normalize_host}
use xboxproxy.Selector.{new, host_for, best_ip, resolve, index_of}
use xboxproxy.Selector.Invariant.{IsValid, new-IsValid}
use xboxproxy.Candidates.{best_candidate}
use xboxproxy.Proxy.Connector.{connect_target}
use xboxproxy.Proxy.Upstream.{Upstream, IsClient, connected, request_upstream}
use xboxproxy.Proxy.Upstream.Chosen.{request_upstream-chosen}
use xboxproxy.Tests.Data.{ip2, cdn, client_host, servers}
use xboxproxy.Net.{ip_eq}

servers_are-IsValid : IsValid (cdn ∷ []) 60 servers
unfolding new ip_eq
servers_are-IsValid = new-IsValid ℤ 60 (cdn ∷ []) ((refl, ((refl, tt), (tt, tt))), tt)

-- Every connection is made, and answered with the status 200.
abbrev network : Upstream ℕ
network = record {
  connect = λ target. connected;
  request = λ c. elim c [ ok target ↦ ok 200 | err e ↦ err (codes "no connection") ];
}

network-IsClient : IsClient network
network-IsClient = record { no_connection = λ e. (codes "no connection", refl) }

request_upstream-chosen_example :
    (ip : IpAddr) × (some ip2 ≡ some ip)
    × (best_ip scaled servers 1000 client_host ≡ some ip)
    × (network.connect (ip, 8080) ≡ connected)
unfolding host_for manages eq_ignore_ascii_case normalize_host request_upstream connect_target
    resolve best_ip index_of best_candidate
request_upstream-chosen_example =
    request_upstream-chosen plain_http scaled servers 1000 network none (client_host, codes "/game")
      client_host cdn true network-IsClient servers_are-IsValid.groups (refl, tt) refl refl refl
