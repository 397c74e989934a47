-- ===== src/Tests/Data.antt =====
-- The inputs of the tests: one group with two addresses, and its selector.
use xboxproxy.Prelude.{ℤ, ◌≡◌, refl, [], ◌∷◌, none, false}
use xboxproxy.Text.{Text, codes}
use xboxproxy.Net.{IpAddr, v4}
use xboxproxy.Hosts.{HostDef}
use xboxproxy.Candidates.{CandidateState}
use xboxproxy.Selector.{Selector, HostStateInner, new}

abbrev pub ip1 : IpAddr
ip1 = v4 1 1 1 1

abbrev pub ip2 : IpAddr
ip2 = v4 2 2 2 2

abbrev pub cdn : HostDef
cdn = record {
  name = codes "cdn";
  domain_map = (codes "cdn.example.com", codes "origin.example.cn") ∷ [];
  ips = ip1 ∷ ip2 ∷ [];
  upstream_port = 8080;
  test_url = codes "http://origin.example.cn/large";
}

abbrev pub client_host : Text
client_host = codes "cdn.example.com"

abbrev pub candidate : IpAddr → CandidateState ℤ
candidate ip = record {
  ip = ip;
  latency_ms = none;
  speed_kbps = none;
  last_ok_ts = 0;
  last_fail_ts = 0;
  fails = 0;
  down = false;
}

abbrev pub group : HostStateInner ℤ
group = record {
  def = cdn;
  bundled_ips = ip1 ∷ ip2 ∷ [];
  pinned_ip = none;
  candidates = candidate ip1 ∷ candidate ip2 ∷ [];
}

-- What `new` makes of the group, with a penalty of 60 seconds.
abbrev pub servers : Selector ℤ
servers = record { hosts = group ∷ []; failure_penalty = 60 }

servers-new : new (cdn ∷ []) 60 ≡ servers
unfolding new
servers-new = refl
