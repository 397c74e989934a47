-- ===== src/Tests/Loading.antt =====
-- Tests of endpoints.rs.
use xboxproxy.Prelude.{◌≡◌, ◌⊎◌, refl, true, [], ◌∷◌, ◌++◌, ok, err, All}
use xboxproxy.Text.{codes}
use xboxproxy.Selector.Invariant.{IsUsable}
use xboxproxy.Endpoints.{
  EndpointSpec, not_present, present, LoadedEndpoints, load, load_bundled, load_spec, ipv4_from_env,
  no_candidates,
}
use xboxproxy.Endpoints.Loading.{load-IsUsable}
use xboxproxy.Tests.Data.{ip2, cdn}

-- A comment line, a repeated address, and text after an address.
abbrev pub spec : EndpointSpec
spec = record {
  name = codes "xbox-assets";
  domain_map = cdn.domain_map;
  ip_list =
      codes "cdn list"
      ++ (10 ∷ codes "1.1.1.1;x" ++ (10 ∷ codes "2.2.2.2 y" ++ (13 ∷ 10 ∷ codes "1.1.1.1")));
  upstream_port = 8080;
  test_url = cdn.test_url;
}

load_spec_run : load_spec spec ≡ ok (record cdn { name = codes "xbox-assets" })
unfolding load_spec
load_spec_run = refl

load_spec_empty :
    load_spec (record spec { ip_list = codes "none" }) ≡ err (no_candidates (codes "xbox-assets"))
unfolding load_spec
load_spec_empty = refl

abbrev loaded : LoadedEndpoints
loaded = record {
  hosts = record cdn { name = codes "xbox-assets"; ips = ip2 ∷ [] } ∷ [];
  pinned = true;
}

load-IsUsable_example :
    All IsUsable loaded.hosts
    × ((loaded.pinned ≡ true) ⊎ (load_bundled (spec ∷ []) ≡ ok loaded.hosts))
unfolding load load_bundled load_spec ipv4_from_env
load-IsUsable_example =
    load-IsUsable (spec ∷ []) (present (codes " 2.2.2.2 ")) not_present loaded refl
