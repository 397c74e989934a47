-- ===== src/Hosts.antt =====
-- selector.rs: an endpoint group's definition, and the matching of a host name against the client
-- domains of a group.
pub mod Matching
use xboxproxy.Prelude.{
  ℕ, Bool, true, false, ◌||◌, List, [], ◌∷◌, Option, none, some, if◌then◌else◌, any,
}
use xboxproxy.Text.{Text, text_eq, ends_with, trim_end_matches, to_ascii_lowercase}
use xboxproxy.Net.{IpAddr}

pub record HostDef : Type 0 where
  pub name : Text
  pub domain_map : List (Text × Text)
  pub ips : List IpAddr
  pub upstream_port : ℕ
  pub test_url : Text

unfoldable pub normalize_host : Text → Text
unfolding trim_end_matches to_ascii_lowercase
normalize_host host = to_ascii_lowercase (trim_end_matches b'.' host)

-- `host == domain || host.ends_with(&format!(".{domain}"))`, the domain normalised.
unfoldable pub domain_matches : Text → Text → Bool
unfolding normalize_host text_eq ends_with
domain_matches host client_domain =
    let domain = normalize_host client_domain in
    text_eq host domain || ends_with host (b'.' ∷ domain)

-- The inner loop of `host_for` and of `index_of`.
unfoldable pub manages : Text → HostDef → Bool
unfolding domain_matches
manages host def = any (λ pair. domain_matches host pair.0) def.domain_map

-- The inner loop of `upstream_host_for`.
unfoldable pub upstream_in : Text → List (Text × Text) → Option Text
unfolding domain_matches
upstream_in host [] = none
upstream_in host ((client_domain, upstream_host) ∷ rest) =
    if domain_matches host client_domain then some upstream_host else upstream_in host rest
