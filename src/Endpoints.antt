-- ===== src/Endpoints.antt =====
-- endpoints.rs: the endpoint groups that the binary holds, their address lists, and the pins of the
-- environment. The two bundled lists are arguments, as texts.
pub mod Loading
use mathlib.Core.Option
use xboxproxy.Prelude.{
  ℕ, ◌==◌, Bool, true, false, not, ◌&&◌, ◌||◌, List, [], ◌∷◌, ◌++◌, map, Option, none, some, Result,
  ok, err, is_empty, is_some, any, update_first, if◌then◌else◌,
}
use xboxproxy.Text.{Text, codes, text_eq, trim, split_by}
use xboxproxy.Net.{IpAddr, ip_eq, parse_ip, parse_ipv4}
use xboxproxy.Hosts.{HostDef}

pub record EndpointSpec : Type 0 where
  pub name : Text
  pub domain_map : List (Text × Text)
  pub ip_list : Text
  pub upstream_port : ℕ
  pub test_url : Text

-- `ENDPOINTS`, with the two bundled lists.
abbrev pub endpoints : Text → Text → List EndpointSpec
endpoints cn1_list cn2_list =
    record {
      name = codes "xbox-assets";
      domain_map =
          (codes "assets1.xboxlive.com", codes "assets1.xboxlive.cn")
          ∷ (codes "assets2.xboxlive.com", codes "assets2.xboxlive.cn")
          ∷ (codes "d1.xboxlive.com", codes "assets1.xboxlive.cn")
          ∷ (codes "d2.xboxlive.com", codes "assets2.xboxlive.cn")
          ∷ (codes "xvcf1.xboxlive.com", codes "assets1.xboxlive.cn")
          ∷ (codes "xvcf2.xboxlive.com", codes "assets2.xboxlive.cn")
          ∷ (codes "assets1.xboxlive.cn", codes "assets1.xboxlive.cn")
          ∷ (codes "assets2.xboxlive.cn", codes "assets2.xboxlive.cn")
          ∷ (codes "d1.xboxlive.cn", codes "assets1.xboxlive.cn")
          ∷ (codes "d2.xboxlive.cn", codes "assets2.xboxlive.cn")
          ∷ [];
      ip_list = cn1_list;
      upstream_port = 80;
      test_url = codes "http://assets1.xboxlive.cn/Z/routing/extraextralarge.txt";
    }
    ∷ record {
      name = codes "xbox-content";
      domain_map =
          (codes "dlassets.xboxlive.com", codes "dlassets.xboxlive.cn")
          ∷ (codes "dlassets2.xboxlive.com", codes "dlassets2.xboxlive.cn")
          ∷ (codes "dlassets.xboxlive.cn", codes "dlassets.xboxlive.cn")
          ∷ (codes "dlassets2.xboxlive.cn", codes "dlassets2.xboxlive.cn")
          ∷ [];
      ip_list = cn2_list;
      upstream_port = 80;
      test_url =
          codes
            "http://dlassets.xboxlive.cn/public/content/1b5a4a08-06f0-49d6-b25f-d7322c11f3c8/372e2966-b158-4488-8bc8-15ef23db1379/1.5.0.1018.88cd7a5d-f56a-40c7-afd8-85cd4940b891/ACUEU771E1BF7_1.5.0.1018_x64__b6krnev7r9sf8";
    }
    ∷ []

-- What `std::env::var` answers.
pub data EnvVar : Type 0 where
  not_present not_unicode : EnvVar
  present : Text → EnvVar

pub data LoadError : Type 0 where
  no_candidates : Text → LoadError
  unreadable : Text → LoadError
  not_ipv4 : Text → Text → LoadError

pub record LoadedEndpoints : Type 0 where
  pub hosts : List HostDef
  pub pinned : Bool

abbrev pub pin_cn1_env : Text
pin_cn1_env = codes "XBOXPROXY_PIN_CN1"

abbrev pub pin_cn2_env : Text
pin_cn2_env = codes "XBOXPROXY_PIN_CN2"

-- `str::lines`: the parts before each line feed, without a final carriage return; no empty last line.
drop_last_empty : List Text → List Text
drop_last_empty [] = []
drop_last_empty ([] ∷ []) = []
drop_last_empty (s ∷ ss) = s ∷ drop_last_empty ss

strip_cr : Text → Text
strip_cr [] = []
strip_cr (c ∷ []) = if c == 13 then [] else c ∷ []
strip_cr (c ∷ d ∷ s) = c ∷ strip_cr (d ∷ s)

unfoldable pub lines : Text → List Text
unfolding split_by drop_last_empty strip_cr
lines s = map strip_cr (drop_last_empty (split_by (λ c. c == 10) s))

-- `line.split(['\t', ' ', ';']).next().unwrap_or("")`
first_part : List Text → Text
first_part [] = []
first_part (s ∷ ss) = s

unfoldable pub first_token : Text → Text
unfolding split_by first_part
first_token line = first_part (split_by (λ c. c == 9 || c == b' ' || c == b';') line)

-- The addresses of the lines that begin with one.
unfoldable pub parse_lines : List Text → List IpAddr
unfolding parse_ip first_token
parse_lines [] = []
parse_lines (line ∷ rest) =
    let ips = parse_lines rest in
    elim (parse_ip (first_token line)) [ some ip ↦ ip ∷ ips | none ↦ ips ]

unfoldable pub ip_among : List IpAddr → IpAddr → Bool
unfolding ip_eq
ip_among seen ip = any (λ a. ip_eq a ip) seen

-- `retain(|ip| seen.insert(*ip))`: the first of equal addresses stays.
unfoldable pub retain_new : List IpAddr → List IpAddr → List IpAddr
unfolding ip_among
retain_new seen [] = []
retain_new seen (ip ∷ ips) =
    let rest = retain_new (ip ∷ seen) ips in
    let skipped = retain_new seen ips in if ip_among seen ip then skipped else ip ∷ rest

unfoldable pub load_spec : EndpointSpec → Result LoadError HostDef
unfolding parse_lines lines retain_new
load_spec spec =
    let ips = retain_new [] (parse_lines (lines spec.ip_list)) in
    if is_empty ips
    then err (no_candidates spec.name)
    else ok (record {
      name = spec.name;
      domain_map = spec.domain_map;
      ips = ips;
      upstream_port = spec.upstream_port;
      test_url = spec.test_url;
    })

-- `collect` into a `Result`: the first error, or all definitions.
unfoldable pub load_bundled : List EndpointSpec → Result LoadError (List HostDef)
load_bundled [] = ok []
load_bundled (spec ∷ specs) = elim (load_spec spec) [
  | err e ↦ err e
  | ok def ↦ elim (load_bundled specs) [ err e ↦ err e | ok defs ↦ ok (def ∷ defs) ]
]

unfoldable pub ipv4_from_env : Text → EnvVar → Result LoadError (Option IpAddr)
unfolding trim parse_ipv4
ipv4_from_env name not_present = ok none
ipv4_from_env name not_unicode = err (unreadable name)
ipv4_from_env name (present value) =
    let raw = trim value in
    if is_empty raw
    then ok none
    else elim (parse_ipv4 raw) [ none ↦ err (not_ipv4 name raw) | some ip ↦ ok (some ip) ]

unfoldable pub pin_group : List HostDef → Text → IpAddr → List HostDef
unfolding text_eq
pin_group hosts name ip =
    update_first (λ h. text_eq h.name name) (λ h. record h { ips = ip ∷ [] }) hosts

pin_if : List HostDef → Text → Option IpAddr → List HostDef
unfolding pin_group
pin_if hosts name none = hosts
pin_if hosts name (some ip) = pin_group hosts name ip

abbrev pub xbox_assets : Text
xbox_assets = codes "xbox-assets"

abbrev pub xbox_content : Text
xbox_content = codes "xbox-content"

-- `load`, with the two variables as they are read.
unfoldable pub load : List EndpointSpec → EnvVar → EnvVar → Result LoadError LoadedEndpoints
unfolding pin_if
load specs var1 var2 = elim (load_bundled specs) [
  | err e ↦ err e
  | ok hosts ↦ elim (ipv4_from_env pin_cn1_env var1) [
    | err e ↦ err e
    | ok cn1 ↦ elim (ipv4_from_env pin_cn2_env var2) [
      | err e ↦ err e
      | ok cn2 ↦ ok (record {
        hosts = pin_if (pin_if hosts xbox_assets cn1) xbox_content cn2;
        pinned = is_some cn1 || is_some cn2;
      })
    ]
  ]
]
