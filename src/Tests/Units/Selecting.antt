-- ===== src/Tests/Units/Selecting.antt =====
-- The unit tests of selector.rs.
use xboxproxy.Prelude.{
  ℕ, ℤ, pos, ◌≡◌, refl, Bool, true, false, not, ◌&&◌, List, [], ◌∷◌, Option, none, some, ok, err,
  get_elem?, is_some, length, ◌==◌,
}
use xboxproxy.Float.Scaled.{scaled}
use xboxproxy.Text.{Text, codes, text_eq, eq_ignore_ascii_case}
use xboxproxy.Net.{IpAddr, v4, ip_eq}
use xboxproxy.Hosts.{HostDef, manages, normalize_host, domain_matches}
use xboxproxy.Candidates.{
  best_candidate, update_candidates, update_candidate, fresh_candidates, pool_of, score_at, max_by,
  sort_by,
}
use xboxproxy.Selector.{
  Selector, new, update_result, mark_failure, best_ip, host_for, set_pinned_ip, snapshot, defs,
  index_of, pinned_ips, pin_host, snapshot_host,
}
use xboxproxy.Tests.Data.{ip1, ip2}

abbrev now : ℕ
now = 1000

unfoldable def : List IpAddr → HostDef
def ips = record {
  name = codes "t";
  domain_map = (codes "cdn.example.com", codes "cdn.example.com") ∷ [];
  ips = ips;
  upstream_port = 80;
  test_url = codes "http://cdn.example.com/test";
}

abbrev host : Text
host = codes "cdn.example.com"

-- `assert_eq!` on an address.
abbrev is_ip : IpAddr → Option IpAddr → Bool
is_ip ip none = false
is_ip ip (some a) = ip_eq a ip

unfoldable picks_fastest_by_speed : Bool
unfolding def
picks_fastest_by_speed =
    let s = new {F = ℤ} (def (ip1 ∷ ip2 ∷ []) ∷ []) 60 in
    let s1 = update_result s now host ip1 (some 50) (some (pos 1000)) true in
    let s2 = update_result s1 now host ip2 (some 10) (some (pos 9000)) true in
    is_ip ip2 (best_ip scaled s2 now host)

unfoldable down_candidate_is_skipped : Bool
unfolding def
down_candidate_is_skipped =
    let s = new {F = ℤ} (def (ip1 ∷ ip2 ∷ []) ∷ []) 3600 in
    let s1 = update_result s now host ip1 none (some (pos 10000)) true in
    is_ip ip2 (best_ip scaled (mark_failure s1 now host ip1) now host)

unfoldable host_suffix_match : Bool
unfolding def
host_suffix_match =
    let s = new {F = ℤ} (def (ip1 ∷ []) ∷ []) 60 in
    is_some (host_for s (codes "cdn.example.com"))
    && (is_some (host_for s (codes "dl.cdn.example.com"))
        && (not (is_some (host_for s (codes "cdn.example.com.evil.net")))
            && not (is_some (host_for s (codes "other.com")))))

unfoldable matching_is_case_insensitive_and_handles_trailing_dot : Bool
unfolding def
matching_is_case_insensitive_and_handles_trailing_dot =
    let domain_map = (codes "CDN.Example.COM", codes "cdn.example.com") ∷ [] in
    let s = new {F = ℤ} (record (def (ip1 ∷ [])) { domain_map = domain_map } ∷ []) 60 in
    is_some (host_for s (codes "DL.CDN.EXAMPLE.COM."))
    && is_ip ip1 (best_ip scaled s now (codes "CDN.EXAMPLE.COM."))

abbrev pin : IpAddr
pin = v4 9 9 9 9

-- `defs()[0].ips` and `snapshot()[0].pinned_ip`.
unfoldable first_ips : Selector ℤ → List IpAddr
first_ips s = elim (get_elem? (defs s) 0) [ none ↦ [] | some d ↦ d.ips ]

unfoldable first_pin : Selector ℤ → Option IpAddr
first_pin s = elim (get_elem? (snapshot scaled s (λ i. now)) 0) [
  | none ↦ none
  | some h ↦ h.pinned_ip
]

unfoldable dashboard_pin_replaces_candidates_and_can_restore : Bool
unfolding def first_ips first_pin
dashboard_pin_replaces_candidates_and_can_restore =
    let s = new {F = ℤ} (def (ip1 ∷ ip2 ∷ []) ∷ []) 60 in
    elim (set_pinned_ip s (codes "t") (some pin)) [
      | err e ↦ false
      | ok s1 ↦ elim (set_pinned_ip s1 (codes "t") none) [
        | err e ↦ false
        | ok s2 ↦
            is_ip pin (best_ip scaled s1 now host)
            && (is_ip pin (get_elem? (first_ips s1) 0)
                && (length (first_ips s1) == 1
                    && (is_ip pin (first_pin s1)
                        && (length (first_ips s2) == 2 && not (is_some (first_pin s2))))))
      ]
    ]

selector_tests_pass :
    (picks_fastest_by_speed ≡ true)
    × (down_candidate_is_skipped ≡ true)
    × (host_suffix_match ≡ true)
    × (matching_is_case_insensitive_and_handles_trailing_dot ≡ true)
    × (dashboard_pin_replaces_candidates_and_can_restore ≡ true)
unfolding picks_fastest_by_speed down_candidate_is_skipped host_suffix_match
    matching_is_case_insensitive_and_handles_trailing_dot
    dashboard_pin_replaces_candidates_and_can_restore first_ips first_pin new best_ip index_of
    update_result mark_failure host_for set_pinned_ip pinned_ips pin_host defs snapshot
    snapshot_host eq_ignore_ascii_case normalize_host manages domain_matches update_candidates
    update_candidate best_candidate fresh_candidates pool_of score_at max_by sort_by ip_eq text_eq
selector_tests_pass = (refl, refl, refl, refl, refl)
