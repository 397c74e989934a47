-- ===== src/Tests/Selection.antt =====
-- Tests of selector.rs.
use xboxproxy.Prelude.{
  ℤ, ◌≡◌, ◌≢◌, refl, ◌↔◌, true, [], ◌∷◌, none, some, ok, Memᴰ, All, get_elem?, arith, modify, ◌+◌,
  ◌⊎◌, ◌++◌,
}
use xboxproxy.Float.Scaled.{scaled, scaled-IsIeee}
use xboxproxy.Text.{Text, codes, eq_ignore_ascii_case}
use xboxproxy.Net.{IpAddr, ip_eq}
use xboxproxy.Hosts.{manages, domain_matches, normalize_host}
use xboxproxy.Hosts.Matching.{domain_matches_iff}
use xboxproxy.Candidates.{best_candidate}
use xboxproxy.Candidates.Updates.{IsDistinct}
use xboxproxy.Selector.{
  HostState, new, index_of, host_for, best_ip, mark_failure, update_result, set_pinned_ip, resolve,
  snapshot, pin_host, pinned_ips,
}
use xboxproxy.Selector.Index.{IsNoName}
use xboxproxy.Selector.Invariant.{
  IsUsable, IsValid, here, next, updated, pinned, new-IsValid, Reach-IsValid,
}
use xboxproxy.Selector.Choice.{IsBest, best_ip-IsBest}
use xboxproxy.Selector.Failover.{best_ip-mark_failure}
use xboxproxy.Selector.Routing.{resolve_managed}
use xboxproxy.Selector.Snapshot.{IsSnapshot, snapshot-IsSnapshot}
use xboxproxy.Tests.Data.{ip1, ip2, cdn, client_host, candidate, group, servers}

cdn_ips-IsDistinct : IsDistinct (ip1 ∷ ip2 ∷ [])
unfolding ip_eq
cdn_ips-IsDistinct = ((refl, tt), (tt, tt))

cdn_defs-IsUsable : All IsUsable (cdn ∷ [])
cdn_defs-IsUsable = ((refl, cdn_ips-IsDistinct), tt)

pub servers-IsValid : IsValid (cdn ∷ []) 60 servers
unfolding new
servers-IsValid = new-IsValid ℤ 60 (cdn ∷ []) cdn_defs-IsUsable

pub indexed : index_of servers client_host ≡ some 0
unfolding index_of manages eq_ignore_ascii_case
indexed = refl

pub found : get_elem? servers.hosts 0 ≡ some group
found = refl

hosted : host_for servers client_host ≡ some cdn
unfolding host_for manages
hosted = refl

no_name : IsNoName servers client_host
unfolding eq_ignore_ascii_case normalize_host
no_name = (refl, tt)

best_ip-mark_failure_example :
    (ip' : IpAddr) × (best_ip scaled (mark_failure servers 1000 client_host ip1) 1010 client_host
      ≡ some ip')
    × (ip' ≢ ip1)
unfolding ip_eq
best_ip-mark_failure_example =
    best_ip-mark_failure scaled servers 1000 1010 client_host ip1 0 group (candidate ip2) indexed
      found cdn_ips-IsDistinct (omega arith) (Memᴰ.tail (Memᴰ.head refl)) refl refl

best_ip-IsBest_example : IsBest scaled servers 1000 client_host ip2
unfolding best_ip index_of manages eq_ignore_ascii_case best_candidate
best_ip-IsBest_example =
    best_ip-IsBest scaled servers 1000 client_host ip2 scaled-IsIeee ((refl, (refl, tt)), tt) refl

Reach-IsValid_example :
    IsValid (cdn ∷ []) 60 (record (update_result servers 1000 client_host ip1 (some 20) none true) {
      hosts =
          modify
            (update_result servers 1000 client_host ip1 (some 20) none true).hosts
            0
            (pin_host (some ip2));
    })
unfolding set_pinned_ip update_result index_of manages eq_ignore_ascii_case pinned_ips
Reach-IsValid_example = Reach-IsValid (cdn ∷ []) 60 servers-IsValid (
    next (next here (updated servers 1000 client_host ip1 (some 20) none true)) (
      pinned (update_result servers 1000 client_host ip1 (some 20) none true) _ (codes "cdn")
        (some ip2) refl))

resolve_managed_example :
    (ip : IpAddr) × (best_ip scaled servers 1000 client_host ≡ some ip)
    × (resolve scaled servers 1000 none client_host 80 ≡ ok (ip, 8080))
resolve_managed_example =
    resolve_managed scaled servers 1000 client_host 80 cdn servers-IsValid.groups no_name hosted

snapshot-IsSnapshot_example :
    (shown : HostState ℤ) × (get_elem? (snapshot scaled servers (λ i. 1000 + i)) 0 ≡ some shown)
    × IsSnapshot scaled 1000 60 group shown
snapshot-IsSnapshot_example =
    snapshot-IsSnapshot scaled servers (λ i. 1000 + i) 0 group scaled-IsIeee (refl, (refl, tt))
      found

domain_matches_iff_example :
    (domain_matches (codes "a.cdn.example.com") (codes "CDN.example.com.") ≡ true) ↔ (
      (codes "a.cdn.example.com" ≡ normalize_host (codes "CDN.example.com."))
      ⊎ ((label : Text) × (codes "a.cdn.example.com"
            ≡ label ++ (b'.' ∷ normalize_host (codes "CDN.example.com.")))))
domain_matches_iff_example =
    domain_matches_iff (codes "a.cdn.example.com") (codes "CDN.example.com.")
