-- ===== src/Tests/Units/Serving.antt =====
-- The unit tests of proxy.rs, metrics.rs and speedtest.rs that need no parser of IPv6 hosts and no file;
-- a server's behaviour is what the measurement meets.
use xboxproxy.Prelude.{
  ℤ, pos, ◌≡◌, refl, Bool, true, false, not, ◌&&◌, [], ◌∷◌, Option, none, some, ok, err, get_elem?,
  is_some, length, ◌==◌,
}
use xboxproxy.Float.Scaled.{scaled}
use xboxproxy.Text.{Text, codes, text_eq, trim, eq_ignore_ascii_case}
use xboxproxy.Http.Lists.{plain_http}
use xboxproxy.Hosts.{manages, normalize_host, domain_matches}
use xboxproxy.Proxy.Recording.{throughput}
use xboxproxy.Metrics as Metrics
use xboxproxy.Metrics.{MetricsStore, begin_request, drop_guard, is_busy, busy_at}
use xboxproxy.Selector as Selector
use xboxproxy.Selector.{Selector, host_for, def_for_host, index_of, defs}
use xboxproxy.Proxy.Headers.{connection_tokens, should_strip_header, host_name_from_header}
use xboxproxy.Proxy.Retry.{get}
use xboxproxy.Proxy.Handler.{Request, not_found, proxy_handler}
use xboxproxy.Speedtest.{SpeedTestConfig, parse_auto_speedtest}
use xboxproxy.Speedtest.Measure.{
  headers_timed_out, responded, data_read, measure, chunk_of, read_body,
}
use xboxproxy.Speedtest.Pass.{target_defs}
use xboxproxy.Tests.Data.{ip1, ip2}
use xboxproxy.Tests.Proxying.{env}

unfoldable strips_connection_tokens : Bool
strips_connection_tokens =
    let headers =
      plain_http.insert
        (plain_http.insert plain_http.empty_map (codes "connection") (codes "keep-alive, x-test"))
        (codes "x-test") (codes "private") in
    let tokens = connection_tokens plain_http headers in
    should_strip_header (codes "x-test") tokens
    && (should_strip_header (codes "connection") tokens
        && not (should_strip_header (codes "x-safe") tokens))

unfoldable rejects_unmanaged_hosts_without_dns_resolution : Bool
rejects_unmanaged_hosts_without_dns_resolution =
    let req : Request plain_http = record {
      method = get;
      client_ip = codes "127.0.0.1";
      host_header = some (codes "unmanaged.example");
      path_and_query = some (codes "/");
      headers = (codes "host", codes "unmanaged.example") ∷ [];
    } in
    (proxy_handler plain_http scaled env (Selector.new [] 60) (Metrics.new []) req).response.status
    == 404

-- The clock stands at 1000 from the beginning of the request to the last check.
unfoldable busy_tracks_inflight_requests_and_grace_window : Bool
busy_tracks_inflight_requests_and_grace_window =
    let m = Metrics.new {F = ℤ} [] in
    let guarded = begin_request m 1000 in
    let dropped = drop_guard guarded 1000 in
    not (is_busy m 1000 60)
    && (is_busy guarded 1000 60
        && (guarded.active_requests == 1
            && (dropped.active_requests == 0
                && (is_busy dropped 1000 60 && not (is_busy dropped 1000 0)))))

abbrev test_config : SpeedTestConfig
test_config = record {
  interval_sec = 1;
  connect_timeout_ms = 500;
  read_timeout_ms = 500;
  test_chunk_bytes = 4;
  warmup_passes = 1;
  failure_penalty_sec = 60;
  max_concurrency = 1;
  busy_retry_sec = 60;
}

-- A response of status 404.
unfoldable non_success_response_is_a_failed_measurement : Bool
non_success_response_is_a_failed_measurement =
    let result = measure scaled test_config (responded false 1 [] (pos 1)) in
    not result.success && not (is_some result.speed_kbps)

-- A response of status 206 with two bytes, and then the end.
unfoldable partial_body_still_counts_as_usable : Bool
partial_body_still_counts_as_usable =
    let result = measure scaled test_config (responded true 1 ((1, data_read 2) ∷ []) (pos 1)) in
    result.success && is_some result.speed_kbps

-- No response within the timeout.
unfoldable silent_server_times_out_and_fails : Bool
silent_server_times_out_and_fails =
    let result = measure scaled test_config headers_timed_out in
    not result.success && (not (is_some result.latency_ms) && not (is_some result.speed_kbps))

unfoldable parse_auto_speedtest_defaults_on : Bool
parse_auto_speedtest_defaults_on =
    parse_auto_speedtest none
    && (parse_auto_speedtest (some (codes ""))
        && (parse_auto_speedtest (some (codes "true"))
            && (not (parse_auto_speedtest (some (codes "0")))
                && (not (parse_auto_speedtest (some (codes "false")))
                    && not (parse_auto_speedtest (some (codes "OFF")))))))

unfoldable two_groups : Selector ℤ
two_groups =
    Selector.new
      (record {
        name = codes "xbox-assets";
        domain_map =
            (codes "assets1.xboxlive.cn", codes "assets1.xboxlive.cn")
            ∷ (codes "assets2.xboxlive.cn", codes "assets2.xboxlive.cn")
            ∷ (codes "d1.xboxlive.cn", codes "assets1.xboxlive.cn")
            ∷ (codes "d2.xboxlive.cn", codes "assets2.xboxlive.cn")
            ∷ [];
        ips = ip1 ∷ [];
        upstream_port = 80;
        test_url = codes "http://assets1.xboxlive.cn/default";
      }
        ∷ record {
          name = codes "xbox-content";
          domain_map =
              (codes "dlassets.xboxlive.cn", codes "dlassets.xboxlive.cn")
              ∷ (codes "dlassets2.xboxlive.cn", codes "dlassets2.xboxlive.cn")
              ∷ [];
          ips = ip2 ∷ [];
          upstream_port = 80;
          test_url = codes "http://dlassets.xboxlive.cn/default";
        }
        ∷ [])
      60

-- The only target is the group of this name; the path of the URL, if that is asserted.
unfoldable only_target : Text → Option Text → Option Text → Bool
unfolding two_groups
only_target name path url = elim (target_defs plain_http two_groups url) [
  | err e ↦ false
  | ok (defs, uri) ↦
      length defs == 1
      && (elim (get_elem? defs 0) [ none ↦ false | some d ↦ text_eq d.name name ] && elim path [
        | none ↦ true
        | some p ↦ elim uri [ none ↦ false | some u ↦ text_eq (plain_http.uri_path u) p ]
      ])
]

unfoldable has_no_target : Text → Bool
unfolding two_groups
has_no_target url = elim (target_defs plain_http two_groups (some url)) [
  | err e ↦ true
  | ok t ↦ false
]

unfoldable test_url_selects_only_the_matching_group : Bool
unfolding two_groups only_target has_no_target
test_url_selects_only_the_matching_group =
    only_target (codes "xbox-assets") (some (codes "/Z/XXXX"))
      (some (codes "http://assets1.xboxlive.cn/Z/XXXX"))
    && (only_target (codes "xbox-content") none
          (some (codes "http://dlassets2.xboxlive.cn/public/foo"))
        && (elim (target_defs plain_http two_groups none) [
          | err e ↦ false
          | ok (defs, uri) ↦ length defs == 2 && not (is_some uri)
        ]
            && (has_no_target (codes "http://example.com/x") && has_no_target (codes "not a url"))))

serving_tests_pass :
    (strips_connection_tokens ≡ true)
    × (rejects_unmanaged_hosts_without_dns_resolution ≡ true)
    × (busy_tracks_inflight_requests_and_grace_window ≡ true)
    × (non_success_response_is_a_failed_measurement ≡ true)
    × (partial_body_still_counts_as_usable ≡ true)
    × (silent_server_times_out_and_fails ≡ true)
    × (parse_auto_speedtest_defaults_on ≡ true)
    × (test_url_selects_only_the_matching_group ≡ true)
unfolding strips_connection_tokens rejects_unmanaged_hosts_without_dns_resolution
    busy_tracks_inflight_requests_and_grace_window non_success_response_is_a_failed_measurement
    partial_body_still_counts_as_usable silent_server_times_out_and_fails
    parse_auto_speedtest_defaults_on test_url_selects_only_the_matching_group two_groups only_target
    has_no_target should_strip_header connection_tokens proxy_handler host_name_from_header host_for
    Selector.new not_found is_busy Metrics.new begin_request drop_guard measure chunk_of read_body
    throughput parse_auto_speedtest target_defs def_for_host index_of defs busy_at trim
    eq_ignore_ascii_case text_eq manages normalize_host domain_matches
serving_tests_pass = (refl, refl, refl, refl, refl, refl, refl, refl)
