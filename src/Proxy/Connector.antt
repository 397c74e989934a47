-- ===== src/Proxy/Connector.antt =====
-- proxy.rs, `UpstreamConnector::call`: the address and the port that it connects to.
use xboxproxy.Prelude.{
  ℕ, ◌≡◌, refl, ap, ◌∙◌, [], Option, none, some, Result, ok, All, is_some, unwrap_or, get_elem?,
  if◌then◌else◌,
}
use xboxproxy.Float.{Float}
use xboxproxy.Text.{Text}
use xboxproxy.Net.{IpAddr}
use xboxproxy.Http.{Http}
use xboxproxy.Hosts.{HostDef}
use xboxproxy.Selector.{
  Selector, HostStateInner, ResolveError, index_of, host_for, upstream_port, best_ip, resolve,
}
use xboxproxy.Selector.Index.{IsNoName, host_for-index_of}
use xboxproxy.Selector.Invariant.{IsValidHost}
use xboxproxy.Selector.Routing.{resolve_managed}

upstream_port_found :
    {F : Type 0} (s : Selector F) (host : Text) (i : ℕ) (h : HostStateInner F)
    → index_of s host ≡ some i
    → get_elem? s.hosts i ≡ some h
    → upstream_port s host ≡ some h.def.upstream_port
unfolding upstream_port
upstream_port_found s host i h a b = rw (a, b)

module _ (lib : Http) (f : Float) (s : Selector f.Carrier) (now : ℕ) where
  -- `current_ip` is what the task-local `CURRENT_IP` holds.
  unfoldable pub connect_target : Option IpAddr → lib.Uri → Result ResolveError (IpAddr × ℕ)
  connect_target current_ip uri =
      let host = unwrap_or (lib.uri_host uri) [] in
      let port = unwrap_or (upstream_port s host) (unwrap_or (lib.uri_port uri) 80) in
      resolve f s now current_ip host port

  module _ (host : Text) (def : HostDef) where
    port_of_def :
        IsNoName s host → host_for s host ≡ some def → upstream_port s host ≡ some def.upstream_port
    port_of_def no_name e =
        let (i, h, a, b, same) = host_for-index_of s host def no_name e in
        upstream_port_found s host i h a b ∙ ap (λ d. some d.upstream_port) same

    -- If all groups are valid, no group is named like the URI's host, and a group's definition
    -- accepts that host, then the connector connects to the port of that definition, at the address
    -- that the task has set, or at that of `best_ip` if it has set none.
    pub connect_target_managed :
        (current_ip : Option IpAddr) (uri : lib.Uri)
        → All IsValidHost s.hosts
        → IsNoName s host
        → lib.uri_host uri ≡ some host
        → host_for s host ≡ some def
        → (ip : IpAddr) × (connect_target current_ip uri ≡ ok (ip, def.upstream_port))
          × ((if is_some current_ip then current_ip else best_ip f s now host) ≡ some ip)
    unfolding connect_target
    connect_target_managed (some ip) uri v no_name u e =
        (ip, rw (u, port_of_def no_name e) (unfold resolve in refl), refl)
    connect_target_managed none uri v no_name u e =
        let (ip, g, r) =
          resolve_managed f s now host
            (unwrap_or (upstream_port s host) (unwrap_or (lib.uri_port uri) 80)) def v no_name e in
        (ip, rw u r, g)
