-- ===== src/Proxy/Upstream/Chosen.antt =====
-- proxy.rs: the address that is reported with a response.
use xboxproxy.Prelude.{
  ℕ, ◌≡◌, ◌≢◌, refl, sym, ap, ◌∙◌, Option, some, Result, ok, err, err≢ok, ok-injective,
  Result-cases, Bool, true, false, All, if◌then◌else◌, is_some, inl, inr,
}
use xboxproxy.Float.{Float}
use xboxproxy.Text.{Text}
use xboxproxy.Net.{IpAddr}
use xboxproxy.Http.{Http}
use xboxproxy.Hosts.{HostDef}
use xboxproxy.Selector.{Selector, host_for, best_ip}
use xboxproxy.Selector.Index.{IsNoName}
use xboxproxy.Selector.Invariant.{IsValidHost}
use xboxproxy.Proxy.Connector.{connect_target, connect_target_managed}
use xboxproxy.Proxy.Upstream.{
  Connecting, connected, failed, too_slow, ConnectError, refused, timed_out, Upstream, IsClient,
  call, request_with_ip, request_upstream,
}

module _ (lib : Http) (f : Float) (s : Selector f.Carrier) (now : ℕ) {R : Type 0} (up : Upstream R)
    (current_ip : Option IpAddr) (uri : lib.Uri) where
  open f use {Carrier as F}

  -- What the call returns, by what the network does.
  outcome : IpAddr × ℕ → Connecting → Result ConnectError (IpAddr × ℕ) × Option IpAddr
  outcome target connected = (ok target, some target.0)
  outcome target (failed m) = (err (refused m), current_ip)
  outcome target too_slow = (err timed_out, current_ip)

  call-outcome :
      (target : IpAddr × ℕ) (c : Connecting)
      → connect_target lib f s now current_ip uri ≡ ok target
      → up.connect target ≡ c
      → call lib f s now up current_ip uri ≡ outcome target c
  unfolding call outcome
  call-outcome target connected a b = rw (a, call, b) refl
  call-outcome target (failed m) a b = rw (a, call, b) refl
  call-outcome target too_slow a b = rw (a, call, b) refl

  no_response :
      (e : ConnectError) (o : Option IpAddr) (in_time : Bool) {r : R} {chosen : Option IpAddr}
      → IsClient up
      → call lib f s now up current_ip uri ≡ (err e, o)
      → request_upstream lib f s now up in_time current_ip uri ≢ ok (r, chosen)
  unfolding request_upstream request_with_ip
  no_response e o false c a h = err≢ok h
  no_response e o true c a h = let (m, failure) = c.no_connection e in err≢ok (rw (a, failure) at h)

  -- The call for a target, and the response, by what the network does.
  answered :
      (target : IpAddr × ℕ) (in_time : Bool) (c : Connecting) {r : R} {chosen : Option IpAddr}
      → IsClient up
      → connect_target lib f s now current_ip uri ≡ ok target
      → up.connect target ≡ c
      → request_upstream lib f s now up in_time current_ip uri ≡ ok (r, chosen)
      → (chosen ≡ some target.0) × (up.connect target ≡ connected)
  unfolding request_upstream request_with_ip outcome
  answered target false c client a b h = absurd (err≢ok h)
  answered target true connected client a b h = elim (Result-cases (up.request (ok target))) [
    | inr (e, d) ↦ absurd (err≢ok (rw (call-outcome target connected a b, d) at h))
    | inl (r', d) ↦ (
      sym (ap (λ x. x.1) (ok-injective (rw (call-outcome target connected a b, d) at h)))
          ∙ ap (λ x. x.1) (call-outcome target connected a b),
      b,
    )
  ]
  answered target true (failed m) client a b h =
      absurd (no_response (refused m) current_ip true client (call-outcome target _ a b) h)
  answered target true too_slow client a b h =
      absurd (no_response timed_out current_ip true client (call-outcome target _ a b) h)

  -- If the client makes no response without a connection, all groups are valid, no group is named
  -- like the URI's host, and a group's definition accepts that host, then the address that is
  -- reported with a response of the upstream is the one that was asked for, or that of `best_ip` if
  -- none was, and the connection to it, at the port of the definition, was made.
  pub request_upstream-chosen :
      (host : Text) (def : HostDef) (in_time : Bool) {r : R} {chosen : Option IpAddr}
      → IsClient up
      → All IsValidHost s.hosts
      → IsNoName s host
      → lib.uri_host uri ≡ some host
      → host_for s host ≡ some def
      → request_upstream lib f s now up in_time current_ip uri ≡ ok (r, chosen)
      → (ip : IpAddr) × (chosen ≡ some ip)
        × ((if is_some current_ip then current_ip else best_ip f s now host) ≡ some ip)
        × (up.connect (ip, def.upstream_port) ≡ connected)
  request_upstream-chosen host def in_time client v no_name u e h =
      let (ip, a, g) = connect_target_managed lib f s now host def current_ip uri v no_name u e in
      let (same, there) = answered (ip, def.upstream_port) in_time _ client a refl h in
      (ip, same, g, there)
