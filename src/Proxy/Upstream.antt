-- ===== src/Proxy/Upstream.antt =====
-- proxy.rs: a request to the upstream, from the connector's call to the address that is reported. The
-- network and hyper's client are parameters.
pub mod Chosen
use xboxproxy.Prelude.{ℕ, ◌≡◌, Option, none, some, Result, ok, err, if◌then◌else◌, Bool}
use xboxproxy.Float.{Float}
use xboxproxy.Text.{Text, codes}
use xboxproxy.Net.{IpAddr}
use xboxproxy.Http.{Http}
use xboxproxy.Selector.{Selector, ResolveError}
use xboxproxy.Proxy.Connector.{connect_target}

-- What `TcpStream::connect` leads to within the timeout.
pub data Connecting : Type 0 where
  connected : Connecting
  failed : Text → Connecting
  too_slow : Connecting

-- The error of a connection.
pub data ConnectError : Type 0 where
  unresolved : ResolveError → ConnectError
  refused : Text → ConnectError
  timed_out : ConnectError

-- The network, and what the client makes of the connection that its connector gave it.
pub record Upstream (R : Type 0) : Type 0 where
  pub connect : IpAddr × ℕ → Connecting
  pub request : Result ConnectError (IpAddr × ℕ) → Result Text R

-- Without a connection there is no response.
pub record IsClient {R : Type 0} (up : Upstream R) : Type 0 where
  pub no_connection : (e : ConnectError) → (m : Text) × (up.request (err e) ≡ err m)

module _ (lib : Http) (f : Float) (s : Selector f.Carrier) (now : ℕ) {R : Type 0}
    (up : Upstream R) where
  -- `UpstreamConnector::call`: the connection, and what `CURRENT_IP` holds after it.
  unfoldable pub call : Option IpAddr → lib.Uri → Result ConnectError (IpAddr × ℕ) × Option IpAddr
  call current_ip uri = elim (connect_target lib f s now current_ip uri) [
    | err e ↦ (err (unresolved e), current_ip)
    | ok target ↦ elim (up.connect target) [
      | connected ↦ (ok target, some target.0)
      | failed m ↦ (err (refused m), current_ip)
      | too_slow ↦ (err timed_out, current_ip)
    ]
  ]

  -- The client does not pool, so a request opens one connection.
  unfoldable pub request_with_ip : Option IpAddr → lib.Uri → Result Text R × Option IpAddr
  unfolding call
  request_with_ip pre uri =
      let (connection, chosen) = call pre uri in (up.request connection, chosen)

  -- Whether the headers come within `UPSTREAM_HEADER_TIMEOUT` is an argument.
  unfoldable pub request_upstream : Bool → Option IpAddr → lib.Uri → Result Text (R × Option IpAddr)
  unfolding request_with_ip
  request_upstream in_time pre uri =
      let (result, chosen) = request_with_ip pre uri in
      if in_time
      then elim result [ ok r ↦ ok (r, chosen) | err e ↦ err e ]
      else err (codes "upstream response header timeout")
