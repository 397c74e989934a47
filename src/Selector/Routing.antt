-- ===== src/Selector/Routing.antt =====
-- selector.rs, `resolve`: the socket address of an upstream connection.
use xboxproxy.Prelude.{ℕ, ◌≡◌, ap, ◌∙◌, none, some, All, is_some, ok, err, some_of_is_some}
use xboxproxy.Float.{Float}
use xboxproxy.Net.{IpAddr}
use xboxproxy.Text.{Text}
use xboxproxy.Hosts.{HostDef}
use xboxproxy.Selector.{Selector, host_for, best_ip, resolve, not_found}
use xboxproxy.Selector.Index.{IsNoName, host_for-index_of}
use xboxproxy.Selector.Invariant.{IsValidHost}
use xboxproxy.Selector.Choice.{is_some-best_ip}

module _ (f : Float) (s : Selector f.Carrier) (now : ℕ) (host : Text) (port : ℕ) where
  -- A name that no group accepts is an error, whatever the groups hold.
  pub resolve_unmanaged :
      host_for s host ≡ none → resolve f s now none host port ≡ err (not_found host port)
  unfolding resolve
  resolve_unmanaged e = rw e

  -- If all groups are valid, no group is named like the host, and a group's definition accepts the
  -- host, then `resolve` without a preset address returns the address of `best_ip`, which there is,
  -- with the port of that definition, whatever port was asked for.
  pub resolve_managed :
      (def : HostDef)
      → All IsValidHost s.hosts
      → IsNoName s host
      → host_for s host ≡ some def
      → (ip : IpAddr) × (best_ip f s now host ≡ some ip)
        × (resolve f s now none host port ≡ ok (ip, def.upstream_port))
  unfolding resolve
  resolve_managed def v no_name e =
      let (i, h, a, b, same) = host_for-index_of s host def no_name e in
      let (ip, g) =
        some_of_is_some (best_ip f s now host) (is_some-best_ip f s now host v ∙ ap is_some a) in
      (ip, g, rw (e, g, a, b) (ap (λ d. ok (ip, d.upstream_port)) same))
