-- ===== src/Proxy/Headers/HostName.antt =====
-- proxy.rs, `host_name_from_header`: the name that the selector is asked for.
use xboxproxy.Prelude.{
  ◌≡◌, refl, sym, ap, ◌∙◌, false, [], ◌∷◌, none, some, arith, is_empty, Bool-cases, inl, inr,
  >>=-eq-some, guard-eq-some, if◌then◌else◌,
}
use mathlib.Core.Option.{some-injective}
use xboxproxy.Text.{Text, to_ascii_lowercase, trim_end_matches, trim_start_matches}
use xboxproxy.Http.{Http}
use xboxproxy.Hosts.{normalize_host}
use xboxproxy.Hosts.Matching.{normalize_host_idem}
use xboxproxy.Proxy.Headers.{host_name_from_header}

is_empty-to_ascii_lowercase : (s : Text) → is_empty (to_ascii_lowercase s) ≡ is_empty s
unfolding to_ascii_lowercase
is_empty-to_ascii_lowercase [] = refl
is_empty-to_ascii_lowercase (c ∷ s) = refl

-- What `normalize_host` makes of a text is normalised.
abbrev IsNormal : Text → Type 0
IsNormal r = (normalize_host r ≡ r) × (is_empty r ≡ false)

normalised :
    (t r : Text)
    → (let host = trim_end_matches b'.' t in
        if is_empty host then none else some (to_ascii_lowercase host))
      ≡ some r
    → IsNormal r
normalised t r e = elim (Bool-cases (is_empty (trim_end_matches b'.' t))) [
  | inl empty ↦ absurd (ground arith)
  | inr full ↦
      let same : normalize_host t ≡ r =
        some-injective _ _ (unfold normalize_host in (rw full at e)) in
      (
        ap normalize_host (sym same) ∙ normalize_host_idem t ∙ same,
        ap is_empty (sym same)
            ∙ unfold normalize_host in
              (is_empty-to_ascii_lowercase (trim_end_matches b'.' t) ∙ full),
      )
]

module _ (lib : Http) where
  -- Whatever the URI parser answers, a host name that is taken from a Host header is not empty and
  -- is its own normalised form.
  host_name_from_header-IsNormal :
      (header r : Text)
      → host_name_from_header lib header ≡ some r
      → (normalize_host r ≡ r) × (is_empty r ≡ false)
  unfolding host_name_from_header
  host_name_from_header-IsNormal header r e =
      let (u, _, e1) = >>=-eq-some (lib.parse_uri _) _ e in
      let (_, e2) = guard-eq-some _ _ e1 in
      let (authority, _, e3) = >>=-eq-some (lib.authority u) _ e2 in
      let (_, e4) = guard-eq-some _ _ e3 in
      let (raw, _, e5) = >>=-eq-some (lib.uri_host u) _ e4 in
      normalised (trim_end_matches b']' (trim_start_matches b'[' raw)) r e5
