-- ===== src/Hosts/Matching.antt =====
-- selector.rs: which host names a client domain accepts.
use xboxproxy.Prelude.{
  ℕ, ◌≡◌, refl, sym, ap, ◌∙◌, ◌↔◌, ◌⊎◌, inl, inr, Bool, true, ◌||◌, List, [], ◌∷◌, ◌++◌, some,
  replicate, arith, Bool-cases, Memᴰ, is_some, any, ◌==◌,
}
use xboxproxy.Text.{Text, text_eq, ends_with, to_ascii_lowercase, trim_end_by, trim_end_matches}
use xboxproxy.Text.Equality.{text_eq_iff}
use xboxproxy.Text.Suffix.{ends_with_iff}
use xboxproxy.Text.Case.{
  to_ascii_uppercase, to_lower-eq-dot, to_ascii_lowercase_idem,
  to_ascii_lowercase-to_ascii_uppercase, trim_end_by-to_ascii_lowercase, trim_end_by_idem,
  trim_end_by-append, trim_end_matches-replicate,
}
use xboxproxy.Hosts.{HostDef, normalize_host, domain_matches, manages, upstream_in}

-- A name that was normalised stays as it is.
pub normalize_host_idem : (host : Text) → normalize_host (normalize_host host) ≡ normalize_host host
unfolding normalize_host
normalize_host_idem host =
    let t = trim_end_matches b'.' host in
    ap to_ascii_lowercase (trim_end_by-to_ascii_lowercase (λ d. _) t to_lower-eq-dot)
    ∙ to_ascii_lowercase_idem (trim_end_matches b'.' t)
    ∙ ap to_ascii_lowercase (trim_end_by_idem (λ d. _) host)

-- Upper-casing the ASCII letters of a name and adding dots at its end do not change its normalised
-- form.
normalize_host-upper_dots :
    (host : Text) (n : ℕ)
    → normalize_host (to_ascii_uppercase host ++ replicate n b'.') ≡ normalize_host host
unfolding normalize_host
normalize_host-upper_dots host n =
    ap to_ascii_lowercase (
      trim_end_by-append (λ d. d == b'.') (to_ascii_uppercase host) _
        (unfold trim_end_matches in trim_end_matches-replicate b'.' n))
    ∙ sym
        (trim_end_by-to_ascii_lowercase (λ d. d == b'.') (to_ascii_uppercase host) to_lower-eq-dot)
    ∙ ap (trim_end_by (λ d. d == b'.')) (to_ascii_lowercase-to_ascii_uppercase host)
    ∙ trim_end_by-to_ascii_lowercase (λ d. d == b'.') host to_lower-eq-dot

or_cases : (a b : Bool) → (a || b) ≡ true → (a ≡ true) ⊎ (b ≡ true)
or_cases a b h = ground arith

or_true : (a : Bool) → (a || true) ≡ true
or_true a = ground arith

-- A client domain accepts exactly its normalised form and the names that end in a dot and that
-- form.
pub domain_matches_iff :
    (host client : Text)
    → (domain_matches host client ≡ true) ↔ (
        (host ≡ normalize_host client)
        ⊎ ((label : Text) × (host ≡ label ++ (b'.' ∷ normalize_host client))))
unfolding domain_matches
domain_matches_iff host client =
    let domain = normalize_host client in
    let same = text_eq_iff host domain in
    let below = ends_with_iff host (b'.' ∷ domain) in
    (
      λ h. elim (or_cases (text_eq host domain) (ends_with host (b'.' ∷ domain)) h) [
        | inl e ↦ inl (same.0 e)
        | inr e ↦ inr (below.0 e)
      ],
      λ d. elim d [
        | inl e ↦ rw (same.1 e)
        | inr e ↦ rw (below.1 e) (or_true (text_eq host domain))
      ],
    )

-- The upstream host is that of the first pair whose domain matches.
upstream_in-any :
    (host : Text) (l : List (Text × Text))
    → is_some (upstream_in host l) ≡ any (λ pair. domain_matches host pair.0) l
unfolding upstream_in
upstream_in-any host [] = refl
upstream_in-any host ((client, up) ∷ l) = ground (arith, upstream_in-any host l)

pub upstream_in-manages :
    (host : Text) (def : HostDef) → is_some (upstream_in host def.domain_map) ≡ manages host def
unfolding manages
upstream_in-manages host def = upstream_in-any host def.domain_map

-- What is found stands in the map, under a client domain that accepts the name.
pub upstream_in-Memᴰ :
    (host : Text) (l : List (Text × Text)) (up : Text)
    → upstream_in host l ≡ some up
    → (client : Text) × Memᴰ (client, up) l × (domain_matches host client ≡ true)
unfolding upstream_in
upstream_in-Memᴰ host [] up h = absurd (ground arith)
upstream_in-Memᴰ host ((client, up') ∷ l) up h = elim (Bool-cases (domain_matches host client)) [
  | inl e ↦ (client, Memᴰ.head (ground arith), e)
  | inr e ↦ let (found, m, a) = upstream_in-Memᴰ host l up (ground arith) in (found, Memᴰ.tail m, a)
]
