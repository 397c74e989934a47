-- ===== src/Selector/Index.antt =====
-- selector.rs: the three lookups by host name, `host_for`, `upstream_host_for` and `index_of`.
use xboxproxy.Prelude.{
  sym, ap, ◌∙◌, ℕ, zero, suc, ◌≡◌, refl, inl, inr, Bool, true, false, ◌||◌, List, [], ◌∷◌, Option,
  some, Memᴰ, All, get_elem?, is_some, arith, Bool-cases, Option-cases, if◌then◌else◌,
}
use mathlib.Core.Option
use mathlib.Core.Option.{some-injective}
use xboxproxy.Text.{Text, eq_ignore_ascii_case}
use xboxproxy.Hosts.{HostDef, normalize_host, domain_matches, manages, upstream_in}
use xboxproxy.Hosts.Matching.{upstream_in-manages, upstream_in-Memᴰ}
use xboxproxy.Selector.{
  Selector, HostStateInner, find_def, host_for, find_upstream, upstream_host_for, find_index,
  index_of,
}

module _ {F : Type 0} where
  -- The test of `index_of` on a group.
  abbrev pub is_named_or_manages : Text → HostStateInner F → Bool
  is_named_or_manages host h = eq_ignore_ascii_case h.def.name host || manages host h.def

  find_index_hit :
      (host : Text) (hs : List (HostStateInner F)) (i : ℕ)
      → find_index host hs ≡ some i
      → (h : HostStateInner F) × (get_elem? hs i ≡ some h) × (is_named_or_manages host h ≡ true)
  unfolding find_index
  find_index_hit host [] i e = absurd (ground arith)
  find_index_hit host (h ∷ hs) zero e = (h, refl, ground arith)
  find_index_hit host (h ∷ hs) (suc i) e =
      find_index_hit host hs i (later (is_named_or_manages host h) (find_index host hs) e)
    where
      later :
          (b : Bool) (o : Option ℕ)
          → (if b then some 0 else Option.map suc o) ≡ some (suc i)
          → o ≡ some i
      later b o k = ground arith

  -- `index_of` returns the position of a group that has the name or accepts it, so the indexing by
  -- it never fails.
  pub index_of-get_elem? :
      (s : Selector F) (host : Text) (i : ℕ)
      → index_of s host ≡ some i
      → (h : HostStateInner F) × (get_elem? s.hosts i ≡ some h)
        × (is_named_or_manages (normalize_host host) h ≡ true)
  unfolding index_of
  index_of-get_elem? s host i e = find_index_hit (normalize_host host) s.hosts i e

  find_upstream-find_def :
      (host : Text) (hs : List (HostStateInner F)) (up : Text)
      → find_upstream host hs ≡ some up
      → (def : HostDef) × (find_def host hs ≡ some def)
        × (client : Text) × Memᴰ (client, up) def.domain_map
        × (domain_matches host client ≡ true)
  unfolding find_upstream find_def
  find_upstream-find_def host [] up e = absurd (ground arith)
  find_upstream-find_def host (h ∷ hs) up e =
      elim (Option-cases (upstream_in host h.def.domain_map)) [
        | inl missed ↦
            let (def, found, client, m, a) =
              find_upstream-find_def host hs up (rw (missed, find_upstream) at e) in
            let other : manages host h.def ≡ false =
              sym (upstream_in-manages host h.def) ∙ ap is_some missed in
            (def, rw other found, client, m, a)
        | inr (u, found) ↦
            let same : u ≡ up = some-injective _ _ (rw (found, find_upstream) at e) in
            let here : manages host h.def ≡ true =
              sym (upstream_in-manages host h.def) ∙ ap is_some found in
            let (client, m, a) = upstream_in-Memᴰ host h.def.domain_map up (found ∙ ap some same) in
            (h.def, rw here, client, m, a)
      ]

  find_def-find_index :
      (host : Text) (hs : List (HostStateInner F)) (def : HostDef)
      → All (λ h. eq_ignore_ascii_case h.def.name host ≡ false) hs
      → find_def host hs ≡ some def
      → (i : ℕ) × (h : HostStateInner F) × (find_index host hs ≡ some i)
        × (get_elem? hs i ≡ some h)
        × (h.def ≡ def)
  unfolding find_def find_index
  find_def-find_index host [] def a e = absurd (ground arith)
  find_def-find_index host (h ∷ hs) def (n, a) e = elim (Bool-cases (manages host h.def)) [
    | inl here ↦ (0, h, rw (n, here), refl, some-injective _ _ (rw here at e))
    | inr other ↦
        let (i, g, found, at_i, same) = find_def-find_index host hs def a (rw other at e) in
        (suc i, g, rw (n, other) (ap (Option.map suc) found), at_i, same)
  ]

  is_some-find_index :
      (host : Text) (hs : List (HostStateInner F))
      → is_some (find_def host hs) ≡ true
      → is_some (find_index host hs) ≡ true
  unfolding find_def find_index
  is_some-find_index host [] e = e
  is_some-find_index host (h ∷ hs) e =
      indexed (eq_ignore_ascii_case h.def.name host) (manages host h.def) (find_def host hs)
        (find_index host hs) (is_some-find_index host hs) e
    where
      indexed :
          (a b : Bool) (o : Option HostDef) (p : Option ℕ)
          → (is_some o ≡ true → is_some p ≡ true)
          → is_some (if b then some h.def else o) ≡ true
          → is_some (if a || b then some 0 else Option.map suc p) ≡ true
      indexed true b o p f e' = refl
      indexed false true o p f e' = refl
      indexed false false o Option.none f e' = f e'
      indexed false false o (some i) f e' = refl

module _ {F : Type 0} (s : Selector F) (host : Text) where
  -- If `upstream_host_for` finds an upstream host, then `host_for` finds a definition whose domain
  -- map has that upstream host beside a client domain that accepts the name.
  upstream_host_for-host_for :
      (up : Text)
      → upstream_host_for s host ≡ some up
      → (def : HostDef) × (host_for s host ≡ some def)
        × (client : Text) × Memᴰ (client, up) def.domain_map
        × (domain_matches (normalize_host host) client ≡ true)
  unfolding upstream_host_for host_for
  upstream_host_for-host_for up e = find_upstream-find_def (normalize_host host) s.hosts up e

  -- No group is named like the host.
  abbrev pub IsNoName : Type 0
  IsNoName = All (λ h. eq_ignore_ascii_case h.def.name (normalize_host host) ≡ false) s.hosts

  -- If no group is named like the host and `host_for` finds a definition, then `index_of` finds a
  -- position, and the group there has that definition.
  pub host_for-index_of :
      (def : HostDef)
      → IsNoName
      → host_for s host ≡ some def
      → (i : ℕ) × (h : HostStateInner F) × (index_of s host ≡ some i)
        × (get_elem? s.hosts i ≡ some h)
        × (h.def ≡ def)
  unfolding host_for index_of
  host_for-index_of def a e = find_def-find_index (normalize_host host) s.hosts def a e

  pub is_some-index_of : is_some (host_for s host) ≡ true → is_some (index_of s host) ≡ true
  unfolding host_for index_of
  is_some-index_of e = is_some-find_index (normalize_host host) s.hosts e
