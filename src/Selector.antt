-- ===== src/Selector.antt =====
-- selector.rs: the candidates of each endpoint group and the choice among them. What the code keeps
-- behind `Arc` and `RwLock` is a value here: an operation that writes returns the new selector. Each
-- reading of the clock is an argument, `now`.

pub mod Index
pub mod Writes
pub mod Choice
pub mod Failover
pub mod Pins
pub mod Routing
pub mod Snapshot
pub mod Invariant
pub mod Interleaving
use mathlib.Core.Option
use xboxproxy.Prelude.{
  ℕ, suc, ◌-◌, ◌^◌, Bool, false, ◌||◌, List, [], ◌∷◌, map, Option, none, some, Result, ok, err,
  get_elem?, modify, is_empty, is_some, unwrap_or, if◌then◌else◌, ◌>>=◌,
}
use xboxproxy.Float.{Float}
use xboxproxy.Text.{Text, eq_ignore_ascii_case}
use xboxproxy.Net.{IpAddr}
use xboxproxy.Candidates.{
  CandidateState, fresh_candidates, candidate_ips, update_candidate, update_candidates,
  refresh_down, score_at, compare_scores, best_candidate, sort_by,
}
use xboxproxy.Hosts.{HostDef, normalize_host, manages, upstream_in}

pub record HostState (F : Type 0) : Type 0 where
  pub name : Text
  pub domains : List Text
  pub upstream_port : ℕ
  pub candidates : List (CandidateState F)
  pub pinned_ip : Option IpAddr

pub record HostStateInner (F : Type 0) : Type 0 where
  pub def : HostDef
  pub bundled_ips : List IpAddr
  pub pinned_ip : Option IpAddr
  pub candidates : List (CandidateState F)

-- `failure_penalty` is in seconds.
pub record Selector (F : Type 0) : Type 0 where
  pub hosts : List (HostStateInner F)
  pub failure_penalty : ℕ

-- The errors of `set_pinned_ip`, and of `resolve`.
pub data PinError : Type 0 where
  unknown_group no_ips_to_restore : Text → PinError

pub data ResolveError : Type 0 where
  not_found : Text → ℕ → ResolveError

abbrev pub usize_max : ℕ
usize_max = 2 ^ 64 - 1

-- The addresses that a pin leaves a group with, or the bundled ones.
unfoldable pub pinned_ips : Option IpAddr → List IpAddr → List IpAddr
pinned_ips (some ip) bundled = ip ∷ []
pinned_ips none bundled = bundled

module _ {F : Type 0} where
  unfoldable pub new : List HostDef → ℕ → Selector F
  unfolding fresh_candidates
  new defs failure_penalty = record {
    hosts =
        map
          (λ def. record {
            def = def;
            bundled_ips = def.ips;
            pinned_ip = none;
            candidates = fresh_candidates def.ips;
          })
          defs;
    failure_penalty = failure_penalty;
  }

  find_def : Text → List (HostStateInner F) → Option HostDef
  find_def host [] = none
  find_def host (h ∷ hs) = if manages host h.def then some h.def else find_def host hs

  unfoldable pub host_for : Selector F → Text → Option HostDef
  unfolding find_def
  host_for s host = find_def (normalize_host host) s.hosts

  find_upstream : Text → List (HostStateInner F) → Option Text
  find_upstream host [] = none
  find_upstream host (h ∷ hs) = elim (upstream_in host h.def.domain_map) [
    | some upstream_host ↦ some upstream_host
    | none ↦ find_upstream host hs
  ]

  unfoldable pub upstream_host_for : Selector F → Text → Option Text
  unfolding find_upstream
  upstream_host_for s host = find_upstream (normalize_host host) s.hosts

  find_index : Text → List (HostStateInner F) → Option ℕ
  find_index host [] = none
  find_index host (h ∷ hs) =
      if eq_ignore_ascii_case h.def.name host || manages host h.def
      then some 0
      else Option.map suc (find_index host hs)

  unfoldable pub index_of : Selector F → Text → Option ℕ
  unfolding find_index
  index_of s host = find_index (normalize_host host) s.hosts

  unfoldable pub upstream_port : Selector F → Text → Option ℕ
  upstream_port s host = do i ← index_of s host; h ← get_elem? s.hosts i; some h.def.upstream_port

  unfoldable pub update_result :
      Selector F → ℕ → Text → IpAddr → Option ℕ → Option F → Bool → Selector F
  update_result s now host ip latency_ms speed_kbps success = elim (index_of s host) [
    | none ↦ s
    | some i ↦ record s {
      hosts = modify s.hosts i (λ h. record h {
        candidates =
            update_candidates ip
              (update_candidate latency_ms speed_kbps success now s.failure_penalty) h.candidates;
      });
    }
  ]

  unfoldable pub mark_failure : Selector F → ℕ → Text → IpAddr → Selector F
  mark_failure s now host ip = update_result s now host ip none none false

  -- The two writes of `set_pinned_ip`, each under its own lock.
  unfoldable pub write_pin : Option IpAddr → HostStateInner F → HostStateInner F
  write_pin ip h = record h { pinned_ip = ip }

  unfoldable pub write_candidates : Option IpAddr → HostStateInner F → HostStateInner F
  unfolding fresh_candidates pinned_ips
  write_candidates ip h = record h { candidates = fresh_candidates (pinned_ips ip h.bundled_ips) }

  unfoldable pub pin_host : Option IpAddr → HostStateInner F → HostStateInner F
  unfolding write_pin write_candidates
  pin_host ip h = write_candidates ip (write_pin ip h)

  -- `get_elem?` finds what `index_of` found: see `Selector.Index`.
  unfoldable pub set_pinned_ip : Selector F → Text → Option IpAddr → Result PinError (Selector F)
  set_pinned_ip s name ip = elim (index_of s name) [
    | none ↦ err (unknown_group name)
    | some i ↦ elim (get_elem? s.hosts i) [
      | none ↦ err (unknown_group name)
      | some h ↦
          if is_empty (pinned_ips ip h.bundled_ips)
          then err (no_ips_to_restore name)
          else ok (record s { hosts = modify s.hosts i (pin_host ip) })
    ]
  ]

  -- The definition with the candidates of the moment.
  abbrev pub live_def : HostStateInner F → HostDef
  live_def h = record h.def { ips = candidate_ips h.candidates }

  unfoldable pub def_for_host : Selector F → Text → Option HostDef
  def_for_host s host = do i ← index_of s host; h ← get_elem? s.hosts i; some (live_def h)

  unfoldable pub defs : Selector F → List HostDef
  defs s = map live_def s.hosts

-- What `score_at` and the functions that rank by it need of `f64`.
module _ (f : Float) where
  open f use {Carrier as F}

  unfoldable pub best_ip : Selector F → ℕ → Text → Option IpAddr
  best_ip s now host = do
    i ← index_of s host
    h ← get_elem? s.hosts i
    if is_empty h.candidates
        then none
        else Option.map (λ c. c.ip) (best_candidate f now s.failure_penalty h.candidates)

  -- `current_ip` is what the task-local `CURRENT_IP` holds, if it is set.
  unfoldable pub resolve :
      Selector F → ℕ → Option IpAddr → Text → ℕ → Result ResolveError (IpAddr × ℕ)
  resolve s now (some ip) host port = ok (ip, port)
  resolve s now none host port =
      if is_some (host_for s host)
      then elim (best_ip s now host) [
        | some ip ↦ ok (
          ip,
          unwrap_or
              (Option.map (λ h. h.def.upstream_port)
                (get_elem? s.hosts (unwrap_or (index_of s host) usize_max)))
              port,
        )
        | none ↦ err (not_found host port)
      ]
      else err (not_found host port)

  unfoldable pub snapshot_host : ℕ → ℕ → HostStateInner F → HostState F
  unfolding sort_by score_at
  snapshot_host now penalty h = record {
    name = h.def.name;
    domains = map (λ pair. pair.0) h.def.domain_map;
    upstream_port = h.def.upstream_port;
    candidates =
        sort_by (λ a b. compare_scores f now penalty b a)
          (map (refresh_down now penalty) h.candidates);
    pinned_ip = h.pinned_ip;
  }

  -- The clock is read once for each group: `clock i` for the group at `i`.
  snapshot_from : (ℕ → ℕ) → ℕ → ℕ → List (HostStateInner F) → List (HostState F)
  unfolding snapshot_host
  snapshot_from clock i penalty [] = []
  snapshot_from clock i penalty (h ∷ hs) =
      snapshot_host (clock i) penalty h ∷ snapshot_from clock (suc i) penalty hs

  unfoldable pub snapshot : Selector F → (ℕ → ℕ) → List (HostState F)
  unfolding snapshot_from
  snapshot s clock = snapshot_from clock 0 s.failure_penalty s.hosts
