-- ===== src/Dashboard/Targets.antt =====
-- dashboard.rs and speedtest.rs: a test that the dashboard starts, and the targets of its pass.
use xboxproxy.Prelude.{
  ◌≡◌, refl, sym, ap, ◌∙◌, Bool, true, false, inl, inr, List, [], ◌∷◌, Option, none, some, ok,
  is_some, unwrap_or, Option-cases, Bool-cases, some_of_is_some, if◌then◌else◌,
}
use xboxproxy.Text.{Text}
use xboxproxy.Http.{Http}
use xboxproxy.Hosts.{HostDef}
use xboxproxy.Selector.{Selector, host_for, index_of, def_for_host, live_def, defs}
use xboxproxy.Speedtest.Pass.{target_defs}
use mathlib.Core.Bool.{false≢true}
use xboxproxy.Selector.Index.{is_some-index_of, index_of-get_elem?}
use xboxproxy.Dashboard.{Reason, Reply, started, refused, wanted_url, start_test, run_speedtest}
use xboxproxy.Speedtest.Control.{SpeedTestControl, trigger, take_url}

module _ {F : Type 0} (s : Selector F) where
  def_for_host_managed :
      (host : Text)
      → is_some (host_for s host) ≡ true
      → (def : HostDef) × (def_for_host s host ≡ some def)
  unfolding def_for_host
  def_for_host_managed host e =
      let (i, a) = some_of_is_some (index_of s host) (is_some-index_of s host e) in
      let (h, b, _) = index_of-get_elem? s host i a in (live_def h, rw (a, b))

pub refused≢started : {r : Reason} → refused r ≡ started → ⊥
refused≢started e = cc

-- Only the last branch starts a test.
pub started_last :
    (a b : Bool) (r q : Reason) (c c' : SpeedTestControl) (x : Reply × SpeedTestControl)
    → (if a then (refused r, c) else if b then (refused q, c) else x) ≡ (started, c')
    → (a ≡ false) × (b ≡ false) × (x ≡ (started, c'))
started_last true b r q c c' x e = absurd (refused≢started (ap (λ p. p.0) e))
started_last false true r q c c' x e = absurd (refused≢started (ap (λ p. p.0) e))
started_last false false r q c c' x e = (refl, refl, e)

module _ (lib : Http) {F : Type 0} (s : Selector F) where
  target_found :
      (raw host : Text) (uri : lib.Uri)
      → lib.parse_uri raw ≡ some uri
      → lib.uri_host uri ≡ some host
      → is_some (host_for s host) ≡ true
      → (def : HostDef) × (target_defs lib s (some raw) ≡ ok (def ∷ [], some uri))
  unfolding target_defs
  target_found raw host uri e u m =
      let (def, d) = def_for_host_managed s host m in (def, rw (e, target_defs, u, d))

  -- The targets of the test are found.
  abbrev HasTargets : Option Text → Type 0
  HasTargets url =
      (groups : List HostDef) × (uri : Option lib.Uri) × (target_defs lib s url ≡ ok (groups, uri))

  start_test-HasTargets :
      (c c' : SpeedTestControl) (url : Option Text)
      → host_for s [] ≡ none
      → start_test lib s c url ≡ (started, c')
      → (trigger c url ≡ c') × HasTargets url
  unfolding start_test
  start_test-HasTargets c c' none n e =
      (ap (λ p. p.1) e, (defs s, none, unfold target_defs in refl))
  start_test-HasTargets c c' (some raw) n e = elim (Option-cases (lib.parse_uri raw)) [
    | inl a ↦ absurd (refused≢started (ap (λ p. p.0) (rw (a, start_test) at e)))
    | inr (uri, a) ↦ elim (Bool-cases (is_some (host_for s (unwrap_or (lib.uri_host uri) [])))) [
      | inr m ↦ absurd (refused≢started (ap (λ p. p.0) (rw (a, start_test, m) at e)))
      | inl m ↦ elim (Option-cases (lib.uri_host uri)) [
        | inl u ↦ absurd (false≢true (sym (ap is_some n) ∙ rw u at m))
        | inr (host, u) ↦
            let (def, t) = target_found raw host uri a u (rw u at m) in
            (ap (λ p. p.1) (rw (a, start_test, m) at e), (def ∷ [], some uri, t))
      ]
    ]
  ]

  -- If no group accepts the empty host name and the dashboard reports that a manual test is
  -- started, then speed testing is not disabled by a pin and no pass was running, and in the
  -- control as the request leaves it the loop is notified, `take_url` gives the trimmed URL (or
  -- none, if it was blank), and `target_defs` finds targets for that.
  pub run_speedtest-target_defs :
      (is_pinned : Bool) (c c' : SpeedTestControl) (url : Option Text)
      → host_for s [] ≡ none
      → run_speedtest lib is_pinned s c url ≡ (started, c')
      → (is_pinned ≡ false)
        × (c.running ≡ false)
        × (c'.notify ≡ true)
        × ((take_url c').0 ≡ wanted_url url)
        × ((groups : List HostDef) × (uri : Option lib.Uri) × (target_defs lib s (take_url c').0
              ≡ ok (groups, uri)))
  unfolding run_speedtest take_url trigger
  run_speedtest-target_defs is_pinned c c' url n e =
      let (a, b, last) = started_last is_pinned c.running _ _ c c' _ e in
      let (same, (groups, uri, t)) = start_test-HasTargets c c' (wanted_url url) n last in
      let taken = ap (λ k. k.pending_url) (sym same) in
      (a, b, ap (λ k. k.notify) (sym same), taken, (groups, uri, ap (target_defs lib s) taken ∙ t))
