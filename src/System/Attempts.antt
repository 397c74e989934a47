-- ===== src/System/Attempts.antt =====
-- proxy.rs: the attempts of the handler as a run of the program's steps.
use xboxproxy.Prelude.{ℕ, ◌≡◌, Option, none, some, Result, ok}
use xboxproxy.Float.{Float}
use xboxproxy.Text.{Text}
use xboxproxy.Net.{IpAddr}
use xboxproxy.Http.{Http}
use xboxproxy.Selector.{Selector}
use xboxproxy.Proxy.Retry.{
  Method, Turn, Progress, start, responded, mark_asked, attempt_failed, attempts_of,
}
use xboxproxy.Proxy.Retry.Rounds.{asked}
use xboxproxy.Proxy.Retry.Induction.{IsKept, attempts_of-IsKept}
use xboxproxy.Speedtest.{SpeedTestConfig}
use xboxproxy.System.{World, with_selector, Step, Reach, here, next}

module _ (lib : Http) (f : Float) (cfg : SpeedTestConfig) where
  open f use {Carrier as F}

  abbrev pub Run : World F → World F → Type 0
  Run w v = Reach lib cfg w v

  pub Run-trans : {u v w : World F} → Run u v → Run v w → Run u w
  Run-trans r here = r
  Run-trans r (next q s) = next (Run-trans r q) s

  -- While an attempt waits, the other tasks change the selector by their steps.
  abbrev pub IsMeanwhile : (ℕ → Turn F) → Type 0
  IsMeanwhile turns =
      (j : ℕ) (w : World F) → Run w (with_selector ((turns j).meanwhile w.state.selector) w)

  module _ (host : Text) (turns : ℕ → Turn F) (others : IsMeanwhile turns) (w : World F) where
    -- From one selector to another, with the rest of the world as it is.
    abbrev pub Selects : Selector F → Selector F → Type 0
    Selects s s' = Run (with_selector s w) (with_selector s' w)

    mark_asked-Selects :
        (now : ℕ) (ip : Option IpAddr) (s s' : Selector F)
        → Selects s s'
        → Selects s (mark_asked now host ip s')
    unfolding mark_asked
    mark_asked-Selects now none s s' r = r
    mark_asked-Selects now (some ip) s s' r = next r (Step.marks now host ip)

    selector-IsKept : (s : Selector F) → IsKept f host turns (λ p. Selects s p.selector)
    selector-IsKept s = record {
      answered = λ attempt p r e h.
          unfold responded in Run-trans h (others attempt (with_selector p.selector w));
      failed = λ attempt p e h.
          unfold attempt_failed in
          mark_asked-Selects (turns attempt).failed_at (asked f host turns attempt p) s _
            (Run-trans h (others attempt (with_selector p.selector w)));
      unbuilt = λ attempt p e h. h;
    }

    pub attempts_of-Selects :
        (s : Selector F) (b : Result Text (Unit {0})) (method : Method) (p : Progress F)
        → attempts_of f host turns b method s ≡ ok p
        → Selects s p.selector
    unfolding start
    attempts_of-Selects s b method p e =
        attempts_of-IsKept f host turns (λ p. Selects s p.selector) (selector-IsKept s) b method s p
          e here
