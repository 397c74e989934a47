-- ===== src/Speedtest/Loop/Busy.antt =====
-- speedtest.rs: passes that nobody asked for, and a proxy that stays busy.
use xboxproxy.Prelude.{◌≤◌, ◌≡◌, refl, sym, ap, ◌∙◌, Bool, true, false, arith}
use mathlib.Core.Bool.{true≢false}
use xboxproxy.Float.{Float}
use xboxproxy.Http.{Http}
use xboxproxy.Speedtest.{SpeedTestConfig}
use xboxproxy.Speedtest.Pass.{Pass, Streams}
use xboxproxy.Speedtest.Control.{new}
use xboxproxy.Speedtest.Loop.{
  Purpose, warmup, scheduled, manual, Phase, checking, sleeping, ready, passing, between, selecting,
  notified, is_forced, after_pass, Loop, start, Move, Step, Reach,
}
use xboxproxy.Speedtest.Loop.Counting.{begun, passes, requests, passes-le}

-- The phases of a loop whose passes are all manual.
abbrev is_on_demand : Phase → Bool
is_on_demand (checking p) = false
is_on_demand (sleeping p) = false
is_on_demand (ready p) = is_forced p
is_on_demand (passing p) = is_forced p
is_on_demand (between i) = false
is_on_demand selecting = true
is_on_demand notified = true

on_demand-after_pass :
    (cfg : SpeedTestConfig) (p : Purpose)
    → is_forced p ≡ true
    → is_on_demand (after_pass cfg p) ≡ true
unfolding after_pass
on_demand-after_pass cfg (warmup i) h = absurd (true≢false (sym h))
on_demand-after_pass cfg scheduled h = absurd (true≢false (sym h))
on_demand-after_pass cfg (manual url) h = refl

-- The loop is in `wait_until_idle`, for a purpose.
abbrev pub is_waiting : Phase → Bool
is_waiting (checking p) = true
is_waiting (sleeping p) = true
is_waiting _ = false

module _ {lib : Http} {f : Float} {streams : Streams} {cfg : SpeedTestConfig} where
  open f use {Carrier as F}

  on_demand-Step :
      {st st' : Loop F} (s : Step lib f streams cfg false st st')
      → is_on_demand st.phase ≡ true
      → (is_on_demand st'.phase ≡ true) × (begun (λ p. true) s ≡ begun is_forced s)
  unfolding begun
  on_demand-Step (Step.outside pass) h = (h, refl)
  on_demand-Step (Step.ask url) h = (h, refl)
  on_demand-Step (Step.notify n e) h = (h, refl)
  on_demand-Step (Step.moved (Move.find_busy p now e b)) h =
      absurd (true≢false (sym h ∙ ap is_on_demand e))
  on_demand-Step (Step.moved (Move.find_idle p now e b)) h =
      absurd (true≢false (sym h ∙ ap is_on_demand e))
  on_demand-Step (Step.moved (Move.wake p e)) h = absurd (true≢false (sym h ∙ ap is_on_demand e))
  on_demand-Step (Step.moved (Move.begin p e)) h =
      let forced = sym (ap is_on_demand e) ∙ h in (forced, rw forced refl)
  on_demand-Step (Step.finish p env e) h =
      (on_demand-after_pass cfg p (sym (ap is_on_demand e) ∙ h), refl)
  on_demand-Step (Step.moved (Move.next_round i e)) h =
      absurd (true≢false (sym h ∙ ap is_on_demand e))
  on_demand-Step (Step.moved (Move.due e a)) h = absurd (true≢false (sym a))
  on_demand-Step (Step.moved (Move.hear e n)) h = (refl, refl)
  on_demand-Step (Step.moved (Move.take e)) h = (refl, refl)

  on_demand_run :
      (pass : Pass F) {st : Loop F} (r : Reach lib f streams cfg false (start false new pass) st)
      → (is_on_demand st.phase ≡ true) × (passes (λ p. true) r ≡ passes is_forced r)
  unfolding passes start
  on_demand_run pass Reach.stay = (refl, refl)
  on_demand_run pass (Reach.go r s) =
      let (h, e) = on_demand_run pass r in
      let (h', e') = on_demand-Step s h in (h', omega (arith, e, e'))

  -- Without automatic tests, every run of the loop from its start has at most as many passes, of
  -- any kind, as requests of the dashboard.
  passes-le-requests :
      (pass : Pass F) {st : Loop F} (r : Reach lib f streams cfg false (start false new pass) st)
      → passes (λ p. true) r ≤ requests r
  passes-le-requests pass r = omega (arith, (on_demand_run pass r).1, passes-le pass r)

module _ {lib : Http} {f : Float} {streams : Streams} {cfg : SpeedTestConfig} {auto : Bool} where
  open f use {Carrier as F}

  found_idle : {st st' : Loop F} → Step lib f streams cfg auto st st' → Bool
  found_idle (Step.moved (Move.find_idle p now e b)) = true
  found_idle _ = false

  -- Each check of a run finds the proxy busy.
  unfoldable pub AllBusy : {st st' : Loop F} → Reach lib f streams cfg auto st st' → Type 0
  unfolding found_idle
  AllBusy Reach.stay = Unit
  AllBusy (Reach.go r s) = AllBusy r × (found_idle s ≡ false)

  waiting-Step :
      {st st' : Loop F} (s : Step lib f streams cfg auto st st')
      → found_idle s ≡ false
      → is_waiting st.phase ≡ true
      → (is_waiting st'.phase ≡ true) × (begun (λ p. true) s ≡ 0)
  unfolding begun found_idle
  waiting-Step (Step.outside pass) b h = (h, refl)
  waiting-Step (Step.ask url) b h = (h, refl)
  waiting-Step (Step.notify n e) b h = (h, refl)
  waiting-Step (Step.moved (Move.find_busy p now e k)) b h = (refl, refl)
  waiting-Step (Step.moved (Move.find_idle p now e k)) b h = absurd (true≢false b)
  waiting-Step (Step.moved (Move.wake p e)) b h = (refl, refl)
  waiting-Step (Step.moved (Move.begin p e)) b h = absurd (true≢false (sym h ∙ ap is_waiting e))
  waiting-Step (Step.finish p env e) b h = absurd (true≢false (sym h ∙ ap is_waiting e))
  waiting-Step (Step.moved (Move.next_round i e)) b h =
      absurd (true≢false (sym h ∙ ap is_waiting e))
  waiting-Step (Step.moved (Move.due e a)) b h = absurd (true≢false (sym h ∙ ap is_waiting e))
  waiting-Step (Step.moved (Move.hear e n)) b h = absurd (true≢false (sym h ∙ ap is_waiting e))
  waiting-Step (Step.moved (Move.take e)) b h = absurd (true≢false (sym h ∙ ap is_waiting e))

  -- While the loop waits for an idle proxy and every check finds the proxy busy, it keeps waiting
  -- and begins no pass, whatever manual tests are requested meanwhile.
  pub passes-AllBusy :
      {st st' : Loop F} (r : Reach lib f streams cfg auto st st')
      → AllBusy r
      → is_waiting st.phase ≡ true
      → (is_waiting st'.phase ≡ true) × (passes (λ p. true) r ≡ 0)
  unfolding passes AllBusy
  passes-AllBusy Reach.stay b h = (h, refl)
  passes-AllBusy (Reach.go r s) (bs, b) h =
      let (w, e) = passes-AllBusy r bs h in
      let (w', e') = waiting-Step s b w in (w', omega (arith, e, e'))
