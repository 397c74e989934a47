-- ===== src/System/Idle.antt =====
-- metrics.rs, speedtest.rs: the automatic passes keep out of the way of the requests.
use mathlib.Core.Bool.{true≢false}
use mathlib.Core.Option.{none-ne-some}
use xboxproxy.Prelude.{
  ℕ, suc, ◌≡◌, refl, sym, ap, ◌∙◌, Bool, true, false, List, Option, none, some, is_some, ok, arith,
}
use xboxproxy.Http.{Http}
use xboxproxy.Db.Tables.{Database}
use xboxproxy.Endpoints.{EndpointSpec, EnvVar, LoadedEndpoints}
use xboxproxy.Metrics.{MetricsStore, is_busy, busy_at}
use xboxproxy.Speedtest.{SpeedTestConfig, default_config}
use xboxproxy.Speedtest.Loop.{Purpose, Phase, checking, sleeping, Loop, Move}
use xboxproxy.Db.Opening.{Opening}
use xboxproxy.Startup.{App, main}
use xboxproxy.System.{World, launch, Step, Reach}
use xboxproxy.System.Invariant.{IsCoherent, Reach-IsCoherent}
use xboxproxy.System.Started.{main-IsCoherent}

-- What `wait_until_idle` is in front of.
abbrev pub waiting_for : Phase → Option Purpose
waiting_for (checking p) = some p
waiting_for (sleeping p) = some p
waiting_for _ = none

is_busy-active :
    {F : Type 0} (m : MetricsStore F) (now grace n : ℕ)
    → m.active_requests ≡ suc n
    → is_busy m now grace ≡ true
unfolding is_busy busy_at
is_busy-active m now grace n e = ground arith

not_waiting :
    {phase phase' : Phase}
    → phase ≡ phase'
    → is_some (waiting_for phase') ≡ false
    → is_some (waiting_for phase) ≡ true
    → ⊥
not_waiting e n h = true≢false (sym h ∙ ap (λ x. is_some (waiting_for x)) e ∙ n)

-- While a request is active the loop does not leave `wait_until_idle`.
module _ {auto : Bool} {F : Type 0} (n : ℕ) where
  Move-waiting_for :
      {st st' : Loop F}
      → Move auto st st'
      → st.pass.metrics.active_requests ≡ suc n
      → is_some (waiting_for st.phase) ≡ true
      → waiting_for st'.phase ≡ waiting_for st.phase
  Move-waiting_for (Move.find_busy p now e b) a h = sym (ap waiting_for e)
  Move-waiting_for {st} (Move.find_idle p now e b) a h =
      absurd (true≢false (sym (is_busy-active st.pass.metrics now _ n a) ∙ b))
  Move-waiting_for (Move.wake p e) a h = sym (ap waiting_for e)
  Move-waiting_for (Move.begin p e) a h = absurd (not_waiting e refl h)
  Move-waiting_for (Move.next_round i e) a h = absurd (not_waiting e refl h)
  Move-waiting_for (Move.due e b) a h = absurd (not_waiting e refl h)
  Move-waiting_for (Move.hear e b) a h = absurd (not_waiting e refl h)
  Move-waiting_for (Move.take e) a h = absurd (not_waiting e refl h)

-- The same of the task, if there is one.
abbrev pub task_waiting_for : Option Phase → Option Purpose
task_waiting_for none = none
task_waiting_for (some phase) = waiting_for phase

module _ (lib : Http) (cfg : SpeedTestConfig) {F : Type 0} where
  -- Some handler holds its guard before each step.
  unfoldable pub IsHeld : {w v : World F} → Reach lib cfg w v → Type 0
  IsHeld Reach.here = Unit
  IsHeld (Reach.next {u} r s) = IsHeld r × ((n : ℕ) × (u.guards ≡ suc n))

  Step-task_waiting_for :
      {w v : World F} (n : ℕ) (p : Purpose)
      → Step lib cfg w v
      → w.metrics.active_requests ≡ suc n
      → task_waiting_for w.task ≡ some p
      → task_waiting_for v.task ≡ some p
  Step-task_waiting_for n p (Step.begins now few) a h = h
  Step-task_waiting_for n p (Step.ends now k e) a h = h
  Step-task_waiting_for n p (Step.marks now host ip) a h = h
  Step-task_waiting_for n p (Step.records r words) a h = h
  Step-task_waiting_for n p (Step.asks url c e) a h = h
  Step-task_waiting_for n p (Step.stores_url before after url e) a h = h
  Step-task_waiting_for n p (Step.notifies k e) a h = h
  Step-task_waiting_for n p (Step.pins body ip k s b c d) a h = h
  Step-task_waiting_for n p (Step.resets before after k ip e) a h = h
  Step-task_waiting_for n p (Step.moves phase e m) a h =
      let same = sym (ap task_waiting_for e) ∙ h in Move-waiting_for n m a (ap is_some same) ∙ same
  Step-task_waiting_for n p (Step.updates q now host ip latency_ms speed_kbps success e) a h = h
  Step-task_waiting_for n p (Step.stores q r e) a h = h
  Step-task_waiting_for n p (Step.finishes q e) a h =
      absurd (none-ne-some _ (sym (ap task_waiting_for e) ∙ h))
  Step-task_waiting_for n p (Step.cleans now) a h = h
  Step-task_waiting_for n p (Step.prepares k e) a h = h
  Step-task_waiting_for n p (Step.writes k b cmd rest r q e) a h = h

  held :
      (loaded : LoadedEndpoints) (db0 : Database F) {w v : World F} (p : Purpose)
      (r : Reach lib cfg w v)
      → IsCoherent loaded cfg db0 w
      → IsHeld r
      → task_waiting_for w.task ≡ some p
      → task_waiting_for v.task ≡ some p
  unfolding IsHeld
  held loaded db0 p Reach.here i h e = e
  held loaded db0 p (Reach.next r s) i (hs, (n, g)) e =
      let coherent = Reach-IsCoherent loaded cfg db0 lib i r in
      Step-task_waiting_for n p s (coherent.guards.counted ∙ g) (held loaded db0 p r i hs e)

module _ (lib : Http) {F : Type 0} where
  -- In a started program, if the task of the speed tests waits for an idle proxy before some pass,
  -- then it still waits for that pass after every run of the program's steps before each of which
  -- some handler holds a guard, however long the run is and whatever else happens in it.
  pub IsHeld-task_waiting_for :
      (specs : List EndpointSpec) (pin_cn1 pin_cn2 auto : EnvVar) (opening : Opening F)
      (app : App F) (w v : World F) (p : Purpose) (r : Reach lib default_config w v)
      → main specs pin_cn1 pin_cn2 auto opening ≡ ok app
      → Reach lib default_config (launch app) w
      → IsHeld lib default_config r
      → task_waiting_for w.task ≡ some p
      → task_waiting_for v.task ≡ some p
  IsHeld-task_waiting_for specs pin_cn1 pin_cn2 auto opening app w v p r e before h waits =
      let (loaded, _, _, i) =
        main-IsCoherent lib specs pin_cn1 pin_cn2 auto opening app w e before in
      held lib default_config loaded app.db p r i h waits
