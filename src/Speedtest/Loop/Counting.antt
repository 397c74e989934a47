-- ===== src/Speedtest/Loop/Counting.antt =====
-- speedtest.rs: how many passes the loop begins, and when it begins none.
use xboxproxy.Prelude.{
  ℕ, ◌+◌, ◌-◌, ◌≤◌, ◌≡◌, refl, ap, inl, inr, Bool, true, false, ltb, if◌then◌else◌, arith,
  Bool-cases,
}
use mathlib.Core.Path.{subst}
use xboxproxy.Float.{Float}
use xboxproxy.Http.{Http}
use xboxproxy.Speedtest.{SpeedTestConfig}
use xboxproxy.Speedtest.Pass.{Pass, Streams}
use xboxproxy.Speedtest.Control.{SpeedTestControl, new, store_url, notify_one, take_url}
use xboxproxy.Speedtest.Loop.{
  Purpose, warmup, scheduled, manual, Phase, checking, sleeping, ready, passing, between, selecting,
  notified, is_forced, warmup_rounds, after_pass, Loop, start, start_phase, Move, Step, Reach,
}
use xboxproxy.Speedtest.Loop.Control.{IsRound, IsInRange, Reach-IsConsistent}

abbrev pub is_warmup : Purpose → Bool
is_warmup (warmup i) = true
is_warmup _ = false

-- The passes that the loop still owes at a phase: a manual one, and rounds of the warm-up.
abbrev manual_due : Phase → ℕ
manual_due (ready p) = if is_forced p then 1 else 0
manual_due notified = 1
manual_due _ = 0

abbrev rounds_due : SpeedTestConfig → Purpose → ℕ
rounds_due cfg (warmup i) = warmup_rounds cfg - i
rounds_due cfg _ = 0

abbrev warmup_due : SpeedTestConfig → Phase → ℕ
warmup_due cfg (checking p) = rounds_due cfg p
warmup_due cfg (sleeping p) = rounds_due cfg p
warmup_due cfg (ready p) = rounds_due cfg p
warmup_due cfg (passing p) = rounds_due cfg p - 1
warmup_due cfg (between i) = warmup_rounds cfg - (i + 1)
warmup_due cfg selecting = 0
warmup_due cfg notified = 0

abbrev permit : SpeedTestControl → ℕ
permit c = if c.notify then 1 else 0

manual_due-after_pass : (cfg : SpeedTestConfig) (p : Purpose) → manual_due (after_pass cfg p) ≡ 0
unfolding after_pass
manual_due-after_pass cfg (warmup i) = elim (Bool-cases (ltb (i + 1) (warmup_rounds cfg))) [
  | inl e ↦ rw e refl
  | inr e ↦ rw e refl
]
manual_due-after_pass cfg scheduled = refl
manual_due-after_pass cfg (manual url) = refl

warmup_due-after_pass :
    (cfg : SpeedTestConfig) (p : Purpose)
    → 0 + warmup_due cfg (after_pass cfg p) ≡ warmup_due cfg (passing p)
unfolding after_pass
warmup_due-after_pass cfg (warmup i) = elim (Bool-cases (ltb (i + 1) (warmup_rounds cfg))) [
  | inl e ↦ rw e (omega arith)
  | inr e ↦ rw e (none_left (warmup_rounds cfg) e)
]
  where
    none_left : (rounds : ℕ) → ltb (i + 1) rounds ≡ false → 0 + 0 ≡ rounds - i - 1
    none_left rounds e = ground arith
warmup_due-after_pass cfg scheduled = omega arith
warmup_due-after_pass cfg (manual url) = omega arith

round_begun :
    (cfg : SpeedTestConfig) (p : Purpose)
    → IsRound cfg p
    → (if is_warmup p then 1 else 0) + warmup_due cfg (passing p) ≡ warmup_due cfg (ready p)
round_begun cfg (warmup i) h = omega (arith, h)
round_begun cfg scheduled h = omega arith
round_begun cfg (manual url) h = omega arith

start_due : (auto : Bool) → 0 + 0 + manual_due (start_phase auto) ≤ 0
start_due true = omega arith
start_due false = omega arith

start_rounds :
    (cfg : SpeedTestConfig) (auto : Bool)
    → 0 + warmup_due cfg (start_phase auto) ≡ (if auto then warmup_rounds cfg else 0)
start_rounds cfg true = omega arith
start_rounds cfg false = omega arith

module _ {lib : Http} {f : Float} {streams : Streams} {cfg : SpeedTestConfig} {auto : Bool} where
  open f use {Carrier as F}

  unfoldable asked : {st st' : Loop F} → Step lib f streams cfg auto st st' → ℕ
  asked (Step.notify n e) = 1
  asked _ = 0

  unfoldable pub begun :
      (Purpose → Bool) → {st st' : Loop F} → Step lib f streams cfg auto st st' → ℕ
  begun which (Step.moved (Move.begin p e)) = if which p then 1 else 0
  begun which _ = 0

  -- The requests of the dashboard in a run, and the passes of some kind that begin in it.
  unfoldable pub requests : {st st' : Loop F} → Reach lib f streams cfg auto st st' → ℕ
  unfolding asked
  requests Reach.stay = 0
  requests (Reach.go r s) = requests r + asked s

  unfoldable pub passes :
      (Purpose → Bool) → {st st' : Loop F} → Reach lib f streams cfg auto st st' → ℕ
  unfolding begun
  passes which Reach.stay = 0
  passes which (Reach.go r s) = passes which r + begun which s

  manual-Step :
      {st st' : Loop F} (s : Step lib f streams cfg auto st st')
      → IsInRange cfg st.phase
      → begun is_forced s + permit st'.control + manual_due st'.phase
        ≤ asked s + permit st.control + manual_due st.phase
  unfolding begun asked store_url notify_one take_url after_pass
  manual-Step (Step.outside pass) h = omega arith
  manual-Step {st} (Step.ask url) h = ground arith
  manual-Step {st} (Step.notify n e) h = ground arith
  manual-Step (Step.moved (Move.find_busy p now e b)) h = rw e (omega arith)
  manual-Step (Step.moved (Move.find_idle p now e b)) h =
      rw (e, (subst (IsInRange cfg) e h).1) (omega arith)
  manual-Step (Step.moved (Move.wake p e)) h = rw e (omega arith)
  manual-Step (Step.moved (Move.begin p e)) h = rw e (omega arith)
  manual-Step (Step.finish p env e) h = rw (e, manual_due-after_pass cfg p) (omega arith)
  manual-Step (Step.moved (Move.next_round i e)) h = rw e (omega arith)
  manual-Step (Step.moved (Move.due e a)) h = rw e (omega arith)
  manual-Step (Step.moved (Move.hear e n)) h = rw (e, n) (omega arith)
  manual-Step (Step.moved (Move.take e)) h = rw e (omega arith)

  manual_count :
      (pass : Pass F) {st : Loop F} (r : Reach lib f streams cfg auto (start auto new pass) st)
      → passes is_forced r + permit st.control + manual_due st.phase ≤ requests r
  unfolding requests passes start
  manual_count pass Reach.stay = start_due auto
  manual_count pass (Reach.go r s) = omega (
    arith,
    manual_count pass r,
    manual-Step s (Reach-IsConsistent lib f streams cfg auto pass r).in_range,
  )

  -- In every run of the loop from its start there are at most as many manual passes as requests of
  -- the dashboard.
  pub passes-le :
      (pass : Pass F) {st : Loop F} (r : Reach lib f streams cfg auto (start auto new pass) st)
      → passes is_forced r ≤ requests r
  passes-le pass r = omega (arith, manual_count pass r)

  warmup-Step :
      {st st' : Loop F} (s : Step lib f streams cfg auto st st')
      → IsInRange cfg st.phase
      → begun is_warmup s + warmup_due cfg st'.phase ≡ warmup_due cfg st.phase
  unfolding begun take_url
  warmup-Step (Step.outside pass) h = omega arith
  warmup-Step (Step.ask url) h = omega arith
  warmup-Step (Step.notify n e) h = omega arith
  warmup-Step (Step.moved (Move.find_busy p now e b)) h = rw e (omega arith)
  warmup-Step (Step.moved (Move.find_idle p now e b)) h = rw e (omega arith)
  warmup-Step (Step.moved (Move.wake p e)) h = rw e (omega arith)
  warmup-Step (Step.moved (Move.begin p e)) h = rw e (round_begun cfg p (subst (IsInRange cfg) e h))
  warmup-Step (Step.finish p env e) h = rw e (warmup_due-after_pass cfg p)
  warmup-Step (Step.moved (Move.next_round i e)) h = rw e (omega arith)
  warmup-Step (Step.moved (Move.due e a)) h = rw e (omega arith)
  warmup-Step (Step.moved (Move.hear e n)) h = rw e (omega arith)
  warmup-Step (Step.moved (Move.take e)) h = rw e (omega arith)

  warmup_count :
      (pass : Pass F) {st : Loop F} (r : Reach lib f streams cfg auto (start auto new pass) st)
      → passes is_warmup r + warmup_due cfg st.phase ≡ (if auto then warmup_rounds cfg else 0)
  unfolding passes start
  warmup_count pass Reach.stay = start_rounds cfg auto
  warmup_count pass (Reach.go r s) = omega (
    arith,
    warmup_count pass r,
    warmup-Step s (Reach-IsConsistent lib f streams cfg auto pass r).in_range,
  )

  -- Whenever the loop of a started program waits in its `select!`, the passes of the warm-up that
  -- have begun are `warmup_passes`, but at least one, if tests are automatic, and none if they are
  -- not.
  pub passes-warmup_rounds :
      (pass : Pass F) {st : Loop F} (r : Reach lib f streams cfg auto (start auto new pass) st)
      → st.phase ≡ selecting
      → passes is_warmup r ≡ (if auto then warmup_rounds cfg else 0)
  passes-warmup_rounds pass r e = omega (arith, warmup_count pass r, ap (warmup_due cfg) e)
