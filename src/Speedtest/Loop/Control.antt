-- ===== src/Speedtest/Loop/Control.antt =====
-- speedtest.rs: the running flag, the warm-up and the pending URL while the loop runs.
use mathlib.Core.Path.{subst}
use mathlib.Core.Option.{none-ne-some}
use mathlib.Core.Bool.{true≢false}
use xboxproxy.Prelude.{
  ℕ, ◌+◌, ◌<◌, ◌≡◌, refl, sym, ap, ◌∙◌, ◌⊎◌, inl, inr, Bool, true, false, Option, some, ltb, arith,
  Bool-cases,
}
use xboxproxy.Float.{Float}
use xboxproxy.Http.{Http}
use xboxproxy.Text.{Text}
use xboxproxy.Speedtest.{SpeedTestConfig}
use xboxproxy.Speedtest.Pass.{Pass, Streams}
use xboxproxy.Speedtest.Control.{new, store_url, notify_one, take_url}
use xboxproxy.Speedtest.Loop.{
  Purpose, warmup, scheduled, manual, Phase, checking, sleeping, ready, passing, between, selecting,
  notified, is_forced, warmup_rounds, after_pass, Loop, start, set_running, Move, Step, Reach,
}

abbrev pub is_passing : Phase → Bool
is_passing (passing p) = true
is_passing _ = false

abbrev pub IsRound : SpeedTestConfig → Purpose → Type 0
IsRound cfg (warmup i) = i < warmup_rounds cfg
IsRound cfg scheduled = Unit
IsRound cfg (manual url) = Unit

-- Rounds of the warm-up are numbered below their number, and one is left after the sleep between two.
abbrev pub IsInRange : SpeedTestConfig → Phase → Type 0
IsInRange cfg (checking p) = IsRound cfg p × (is_forced p ≡ false)
IsInRange cfg (sleeping p) = IsRound cfg p × (is_forced p ≡ false)
IsInRange cfg (ready p) = IsRound cfg p
IsInRange cfg (passing p) = IsRound cfg p
IsInRange cfg (between i) = i + 1 < warmup_rounds cfg
IsInRange cfg selecting = Unit
IsInRange cfg notified = Unit

ltb-lt : (a b : ℕ) → ltb a b ≡ true → a < b
ltb-lt a b h = ground arith

rounds_pos : (cfg : SpeedTestConfig) → 0 < warmup_rounds cfg
rounds_pos cfg = ground arith

abbrev is_notified : Phase → Bool
is_notified notified = true
is_notified _ = false

after_pass-IsInRange :
    (cfg : SpeedTestConfig) (p : Purpose)
    → IsRound cfg p
    → IsInRange cfg (after_pass cfg p) × (is_passing (after_pass cfg p) ≡ false)
unfolding after_pass
after_pass-IsInRange cfg (warmup i) h = elim (Bool-cases (ltb (i + 1) (warmup_rounds cfg))) [
  | inl e ↦ rw e (ltb-lt _ _ e, refl)
  | inr e ↦ rw e (tt, refl)
]
after_pass-IsInRange cfg scheduled h = (tt, refl)
after_pass-IsInRange cfg (manual url) h = (tt, refl)

still_heard : {A B C : Type 0} → A ⊎ C → A ⊎ (B ⊎ C)
still_heard (inl a) = inl a
still_heard (inr c) = inr (inr c)

module _ {F : Type 0} where
  -- The flag tells whether a pass runs, and no URL waits of which the loop is not told, or being told.
  pub record IsConsistent (cfg : SpeedTestConfig) (st : Loop F) : Type 0 where
    pub running : st.control.running ≡ is_passing st.phase
    pub in_range : IsInRange cfg st.phase
    pub heard :
        {url : Text}
        → st.control.pending_url ≡ some url
        → (st.control.notify ≡ true) ⊎ ((st.phase ≡ notified) ⊎ (0 < st.control.asking))

  waiting_url :
      (cfg : SpeedTestConfig) (st : Loop F) (phase : Phase)
      → IsConsistent cfg st
      → st.phase ≡ phase
      → is_notified phase ≡ false
      → {url : Text} → st.control.pending_url ≡ some url
      → (st.control.notify ≡ true) ⊎ (0 < st.control.asking)
  waiting_url cfg st phase inv e n u = elim (inv.heard u) [
    | inl h ↦ inl h
    | inr (inr h) ↦ inr h
    | inr (inl h) ↦ absurd (true≢false (sym (ap is_notified h) ∙ ap is_notified e ∙ n))
  ]

  -- A step that leaves the control alone and neither begins nor ends a pass.
  moved :
      (cfg : SpeedTestConfig) (st : Loop F) (phase phase' : Phase)
      → IsConsistent cfg st
      → st.phase ≡ phase
      → is_notified phase ≡ false
      → is_passing phase ≡ is_passing phase'
      → IsInRange cfg phase'
      → IsConsistent cfg (record st { phase = phase' })
  moved cfg st phase phase' inv e n same r = record {
    running = inv.running ∙ ap is_passing e ∙ same;
    in_range = r;
    heard = λ u. still_heard (waiting_url cfg st phase inv e n u);
  }

  pub start-IsConsistent :
      (cfg : SpeedTestConfig) (auto : Bool) (pass : Pass F) → IsConsistent cfg (start auto new pass)
  unfolding start
  start-IsConsistent cfg true pass = record {
    running = refl;
    in_range = (rounds_pos cfg, refl);
    heard = λ u. absurd (none-ne-some _ u);
  }
  start-IsConsistent cfg false pass = record {
    running = refl;
    in_range = tt;
    heard = λ u. absurd (none-ne-some _ u);
  }

module _ (cfg : SpeedTestConfig) {F : Type 0} where
  pub Move-IsConsistent :
      {auto : Bool} {st st' : Loop F}
      → Move auto st st'
      → IsConsistent cfg st
      → IsConsistent cfg st'
  unfolding take_url
  Move-IsConsistent {st} (Move.find_busy p now e b) inv =
      moved cfg st (checking p) (sleeping p) inv e refl refl (subst (IsInRange cfg) e inv.in_range)
  Move-IsConsistent {st} (Move.find_idle p now e b) inv =
      moved cfg st (checking p) (ready p) inv e refl refl (subst (IsInRange cfg) e inv.in_range).0
  Move-IsConsistent {st} (Move.wake p e) inv =
      moved cfg st (sleeping p) (checking p) inv e refl refl (subst (IsInRange cfg) e inv.in_range)
  Move-IsConsistent {st} (Move.begin p e) inv = record {
    running = refl;
    in_range = subst (IsInRange cfg) e inv.in_range;
    heard = λ u. still_heard (waiting_url cfg st (ready p) inv e refl u);
  }
  Move-IsConsistent {st} (Move.next_round i e) inv =
      moved cfg st (between i) (checking (warmup (i + 1))) inv e refl refl
        (subst (IsInRange cfg) e inv.in_range, refl)
  Move-IsConsistent {st} (Move.due e a) inv =
      moved cfg st selecting (checking scheduled) inv e refl refl (tt, refl)
  Move-IsConsistent {st} (Move.hear e n) inv = record {
    running = inv.running ∙ ap is_passing e;
    in_range = tt;
    heard = λ u. inr (inl refl);
  }
  Move-IsConsistent {st} (Move.take e) inv = record {
    running = inv.running ∙ ap is_passing e;
    in_range = tt;
    heard = λ u. absurd (none-ne-some _ u);
  }

  -- The end of a pass.
  pub finish-IsConsistent :
      (st : Loop F) (p : Purpose) (pass : Pass F)
      → st.phase ≡ passing p
      → IsConsistent cfg st
      → IsConsistent cfg (record st {
        control = set_running false st.control;
        pass = pass;
        phase = after_pass cfg p;
      })
  finish-IsConsistent st p pass e inv =
      let (r, n) = after_pass-IsInRange cfg p (subst (IsInRange cfg) e inv.in_range) in
      record {
        running = sym n;
        in_range = r;
        heard = λ u. still_heard (waiting_url cfg st (passing p) inv e refl u);
      }

  -- What other tasks do to the selector and the metrics.
  pub outside-IsConsistent :
      (st : Loop F) (pass : Pass F)
      → IsConsistent cfg st
      → IsConsistent cfg (record st { pass = pass })
  outside-IsConsistent st pass inv = record {
    running = inv.running;
    in_range = inv.in_range;
    heard = inv.heard;
  }

  -- The two operations of a request of the dashboard.
  pub store_url-IsConsistent :
      (st : Loop F) (url : Option Text)
      → IsConsistent cfg st
      → IsConsistent cfg (record st { control = store_url st.control url })
  unfolding store_url
  store_url-IsConsistent st url inv = record {
    running = inv.running;
    in_range = inv.in_range;
    heard = λ u. inr (inr (omega arith));
  }

  pub notify_one-IsConsistent :
      (st : Loop F)
      → IsConsistent cfg st
      → IsConsistent cfg (record st { control = notify_one st.control })
  unfolding notify_one
  notify_one-IsConsistent st inv = record {
    running = inv.running;
    in_range = inv.in_range;
    heard = λ u. inl refl;
  }

module _ (lib : Http) (f : Float) (streams : Streams) (cfg : SpeedTestConfig) (auto : Bool) where
  open f use {Carrier as F}

  Step-IsConsistent :
      {st st' : Loop F}
      → Step lib f streams cfg auto st st'
      → IsConsistent cfg st
      → IsConsistent cfg st'
  Step-IsConsistent {st} (Step.outside pass) inv = outside-IsConsistent cfg st pass inv
  Step-IsConsistent {st} (Step.ask url) inv = store_url-IsConsistent cfg st url inv
  Step-IsConsistent {st} (Step.notify n e) inv = notify_one-IsConsistent cfg st inv
  Step-IsConsistent (Step.moved m) inv = Move-IsConsistent cfg m inv
  Step-IsConsistent {st} (Step.finish p env e) inv = finish-IsConsistent cfg st p _ e inv

  -- Whatever the other tasks do to the selector and the metrics, and however the two operations of
  -- their calls of `trigger` interleave with each other and with the loop's steps, in every state
  -- that the loop reaches from its start the flag `running` is set exactly while a pass runs, the
  -- rounds of the warm-up are numbered below their number, a wait for an idle proxy is for a pass
  -- that is not manual, and a URL is pending only if the loop has a permit, is about to take the
  -- URL, or some call of `trigger` has stored its URL and not notified the loop yet.
  pub Reach-IsConsistent :
      (pass : Pass F) {st : Loop F}
      → Reach lib f streams cfg auto (start auto new pass) st
      → IsConsistent cfg st
  Reach-IsConsistent pass Reach.stay = start-IsConsistent cfg auto pass
  Reach-IsConsistent pass (Reach.go r s) = Step-IsConsistent s (Reach-IsConsistent pass r)
