-- ===== src/Speedtest/Loop/Polls.antt =====
-- speedtest.rs, `wait_until_idle`: its polls as steps of the loop.
use mathlib.Core.Option.{none-ne-some}
use xboxproxy.Prelude.{
  ℕ, zero, suc, ◌+◌, ◌*◌, ◌≤◌, ◌≡◌, refl, Bool, false, some, Bool-cases, inl, inr,
}
use xboxproxy.Float.{Float}
use xboxproxy.Http.{Http}
use xboxproxy.Metrics.{MetricsStore, is_busy}
use xboxproxy.Speedtest.{SpeedTestConfig, activity_grace}
use xboxproxy.Speedtest.Pass.{Streams}
use xboxproxy.Speedtest.Loop.{Purpose, checking, ready, Loop, Move, Step, Reach, wait_until_idle}
use xboxproxy.Speedtest.Loop.Waiting.{IsQuiet, wait_until_idle-idle}

module _ (lib : Http) (f : Float) (streams : Streams) (cfg : SpeedTestConfig) (auto : Bool)
    (metrics : ℕ → MetricsStore f.Carrier) (clock : ℕ → ℕ) (p : Purpose) where
  open f use {Carrier as F}

  -- What poll `k` finds.
  abbrev at_poll : ℕ → Loop F → Loop F
  at_poll k st = record st { pass = record st.pass { metrics = metrics k } }

  polls-Reach :
      (fuel k n : ℕ) (st st' : Loop F)
      → wait_until_idle metrics clock fuel k ≡ some n
      → Reach lib f streams cfg auto st st'
      → st'.phase ≡ checking p
      → (after : Loop F) × Reach lib f streams cfg auto st after
        × (after.phase ≡ ready p)
        × (after.control ≡ st'.control)
  unfolding wait_until_idle
  polls-Reach zero k n st st' w r e = absurd (none-ne-some _ w)
  polls-Reach (suc fuel) k n st st' w r e =
      elim (Bool-cases (is_busy (metrics k) (clock k) activity_grace)) [
        | inl b ↦
            polls-Reach fuel (suc k) n st (record (at_poll k st') { phase = checking p })
              (rw b at w)
              (Reach.go
                (Reach.go (Reach.go r (Step.outside (record st'.pass { metrics = metrics k })))
                  (Step.moved (Move.find_busy p (clock k) e b)))
                (Step.moved (Move.wake p refl)))
              refl
        | inr b ↦ (
          record (at_poll k st') { phase = ready p },
          Reach.go (Reach.go r (Step.outside (record st'.pass { metrics = metrics k })))
              (Step.moved (Move.find_idle p (clock k) e b)),
          refl,
          refl,
        )
      ]

  -- If from some poll `q` on no request is in flight and none has begun or ended since a time
  -- before that poll, and each sleep lasts at least `retry` seconds, where `m` sleeps make up the
  -- grace period, then `wait_until_idle` ends at the latest with poll `q + m`, the store is not
  -- busy at the poll that ends it, and a loop that is about to poll reaches, with the control as it
  -- is, the state in which it begins its pass.
  pub wait_until_idle-Reach :
      (retry t q m : ℕ) (st : Loop F)
      → IsQuiet metrics clock retry t q
      → activity_grace ≤ m * retry
      → st.phase ≡ checking p
      → (n : ℕ) × (after : Loop F) × (wait_until_idle metrics clock (suc (q + m)) 0 ≡ some n)
        × n ≤ q + m
        × (is_busy (metrics n) (clock n) activity_grace ≡ false)
        × Reach lib f streams cfg auto st after
        × (after.phase ≡ ready p)
        × (after.control ≡ st.control)
  wait_until_idle-Reach retry t q m st quiet h e =
      let (n, w, l, idle) = wait_until_idle-idle metrics clock retry t q m quiet h in
      let (after, r, there, same) = polls-Reach (suc (q + m)) 0 n st st w Reach.stay e in
      (n, after, w, l, idle, r, there, same)
