-- ===== src/Proxy/Retry/Bounds.antt =====
-- proxy.rs: how often the upstream is asked, and what the attempts leave behind.
use mathlib.Core.Path.{subst}
use xboxproxy.Prelude.{
  ℕ, zero, suc, ◌+◌, ◌≤◌, ◌<◌, ◌≡◌, inl, inr, refl, sym, ◌∙◌, none, Result, Result-cases,
  ok-injective, ok, err, arith,
}
use xboxproxy.Float.{Float}
use xboxproxy.Text.{Text}
use xboxproxy.Selector.{Selector}
use xboxproxy.Proxy.Retry.{
  Method, get, head, other, Turn, Progress, max_attempts, start, responded, attempt_failed,
  attempt_from, attempt_once, attempts_of,
}
use xboxproxy.Proxy.Retry.Consistency.{
  IsConsistent, start-IsConsistent, responded-IsConsistent, failed-IsConsistent, build_failed,
}
use xboxproxy.Proxy.Retry.Rounds.{
  asked, waited, attempt_from_ok, attempt_from_err, attempt_once_ok, attempt_once_err,
}

-- The loop between rounds: no response yet, and every round so far counted.
record IsOngoing {F : Type 0} (attempt : ℕ) (p : Progress F) : Type 0 where
  unanswered : p.resp ≡ none
  unset : p.upstream_status ≡ none
  counted : p.attempts ≡ attempt
  consistent : IsConsistent p

record IsFinished {F : Type 0} (attempt left : ℕ) (q : Progress F) : Type 0 where
  consistent : IsConsistent q
  monotone : attempt ≤ q.attempts
  at_least : 0 < left → attempt < q.attempts
  at_most : q.attempts ≤ attempt + left

module _ (f : Float) (host : Text) (turns : ℕ → Turn f.Carrier) where
  open f use {Carrier as F}

  failed-IsOngoing :
      (attempt : ℕ) (e : Text) (p : Progress F)
      → IsOngoing attempt p
      → IsOngoing (attempt + 1) (
          attempt_failed
            (turns attempt)
            host
            (asked f host turns attempt p)
            e
            (waited f host turns attempt p))
  unfolding attempt_failed
  failed-IsOngoing attempt e p o = record {
    unanswered = o.unanswered;
    unset = o.unset;
    counted = refl;
    consistent =
        failed-IsConsistent (turns attempt) host (asked f host turns attempt p) e
          (waited f host turns attempt p) o.unanswered o.unset;
  }

  attempt_from-IsFinished :
      (b : Result Text (Unit {0})) (left attempt : ℕ) (p : Progress F)
      → IsOngoing attempt p
      → IsFinished attempt left (attempt_from f host turns b left attempt p)
  unfolding attempt_from
  attempt_from-IsFinished b zero attempt p o = record {
    consistent = o.consistent;
    monotone = omega (arith, o.counted);
    at_least = omega arith;
    at_most = omega (arith, o.counted);
  }
  attempt_from-IsFinished (err e) (suc left) attempt p o = record {
    consistent = build_failed attempt e p o.unanswered o.unset;
    monotone = omega arith;
    at_least = omega arith;
    at_most = omega arith;
  }
  attempt_from-IsFinished (ok u) (suc left) attempt p o =
      elim (Result-cases ((turns attempt).answer (asked f host turns attempt p))) [
        | inl (r, e) ↦
            subst (IsFinished attempt (suc left))
              (sym (attempt_from_ok f host turns u left attempt p r e))
              (record {
                consistent = responded-IsConsistent r (waited f host turns attempt p);
                monotone = unfold responded in omega arith;
                at_least = unfold responded in omega arith;
                at_most = unfold responded in omega arith;
              })
        | inr (e, q) ↦
            let o' = failed-IsOngoing attempt e p o in
            let rest = attempt_from-IsFinished (ok u) left (attempt + 1) _ o' in
            subst (IsFinished attempt (suc left))
              (sym (attempt_from_err f host turns u left attempt p e q))
              (record {
                consistent = rest.consistent;
                monotone = omega (arith, rest.monotone);
                at_least = λ h. omega (arith, rest.monotone);
                at_most = omega (arith, rest.at_most);
              })
      ]

  start-IsOngoing : (s : Selector F) → IsOngoing 0 (start s)
  start-IsOngoing s = record {
    unanswered = unfold start in refl;
    unset = unfold start in refl;
    counted = unfold start in refl;
    consistent = start-IsConsistent s;
  }

  -- What is said of the variables after the attempts.
  abbrev pub IsTried : Method → Progress F → Type 0
  IsTried method p = IsConsistent p × (1 ≤ p.attempts) × (p.attempts ≤ max_attempts method)

  loop-IsTried :
      (b : Result Text (Unit {0})) (method : Method) (s : Selector F)
      → max_attempts method ≡ 3
      → IsTried method (attempt_from f host turns b 3 0 (start s))
  loop-IsTried b method s three =
      let done = attempt_from-IsFinished b 3 0 (start s) (start-IsOngoing s) in
      (
        done.consistent,
        omega (arith, done.at_least (omega arith)),
        omega (arith, done.at_most, three),
      )

  once-IsTried :
      (b : Result Text (Unit {0})) (m : Text) (s : Selector F) (p : Progress F)
      → attempt_once f host turns b (start s) ≡ ok p
      → IsTried (other m) p
  once-IsTried (err e) m s p q = absurd (unfold attempt_once in cc)
  once-IsTried (ok u) m s p q =
      elim (Result-cases ((turns 0).answer (asked f host turns 0 (start s)))) [
        | inl (r, e) ↦
            subst (IsTried (other m))
              (ok-injective (sym (attempt_once_ok f host turns u s r e) ∙ q))
              (
                responded-IsConsistent r (waited f host turns 0 (start s)),
                unfold responded in omega arith,
                unfold responded max_attempts in omega arith,
              )
        | inr (x, e) ↦
            subst (IsTried (other m))
              (ok-injective (sym (attempt_once_err f host turns u s x e) ∙ q))
              (
                (failed-IsOngoing 0 x (start s) (start-IsOngoing s)).consistent,
                unfold attempt_failed in omega arith,
                unfold attempt_failed max_attempts in omega arith,
              )
      ]

  -- When the attempts end without an early return, there was at least one and there were at most
  -- three of a GET or HEAD and one of another method; status and address are those of the response,
  -- and without a response there is no status but an error message.
  pub attempts_of-IsTried :
      (b : Result Text (Unit {0})) (method : Method) (s : Selector F) (p : Progress F)
      → attempts_of f host turns b method s ≡ ok p
      → IsTried method p
  unfolding attempts_of
  attempts_of-IsTried b get s p e = subst (IsTried get) (ok-injective e) (loop-IsTried b get s refl)
  attempts_of-IsTried b head s p e =
      subst (IsTried head) (ok-injective e) (loop-IsTried b head s refl)
  attempts_of-IsTried b (other m) s p e = once-IsTried b m s p e
