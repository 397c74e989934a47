-- ===== src/Proxy/Retry/Induction.antt =====
-- proxy.rs: what every outcome of one attempt keeps holds after the attempts.
use mathlib.Core.Path.{subst}
use xboxproxy.Prelude.{
  ℕ, zero, suc, ◌+◌, ◌≡◌, sym, ◌∙◌, inl, inr, some, Result, ok, err, ok-injective, Result-cases,
}
use xboxproxy.Float.{Float}
use xboxproxy.Text.{Text}
use xboxproxy.Selector.{Selector}
use xboxproxy.Proxy.Retry.{
  Method, get, head, other, Reply, Turn, Progress, start, responded, attempt_failed, attempt_from,
  attempt_once, attempts_of,
}
use xboxproxy.Proxy.Retry.Rounds.{
  asked, waited, attempt_from_ok, attempt_from_err, attempt_once_ok, attempt_once_err,
}

module _ (f : Float) (host : Text) (turns : ℕ → Turn f.Carrier) where
  open f use {Carrier as F}

  -- The ways in which an attempt ends, and a request that cannot be built.
  pub record IsKept (P : Progress F → Type 0) : Type 0 where
    pub answered :
        (attempt : ℕ) (p : Progress F) (r : Reply)
        → (turns attempt).answer (asked f host turns attempt p) ≡ ok r
        → P p
        → P (responded r (waited f host turns attempt p))
    pub failed :
        (attempt : ℕ) (p : Progress F) (e : Text)
        → P p
        → P (
            attempt_failed
              (turns attempt)
              host
              (asked f host turns attempt p)
              e
              (waited f host turns attempt p))
    pub unbuilt :
        (attempt : ℕ) (p : Progress F) (e : Text)
        → P p
        → P (record p { attempts = attempt + 1; last_err = some e })

  module _ (P : Progress F → Type 0) (kept : IsKept P) where
    attempt_from-IsKept :
        (b : Result Text (Unit {0})) (left attempt : ℕ) (p : Progress F)
        → P p
        → P (attempt_from f host turns b left attempt p)
    unfolding attempt_from
    attempt_from-IsKept b zero attempt p h = h
    attempt_from-IsKept (err e) (suc left) attempt p h = kept.unbuilt attempt p e h
    attempt_from-IsKept (ok u) (suc left) attempt p h =
        elim (Result-cases ((turns attempt).answer (asked f host turns attempt p))) [
          | inl (r, e) ↦
              subst P (sym (attempt_from_ok f host turns u left attempt p r e))
                (kept.answered attempt p r e h)
          | inr (x, e) ↦
              subst P (sym (attempt_from_err f host turns u left attempt p x e))
                (attempt_from-IsKept (ok u) left (attempt + 1) _ (kept.failed attempt p x h))
        ]

    attempt_once-IsKept :
        (b : Result Text (Unit {0})) (s : Selector F) (p : Progress F)
        → attempt_once f host turns b (start s) ≡ ok p
        → P (start s)
        → P p
    attempt_once-IsKept (err e) s p q h = absurd (unfold attempt_once in cc)
    attempt_once-IsKept (ok u) s p q h =
        elim (Result-cases ((turns 0).answer (asked f host turns 0 (start s)))) [
          | inl (r, e) ↦
              subst P (ok-injective (sym (attempt_once_ok f host turns u s r e) ∙ q))
                (kept.answered 0 (start s) r e h)
          | inr (x, e) ↦
              subst P (ok-injective (sym (attempt_once_err f host turns u s x e) ∙ q))
                (kept.failed 0 (start s) x h)
        ]

    pub attempts_of-IsKept :
        (b : Result Text (Unit {0})) (method : Method) (s : Selector F) (p : Progress F)
        → attempts_of f host turns b method s ≡ ok p
        → P (start s)
        → P p
    unfolding attempts_of
    attempts_of-IsKept b get s p e h =
        subst P (ok-injective e) (attempt_from-IsKept b 3 0 (start s) h)
    attempts_of-IsKept b head s p e h =
        subst P (ok-injective e) (attempt_from-IsKept b 3 0 (start s) h)
    attempts_of-IsKept b (other m) s p e h = attempt_once-IsKept b s p e h
