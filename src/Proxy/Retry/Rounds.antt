-- ===== src/Proxy/Retry/Rounds.antt =====
-- proxy.rs: one attempt, by what the upstream answers.
use xboxproxy.Prelude.{ℕ, suc, ◌+◌, ◌≡◌, Option, ok, err}
use xboxproxy.Float.{Float}
use xboxproxy.Text.{Text}
use xboxproxy.Net.{IpAddr}
use xboxproxy.Selector.{Selector, best_ip}
use xboxproxy.Proxy.Retry.{
  Reply, Turn, Progress, start, responded, attempt_failed, attempt_from, attempt_once,
}

module _ (f : Float) (host : Text) (turns : ℕ → Turn f.Carrier) where
  open f use {Carrier as F}

  -- The address that an attempt asks for, and the variables when its answer is there.
  abbrev pub asked : ℕ → Progress F → Option IpAddr
  asked attempt p = best_ip f p.selector (turns attempt).chosen_at host

  abbrev pub waited : ℕ → Progress F → Progress F
  waited attempt p = record p {
    attempts = attempt + 1;
    selector = (turns attempt).meanwhile p.selector;
  }

  module _ (u : Unit {0}) (left attempt : ℕ) (p : Progress F) where
    pub attempt_from_ok :
        (r : Reply)
        → (turns attempt).answer (asked attempt p) ≡ ok r
        → attempt_from f host turns (ok u) (suc left) attempt p ≡ responded r (waited attempt p)
    unfolding attempt_from
    attempt_from_ok r e = rw (e, attempt_from)

    pub attempt_from_err :
        (e : Text)
        → (turns attempt).answer (asked attempt p) ≡ err e
        → attempt_from f host turns (ok u) (suc left) attempt p
          ≡ attempt_from f host turns
              (ok u)
              left
              (attempt + 1)
              (attempt_failed (turns attempt) host (asked attempt p) e (waited attempt p))
    unfolding attempt_from
    attempt_from_err e q = rw (q, attempt_from)

  pub attempt_once_ok :
      (u : Unit {0}) (s : Selector F) (r : Reply)
      → (turns 0).answer (asked 0 (start s)) ≡ ok r
      → attempt_once f host turns (ok u) (start s) ≡ ok (responded r (waited 0 (start s)))
  unfolding attempt_once
  attempt_once_ok u s r e = rw (e, attempt_once)

  pub attempt_once_err :
      (u : Unit {0}) (s : Selector F) (x : Text)
      → (turns 0).answer (asked 0 (start s)) ≡ err x
      → attempt_once f host turns (ok u) (start s)
        ≡ ok (attempt_failed (turns 0) host (asked 0 (start s)) x (waited 0 (start s)))
  unfolding attempt_once
  attempt_once_err u s x e = rw (e, attempt_once)
