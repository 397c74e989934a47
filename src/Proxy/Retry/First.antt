-- ===== src/Proxy/Retry/First.antt =====
-- proxy.rs: which response a GET or HEAD gets.
use xboxproxy.Prelude.{
  ℕ, zero, suc, ◌+◌, ◌<◌, ◌≡◌, refl, ap, ◌∙◌, true, Option, some, ok, err, arith,
}
use xboxproxy.Float.{Float}
use xboxproxy.Text.{Text}
use xboxproxy.Net.{IpAddr}
use xboxproxy.Selector.{Selector}
use xboxproxy.Proxy.Retry.{
  Method, get, head, other, Reply, Turn, Progress, retryable, start, responded, attempt_from,
  attempts_of,
}
use xboxproxy.Proxy.Retry.Rounds.{asked, attempt_from_ok, attempt_from_err}

module _ (f : Float) (host : Text) (turns : ℕ → Turn f.Carrier) where
  open f use {Carrier as F}

  -- The attempts before `k` fail, whatever address they ask for, and attempt `k` gets `r`.
  pub record AnswersAt (k : ℕ) (r : Reply) : Type 0 where
    pub before : (j : ℕ) → j < k → (ip : Option IpAddr) → (e : Text) × ((turns j).answer ip ≡ err e)
    pub at : (ip : Option IpAddr) → (turns k).answer ip ≡ ok r

  attempt_from-first :
      (u : Unit {0}) (k : ℕ) (r : Reply) (left attempt d : ℕ) (p : Progress F)
      → AnswersAt k r
      → attempt + d ≡ k
      → d < left
      → let q = attempt_from f host turns (ok u) left attempt p in
        (q.resp ≡ some r) × (q.attempts ≡ k + 1)
  attempt_from-first u k r zero attempt d p a e h = absurd (omega arith)
  attempt_from-first u k r (suc left) attempt zero p a e h =
      let same : attempt ≡ k = omega arith in
      let step = attempt_from_ok f host turns u left attempt p r (rw same (a.at _)) in
      (
        ap (λ q. q.resp) step ∙ unfold responded in refl,
        ap (λ q. q.attempts) step ∙ unfold responded in omega arith,
      )
  attempt_from-first u k r (suc left) attempt (suc d) p a e h =
      let (m, failed) = a.before attempt (omega arith) (asked f host turns attempt p) in
      let (resp, count) =
        attempt_from-first u k r left (attempt + 1) d _ a (omega arith) (omega arith) in
      let step = attempt_from_err f host turns u left attempt p m failed in
      (ap (λ q. q.resp) step ∙ resp, ap (λ q. q.attempts) step ∙ count)

  -- If the request can be built, the attempts 0 to `k - 1` of a GET or HEAD fail whatever address
  -- they ask for, attempt `k` gets a response whatever address it asks for, and `k` is less than 3,
  -- then the attempts end with that response, after `k + 1` attempts.
  pub attempts_of-first :
      (u : Unit {0}) (method : Method) (s : Selector F) (k : ℕ) (r : Reply)
      → retryable method ≡ true
      → AnswersAt k r
      → k < 3
      → (p : Progress F) × (attempts_of f host turns (ok u) method s ≡ ok p)
        × (p.resp ≡ some r)
        × (p.attempts ≡ k + 1)
  unfolding attempts_of
  attempts_of-first u get s k r t a h =
      let (resp, count) = attempt_from-first u k r 3 0 k (start s) a (omega arith) h in
      (attempt_from f host turns (ok u) 3 0 (start s), refl, resp, count)
  attempts_of-first u head s k r t a h =
      let (resp, count) = attempt_from-first u k r 3 0 k (start s) a (omega arith) h in
      (attempt_from f host turns (ok u) 3 0 (start s), refl, resp, count)
  attempts_of-first u (other m) s k r t a h = absurd (ground arith)
