-- ===== src/Proxy/Retry/Words.antt =====
-- proxy.rs: the status and the time that the attempts leave, as words of the types of the code.
use xboxproxy.Prelude.{ℕ, ◌≡◌, ◌<◌, ◌^◌, Option, ok, Result, unwrap_or, arith}
use xboxproxy.Float.{Float}
use xboxproxy.Text.{Text}
use xboxproxy.Net.{IpAddr}
use xboxproxy.Selector.{Selector}
use xboxproxy.Proxy.Retry.{
  Method, Reply, Turn, Progress, start, responded, attempt_failed, attempts_of,
}
use xboxproxy.Proxy.Retry.Induction.{IsKept, attempts_of-IsKept}

-- `StatusCode` is a u16, and the time to the headers is taken as a u64.
pub record IsReply (r : Reply) : Type 0 where
  pub status-lt : r.status < 2 ^ 16
  pub ttfb_ms-lt : r.ttfb_ms < 2 ^ 64

module _ {F : Type 0} where
  abbrev pub AreReplies : (ℕ → Turn F) → Type 0
  AreReplies turns =
      (j : ℕ) (ip : Option IpAddr) (r : Reply) → (turns j).answer ip ≡ ok r → IsReply r

  pub record IsTimed (p : Progress F) : Type 0 where
    pub status-lt : unwrap_or p.upstream_status 502 < 2 ^ 16
    pub ttfb_ms-lt : p.ttfb_ms < 2 ^ 64

module _ (f : Float) (host : Text) (turns : ℕ → Turn f.Carrier) (replies : AreReplies turns) where
  open f use {Carrier as F}

  IsTimed-IsKept : IsKept f host turns IsTimed
  IsTimed-IsKept = record {
    answered = λ attempt p r e h.
        unfold responded in
        let w = replies attempt _ r e in
        record { status-lt = w.status-lt; ttfb_ms-lt = w.ttfb_ms-lt };
    failed = λ attempt p e h.
        unfold attempt_failed in record { status-lt = h.status-lt; ttfb_ms-lt = h.ttfb_ms-lt };
    unbuilt = λ attempt p e h. record { status-lt = h.status-lt; ttfb_ms-lt = h.ttfb_ms-lt };
  }

  pub attempts_of-IsTimed :
      (s : Selector F) (b : Result Text (Unit {0})) (method : Method) (p : Progress F)
      → attempts_of f host turns b method s ≡ ok p
      → IsTimed p
  unfolding start
  attempts_of-IsTimed s b method p e =
      attempts_of-IsKept f host turns IsTimed IsTimed-IsKept b method s p e
        (record { status-lt = omega arith; ttfb_ms-lt = omega arith })
