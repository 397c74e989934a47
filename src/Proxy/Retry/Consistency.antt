-- ===== src/Proxy/Retry/Consistency.antt =====
-- proxy.rs: that the variables of the attempts agree.
use mathlib.Core.Option
use xboxproxy.Prelude.{ℕ, ◌+◌, ◌<◌, ◌≡◌, refl, ap, true, Option, none, some, arith, is_some}
use xboxproxy.Text.{Text}
use xboxproxy.Net.{IpAddr}
use xboxproxy.Selector.{Selector}
use xboxproxy.Proxy.Retry.{Reply, Turn, Progress, start, responded, attempt_failed}

-- The variables agree: the status and the address are those of the response, and without a response
-- there is an error, once an attempt was made.
pub record IsConsistent {F : Type 0} (p : Progress F) : Type 0 where
  pub status : (r : Reply) → p.resp ≡ some r → p.upstream_status ≡ some r.status
  pub address : (r : Reply) → p.resp ≡ some r → p.upstream_ip ≡ r.chosen
  pub no_status : p.resp ≡ none → p.upstream_status ≡ none
  pub explained : p.resp ≡ none → 0 < p.attempts → is_some p.last_err ≡ true

module _ {F : Type 0} where
  pub start-IsConsistent : (s : Selector F) → IsConsistent (start s)
  unfolding start
  start-IsConsistent s = record {
    status = λ r e. cc;
    address = λ r e. cc;
    no_status = λ e. refl;
    explained = λ e h. absurd (omega arith);
  }

  pub responded-IsConsistent : (r : Reply) (p : Progress F) → IsConsistent (responded r p)
  unfolding responded
  responded-IsConsistent r p = record {
    status = λ q e. ap (λ o. Option.map (λ (x : Reply). x.status) o) e;
    address = λ q e. ground arith;
    no_status = λ e. cc;
    explained = λ e h. cc;
  }

  pub failed-IsConsistent :
      (t : Turn F) (host : Text) (ip : Option IpAddr) (e : Text) (p : Progress F)
      → p.resp ≡ none
      → p.upstream_status ≡ none
      → IsConsistent (attempt_failed t host ip e p)
  unfolding attempt_failed
  failed-IsConsistent t host ip e p n u = record {
    status = λ r q. cc;
    address = λ r q. cc;
    no_status = λ q. u;
    explained = λ q h. refl;
  }

pub build_failed :
    {F : Type 0} (attempt : ℕ) (e : Text) (p : Progress F)
    → p.resp ≡ none
    → p.upstream_status ≡ none
    → IsConsistent (record p { attempts = attempt + 1; last_err = some e })
build_failed attempt e p n u = record {
  status = λ r q. cc;
  address = λ r q. cc;
  no_status = λ q. u;
  explained = λ q h. refl;
}
