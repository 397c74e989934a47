-- ===== src/Proxy/Handler/Replies.antt =====
-- proxy.rs: the response to the client, and the record that is written of it.
use xboxproxy.Prelude.{◌≡◌, sym, ap, ◌∙◌, true, List, Option, is_some, Result, ok, arith, unwrap_or}
use xboxproxy.Float.{Float}
use xboxproxy.Text.{Text}
use xboxproxy.Http.{Http}
use xboxproxy.Selector.{Selector}
use xboxproxy.Metrics.{MetricsStore, begin_request}
use xboxproxy.Proxy.Recording.{RecordState, Reading, Poll, stream_body}
use xboxproxy.Proxy.Recording.Once.{IsRecorded, stream_body-IsRecorded}
use xboxproxy.Proxy.Retry.Bounds.{attempts_of-IsTried}
use xboxproxy.Proxy.Retry.{Progress, attempts_of}
use xboxproxy.Proxy.Handler.{Request, streamed, Env, proxy_handler}
use xboxproxy.Proxy.Handler.Cases.{proxy_handler_streamed, reply_with-IsStreamed}

module _ (lib : Http) (f : Float) (env : Env lib f.Carrier) (s : Selector f.Carrier)
    (m : MetricsStore f.Carrier) (req : Request lib) where
  open f use {Carrier as F}

  -- The attempts under a name ended in a response, and this is the `last_err` that they left.
  pub record IsOutcome (host : Text) (last_err : Option Text) : Type 0 where
    pub build_req : Result Text (Unit {0})
    pub progress : Progress F
    pub tried : attempts_of f host env.turns build_req req.method s ≡ ok progress
    pub answered : is_some progress.resp ≡ true
    pub same_error : last_err ≡ progress.last_err

  -- If the handler returns a body that is streamed, then however the polls of the body go and
  -- however far it is read before it is dropped, the store gets exactly one more record, with the
  -- bytes of the chunks before its end (modulo 2^64), since none are counted at its start, the
  -- error that ended it or else the one that the attempts under the request's host left, which
  -- ended in a response, and the status that the client got.
  pub proxy_handler-IsRecorded :
      (rs : RecordState F) (polls : List (Reading F × Poll)) (dropped : Reading F)
      → (proxy_handler lib f env s m req).response.body ≡ streamed rs
      → IsRecorded f polls rs (stream_body f polls dropped rs).metrics
        × (rs.bytes ≡ 0)
        × IsOutcome rs.meta.host rs.error
        × (rs.meta.status ≡ (proxy_handler lib f env s m req).response.status)
  proxy_handler-IsRecorded rs polls dropped e =
      let (host, path, b, p, tried, same) = proxy_handler_streamed lib f env s m req rs e in
      let st =
        reply_with-IsStreamed lib f env req host path (begin_request m env.began_at) p rs
          (sym (ap (λ h. h.response.body) same) ∙ e) in
      let (consistent, _, _) = attempts_of-IsTried f host env.turns b req.method s p tried in
      (
        stream_body-IsRecorded f polls dropped rs st.unrecorded (omega (arith, st.no_bytes)),
        st.no_bytes,
        record {
          build_req = b;
          progress = p;
          tried = ap (λ n. attempts_of f n env.turns b req.method s) st.recorded_host ∙ tried;
          answered = ap is_some st.responded;
          same_error = st.recorded_error;
        },
        st.recorded_status
            ∙ ap (λ o. unwrap_or o 502) (consistent.status st.reply st.responded)
            ∙ sym (ap (λ h. h.response.status) same ∙ st.status),
      )
