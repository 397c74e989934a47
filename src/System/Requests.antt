-- ===== src/System/Requests.antt =====
-- proxy.rs: the handler of the proxy, and the bodies that it returns, as runs of the program's steps.
use xboxproxy.Prelude.{
  suc, ◌<◌, ◌^◌, arith, ◌≡◌, refl, sym, ap, ◌∙◌, inl, inr, Bool, true, false, if◌then◌else◌, List,
  [], ◌∷◌, some,
}
use mathlib.Core.Path.{subst}
use xboxproxy.Float.{Float}
use xboxproxy.Text.{Text}
use xboxproxy.Http.{Http}
use xboxproxy.Selector.{Selector}
use xboxproxy.Metrics.{MetricsStore, u64_mod, begin_request, drop_guard}
use xboxproxy.Proxy.Recording.{
  RecordState, Reading, Poll, chunk, failed, finished, pending, record_of, finalize, poll_next,
  stream_body,
}
use xboxproxy.Proxy.Recording.Words.{
  AreWords, record_of-HasWords, with_error-AreWords, poll_next-AreWords,
}
use xboxproxy.Proxy.Retry.{Progress}
use xboxproxy.Proxy.Retry.Words.{AreReplies, IsTimed, attempts_of-IsTimed}
use xboxproxy.Proxy.Handler.{
  Request, Body, message, streamed, Env, Handled, reply_with, handle_managed, proxy_handler,
  ended_with, record_and_unavailable,
}
use xboxproxy.Proxy.Handler.Cases.{
  handle_managed-cases, proxy_handler-cases, reply-cases, proxy_handler_streamed,
  reply_with-IsStreamed,
}
use xboxproxy.Speedtest.{SpeedTestConfig}
use xboxproxy.System.{World, with_selector, with_metrics, with_guards, Step, here, next}
use xboxproxy.System.Attempts.{Run, Run-trans, IsMeanwhile, attempts_of-Selects}

module _ (lib : Http) (f : Float) (cfg : SpeedTestConfig) where
  open f use {Carrier as F}

  -- The world as a request leaves it.
  abbrev pub handled_world : Handled F → World F → World F
  handled_world h w = with_selector h.selector (with_metrics h.metrics w)

  -- The store once the body of a response is dropped.
  unfoldable pub body_dropped :
      List (Reading F × Poll) → Reading F → MetricsStore F → Body F → MetricsStore F
  body_dropped polls dropped m (message text) = m
  body_dropped polls dropped m (streamed rs) = (stream_body f polls dropped rs).metrics

  either-Run :
      (b : Bool) (s t : RecordState F) (v w : World F)
      → Run lib f cfg v (with_metrics s.metrics w)
      → Run lib f cfg v (with_metrics t.metrics w)
      → Run lib f cfg v (with_metrics (if b then s else t).metrics w)
  either-Run true s t v w r q = r
  either-Run false s t v w r q = q

  finalize-Run :
      (r : Reading F) (s : RecordState F) (w : World F)
      → AreWords s
      → Run lib f cfg (with_metrics s.metrics w) (with_metrics (finalize f r s).metrics w)
  unfolding finalize
  finalize-Run r s w words =
      either-Run s.recorded s _ _ w here
        (next here (Step.records (record_of f r s) (record_of-HasWords f r s words)))

  poll_next-Run :
      (r : Reading F) (p : Poll) (s : RecordState F) (w : World F)
      → AreWords s
      → Run lib f cfg (with_metrics s.metrics w) (with_metrics (poll_next f r p s).metrics w)
  unfolding poll_next
  poll_next-Run r (chunk len) s w words = here
  poll_next-Run r (failed e) s w words =
      finalize-Run r (record s { error = some e }) w (with_error-AreWords f s e words)
  poll_next-Run r finished s w words = finalize-Run r s w words
  poll_next-Run r pending s w words = here

  stream_body-Run :
      (polls : List (Reading F × Poll)) (dropped : Reading F) (s : RecordState F) (w : World F)
      → AreWords s
      → Run lib f cfg
          (with_metrics s.metrics w)
          (with_metrics (stream_body f polls dropped s).metrics w)
  unfolding stream_body
  stream_body-Run [] dropped s w words = finalize-Run dropped s w words
  stream_body-Run ((r, p) ∷ polls) dropped s w words =
      Run-trans lib f cfg (poll_next-Run r p s w words)
        (stream_body-Run polls dropped (poll_next f r p s) w (poll_next-AreWords f r p s words))

  body_dropped-Run :
      (polls : List (Reading F × Poll)) (dropped : Reading F) (m : MetricsStore F) (b : Body F)
      (w : World F)
      → ((rs : RecordState F) → b ≡ streamed rs → (rs.metrics ≡ m) × AreWords rs)
      → Run lib f cfg (with_metrics m w) (with_metrics (body_dropped polls dropped m b) w)
  unfolding body_dropped
  body_dropped-Run polls dropped m (message text) w own = here
  body_dropped-Run polls dropped m (streamed rs) w own =
      subst
        (λ x.
          Run lib f cfg (with_metrics x w)
            (with_metrics (stream_body f polls dropped rs).metrics w))
        (own rs refl).0 (stream_body-Run polls dropped rs w (own rs refl).1)

  module _ (env : Env lib F) (others : IsMeanwhile lib f cfg env.turns)
      (replies : AreReplies env.turns) (req : Request lib) (w : World F)
      (room : suc w.guards < u64_mod) where
    abbrev begun : World F
    begun = with_guards (suc w.guards) (begin_request w.metrics env.began_at) w

    begun-Run : Run lib f cfg w begun
    begun-Run = next here (Step.begins env.began_at room)

    -- The guard is dropped, whatever happened since it was taken.
    ended-Run :
        (s : Selector F) (m : MetricsStore F)
        → Run lib f cfg w (with_selector s (with_metrics m begun))
        → Run lib f cfg w (with_selector s (with_metrics (drop_guard m env.ended_at) w))
    ended-Run s m r = next r (Step.ends env.ended_at w.guards refl)

    reply_with-Run :
        (host path : Text) (p : Progress F)
        → IsTimed p
        → Run lib f cfg w (with_selector p.selector begun)
        → Run lib f cfg w (handled_world (reply_with lib f env req host path begun.metrics p) w)
    unfolding reply_with ended_with record_and_unavailable
    reply_with-Run host path p timed r =
        elim (reply-cases lib f env req host path begun.metrics p) [
          | inl (x, b, e, built) ↦ rw (e, reply_with, built) (ended-Run p.selector begun.metrics r)
          | inr (inl (x, t, e, b)) ↦
              rw (e, reply_with, b)
                (ended-Run p.selector _ (
                  Run-trans lib f cfg r (
                    finalize-Run env.reading _ (with_selector p.selector begun) (record {
                      status-lt = timed.status-lt;
                      bytes-lt = omega arith;
                      ttfb_ms-lt = timed.ttfb_ms-lt;
                    }))))
          | inr (inr e) ↦
              rw (e, reply_with)
                (ended-Run p.selector _ (
                  Run-trans lib f cfg r (
                    finalize-Run env.reading _ (with_selector p.selector begun) (record {
                      status-lt = timed.status-lt;
                      bytes-lt = omega arith;
                      ttfb_ms-lt = timed.ttfb_ms-lt;
                    }))))
        ]

    handle_managed-Run :
        (host : Text)
        → Run lib f cfg w
            (handled_world (handle_managed lib f env w.state.selector w.metrics req host) w)
    handle_managed-Run host =
        elim (handle_managed-cases lib f env w.state.selector w.metrics req host) [
          | inl (response, e, _, _) ↦
              subst (λ h. Run lib f cfg w (handled_world h w)) (sym e)
                (ended-Run w.state.selector begun.metrics begun-Run)
          | inr (path, b, p, tried, e) ↦
              subst (λ h. Run lib f cfg w (handled_world h w)) (sym e)
                (reply_with-Run host path p
                  (attempts_of-IsTimed f host env.turns replies w.state.selector b req.method p
                    tried)
                  (Run-trans lib f cfg begun-Run (
                    attempts_of-Selects lib f cfg host env.turns others begun w.state.selector b
                      req.method p tried)))
        ]

    handler-Run :
        Run lib f cfg w (handled_world (proxy_handler lib f env w.state.selector w.metrics req) w)
    handler-Run = elim (proxy_handler-cases lib f env w.state.selector w.metrics req) [
      | inl (response, e, _, _) ↦ subst (λ h. Run lib f cfg w (handled_world h w)) (sym e) here
      | inr (host, e) ↦
          subst (λ h. Run lib f cfg w (handled_world h w)) (sym e) (handle_managed-Run host)
    ]

    body_own :
        (rs : RecordState F)
        → (proxy_handler lib f env w.state.selector w.metrics req).response.body ≡ streamed rs
        → (rs.metrics ≡ (proxy_handler lib f env w.state.selector w.metrics req).metrics)
          × AreWords rs
    body_own rs e =
        let (host, path, b, p, tried, same) =
          proxy_handler_streamed lib f env w.state.selector w.metrics req rs e in
        let st =
          reply_with-IsStreamed lib f env req host path begun.metrics p rs
            (sym (ap (λ h. h.response.body) same) ∙ e) in
        let timed =
          attempts_of-IsTimed f host env.turns replies w.state.selector b req.method p tried in
        (
          st.store ∙ sym (ap (λ h. h.metrics) same ∙ st.same_store),
          record {
            status-lt = subst (λ n. n < 2 ^ 16) (sym st.recorded_status) timed.status-lt;
            bytes-lt = subst (λ n. n < 2 ^ 64) (sym st.no_bytes) (omega arith);
            ttfb_ms-lt = subst (λ n. n < 2 ^ 64) (sym st.recorded_ttfb) timed.ttfb_ms-lt;
          },
        )

    -- If fewer than 2^64 - 1 guards are held, and while an attempt waits the other tasks change the
    -- selector by steps of the program, and the replies' statuses are below 2^16 and their times
    -- below 2^64, then what the handler does is a run of the program's steps, from the world that
    -- it finds to the one with the selector and the metrics that it leaves, in which as many guards
    -- are held as before; and so is what the body of its response does, however it is polled until
    -- it is dropped.
    pub proxy_handler-Run :
        (polls : List (Reading F × Poll)) (dropped : Reading F)
        → Run lib f cfg w (handled_world (proxy_handler lib f env w.state.selector w.metrics req) w)
          × Run lib f cfg
              (handled_world (proxy_handler lib f env w.state.selector w.metrics req) w)
              (with_metrics
                (body_dropped polls dropped
                  (proxy_handler lib f env w.state.selector w.metrics req).metrics
                  (proxy_handler lib f env w.state.selector w.metrics req).response.body)
                (handled_world (proxy_handler lib f env w.state.selector w.metrics req) w))
    proxy_handler-Run polls dropped =
        let h = proxy_handler lib f env w.state.selector w.metrics req in
        (
          handler-Run,
          body_dropped-Run polls dropped h.metrics h.response.body (handled_world h w) body_own,
        )
