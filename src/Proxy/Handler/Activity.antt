-- ===== src/Proxy/Handler/Activity.antt =====
-- proxy.rs and metrics.rs: how a request shows in the count of active requests.
use xboxproxy.Prelude.{
  ℕ, ◌+◌, ◌≤◌, ◌<◌, ◌≡◌, refl, sym, ap, ◌∙◌, false, List, [], ◌∷◌, arith, inl, inr,
}
use xboxproxy.Float.{Float}
use xboxproxy.Text.{Text}
use xboxproxy.Http.{Http}
use xboxproxy.Selector.{Selector}
use xboxproxy.Metrics.{MetricsStore, u64_mod, is_busy, begin_request, drop_guard, record_request}
use xboxproxy.Proxy.Recording.{
  RecordState, Reading, Poll, chunk, failed, finished, pending, poll_next, finalize,
}
use xboxproxy.Proxy.Retry.{Progress}
use xboxproxy.Proxy.Handler.Cases.{
  handle_managed-cases, proxy_handler-cases, proxy_handler_streamed, reply-cases,
  reply_with-IsStreamed,
}
use xboxproxy.Proxy.Handler.{
  Request, streamed, Env, reply_with, handle_managed, proxy_handler, ended_with,
  record_and_unavailable,
}

module _ (lib : Http) (f : Float) (env : Env lib f.Carrier) where
  open f use {Carrier as F}

  finalize_active :
      (r : Reading F) (s : RecordState F)
      → (finalize f r s).metrics.active_requests ≡ s.metrics.active_requests
  unfolding finalize record_request
  finalize_active r s = ground arith

  -- One guard is taken and dropped.
  guard_balanced :
      (m : MetricsStore F)
      → m.active_requests < u64_mod
      → (drop_guard (begin_request m env.began_at) env.ended_at).active_requests ≡ m.active_requests
  unfolding drop_guard begin_request
  guard_balanced m h = omega arith

  active-drop_guard :
      (a b : MetricsStore F)
      → a.active_requests ≡ b.active_requests
      → (drop_guard a env.ended_at).active_requests ≡ (drop_guard b env.ended_at).active_requests
  unfolding drop_guard
  active-drop_guard a b e = omega (arith, e)

  reply_with_active :
      (req : Request lib) (host path : Text) (m : MetricsStore F) (p : Progress F)
      → (reply_with lib f env req host path m p).metrics.active_requests
        ≡ (drop_guard m env.ended_at).active_requests
  unfolding reply_with ended_with record_and_unavailable
  reply_with_active req host path m p = elim (reply-cases lib f env req host path m p) [
    | inl (r, b, e, built) ↦ rw (e, reply_with, built)
    | inr (inl (r, x, e, b)) ↦
        rw (e, reply_with, b) (active-drop_guard _ m (finalize_active env.reading _))
    | inr (inr e) ↦ rw (e, reply_with) (active-drop_guard _ m (finalize_active env.reading _))
  ]

  handle_managed_active :
      (s : Selector F) (m : MetricsStore F) (req : Request lib) (host : Text)
      → m.active_requests < u64_mod
      → (handle_managed lib f env s m req host).metrics.active_requests ≡ m.active_requests
  unfolding handle_managed
  handle_managed_active s m req host h = elim (handle_managed-cases lib f env s m req host) [
    | inl (response, e, _, _) ↦ ap (λ t. t.metrics.active_requests) e ∙ guard_balanced m h
    | inr (path, b, p, _, e) ↦
        ap (λ t. t.metrics.active_requests) e
        ∙ reply_with_active req host path (begin_request m env.began_at) p
        ∙ guard_balanced m h
  ]

  -- If fewer than 2^64 requests are counted, the handler leaves the count of active requests as it
  -- was, on every path, the early returns and the failures included.
  pub proxy_handler_active :
      (s : Selector F) (m : MetricsStore F) (req : Request lib)
      → m.active_requests < u64_mod
      → (proxy_handler lib f env s m req).metrics.active_requests ≡ m.active_requests
  proxy_handler_active s m req h = elim (proxy_handler-cases lib f env s m req) [
    | inl (response, e, _, _) ↦ ap (λ t. t.metrics.active_requests) e
    | inr (host, e) ↦ ap (λ t. t.metrics.active_requests) e ∙ handle_managed_active s m req host h
  ]

  -- The polls of a body that is still being read.
  pub reading_from : List (Reading F × Poll) → RecordState F → RecordState F
  reading_from [] rs = rs
  reading_from ((r, p) ∷ polls) rs = reading_from polls (poll_next f r p rs)

  poll_next-SameActivity :
      (r : Reading F) (p : Poll) (rs : RecordState F)
      → ((poll_next f r p rs).metrics.active_requests ≡ rs.metrics.active_requests)
        × ((poll_next f r p rs).metrics.last_activity ≡ rs.metrics.last_activity)
  unfolding poll_next record_request
  poll_next-SameActivity r (chunk len) rs = (refl, refl)
  poll_next-SameActivity r (failed e) rs = (ground arith, ground arith)
  poll_next-SameActivity r finished rs = (ground arith, ground arith)
  poll_next-SameActivity r pending rs = (refl, refl)

  reading_from-SameActivity :
      (polls : List (Reading F × Poll)) (rs : RecordState F)
      → ((reading_from polls rs).metrics.active_requests ≡ rs.metrics.active_requests)
        × ((reading_from polls rs).metrics.last_activity ≡ rs.metrics.last_activity)
  unfolding reading_from
  reading_from-SameActivity [] rs = (refl, refl)
  reading_from-SameActivity ((r, p) ∷ polls) rs =
      let (a, l) = reading_from-SameActivity polls (poll_next f r p rs) in
      let (b, k) = poll_next-SameActivity r p rs in (a ∙ b, l ∙ k)

  streamed_metrics :
      (s : Selector F) (m : MetricsStore F) (req : Request lib) (rs : RecordState F)
      → (proxy_handler lib f env s m req).response.body ≡ streamed rs
      → rs.metrics ≡ drop_guard (begin_request m env.began_at) env.ended_at
  streamed_metrics s m req rs e =
      let (host, path, b, p, _, same) = proxy_handler_streamed lib f env s m req rs e in
      (reply_with-IsStreamed lib f env req host path (begin_request m env.began_at) p rs
        (sym (ap (λ h. h.response.body) same) ∙ e)).store

  -- If no other request is counted, then from one grace period after the handler returned a
  -- streamed body the store is not busy, whatever polls of that body come meanwhile.
  pub is_busy-reading_from :
      (s : Selector F) (m : MetricsStore F) (req : Request lib) (rs : RecordState F)
      (polls : List (Reading F × Poll)) (now grace : ℕ)
      → m.active_requests ≡ 0
      → (proxy_handler lib f env s m req).response.body ≡ streamed rs
      → env.ended_at + grace ≤ now
      → is_busy (reading_from polls rs).metrics now grace ≡ false
  unfolding is_busy
  is_busy-reading_from s m req rs polls now grace quiet e old =
      let (a, l) = reading_from-SameActivity polls rs in
      let same = streamed_metrics s m req rs e in
      let balanced = guard_balanced m (omega arith) in
      let active : (reading_from polls rs).metrics.active_requests ≡ 0 =
        a ∙ ap (λ t. t.active_requests) same ∙ balanced ∙ quiet in
      let stamp : (reading_from polls rs).metrics.last_activity ≡ env.ended_at =
        l ∙ ap (λ t. t.last_activity) same ∙ unfold drop_guard in refl in
      ground arith
