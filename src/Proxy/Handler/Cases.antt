-- ===== src/Proxy/Handler/Cases.antt =====
-- proxy.rs, `proxy_handler`: the ways in which it ends.
use xboxproxy.Prelude.{
  ◌≡◌, refl, sym, ap, ◌∙◌, false, ◌⊎◌, inl, inr, Option, none, some, Result, ok, err, List,
  Option-cases, Bool-cases, Result-cases, is_some, unwrap_or, ◌++◌,
}
use xboxproxy.Float.{Float}
use xboxproxy.Text.{Text, codes, trim}
use xboxproxy.Http.{Http}
use xboxproxy.Selector.{Selector, host_for, upstream_host_for}
use xboxproxy.Metrics.{MetricsStore, begin_request, drop_guard}
use xboxproxy.Proxy.Recording.{RecordState}
use xboxproxy.Proxy.Retry.{Reply, Progress, attempts_of}
use xboxproxy.Proxy.Headers.{
  host_name_from_header, forwarded_headers, connection_tokens, returned_headers,
}
use xboxproxy.Proxy.Handler.{
  Request, message, streamed, Response, Env, Handled, plain, bad_request, not_found,
  service_unavailable, reply_with, handle_managed, admit, proxy_handler, record_and_unavailable,
  ended_with,
}

module _ (lib : Http) (f : Float) (env : Env lib f.Carrier) (s : Selector f.Carrier)
    (m : MetricsStore f.Carrier) (req : Request lib) where
  open f use {Carrier as F}

  -- A managed request ends early, with a message, or in the reply that its attempts led to.
  pub handle_managed-cases :
      (host : Text)
      → ((response : Response F) × (handle_managed lib f env s m req host ≡ record {
        selector = s;
        metrics = drop_guard (begin_request m env.began_at) env.ended_at;
        response = response;
      })
          × (text : Text) × (response.body ≡ message text))
        ⊎ ((path : Text) × (b : Result Text (Unit {0})) × (p : Progress F) × (attempts_of f host
                env.turns b req.method s
              ≡ ok p)
            × (handle_managed lib f env s m req host
                ≡ reply_with lib f env req host path (begin_request m env.began_at) p))
  unfolding handle_managed bad_request service_unavailable plain
  handle_managed-cases host =
      let path = unwrap_or req.path_and_query (codes "/") in
      let target = codes "http://" ++ (unwrap_or (upstream_host_for s host) host ++ path) in
      elim (Option-cases (lib.parse_uri target)) [
        | inl e ↦
            let msg = codes "invalid request URI" in
            inl (bad_request msg, rw (e, handle_managed), msg, refl)
        | inr (uri, e) ↦
            let b =
              env.build_req uri (forwarded_headers lib req.method req.headers req.client_ip) in
            elim (Result-cases (attempts_of f host env.turns b req.method s)) [
              | inl (p, e2) ↦ inr (path, b, p, e2, rw (e, handle_managed, e2))
              | inr (x, e2) ↦
                  let msg = codes "upstream request build failed: " ++ x in
                  inl (service_unavailable msg, rw (e, handle_managed, e2), msg, refl)
            ]
      ]

  -- A request ends before it is counted, with a message and nothing changed, or it is managed.
  abbrev pub AdmitCases : Handled F → Type 0
  AdmitCases handled =
      ((response : Response F) × (handled
          ≡ record { selector = s; metrics = m; response = response })
        × (text : Text) × (response.body ≡ message text))
      ⊎ ((host : Text) × (handled ≡ handle_managed lib f env s m req host))

  admit-cases : (o : Option Text) → AdmitCases (admit lib f env s m req o)
  unfolding admit bad_request not_found plain
  admit-cases none = let msg = codes "missing Host header" in inl (bad_request msg, refl, msg, refl)
  admit-cases (some h) = elim (Option-cases (host_name_from_header lib (trim h))) [
    | inl e ↦
        let msg = codes "invalid Host header" in inl (bad_request msg, rw (e, admit), msg, refl)
    | inr (host, e) ↦ elim (Bool-cases (is_some (host_for s host))) [
      | inl e2 ↦ inr (host, rw (e, admit, e2))
      | inr e2 ↦ inl (not_found, rw (e, admit, e2), codes "host is not managed by xboxproxy", refl)
    ]
  ]

  pub proxy_handler-cases : AdmitCases (proxy_handler lib f env s m req)
  unfolding proxy_handler
  proxy_handler-cases = admit-cases req.host_header

  streamed-ne-message :
      (r : Response F) (text : Text) (rs : RecordState F)
      → r.body ≡ message text
      → r.body ≡ streamed rs
      → ⊥
  streamed-ne-message r text rs e q = cc

  -- A body that is streamed comes from the attempts.
  pub proxy_handler_streamed :
      (rs : RecordState F)
      → (proxy_handler lib f env s m req).response.body ≡ streamed rs
      → (host : Text) × (path : Text) × (b : Result Text (Unit {0})) × (p : Progress F)
        × (attempts_of f host env.turns b req.method s ≡ ok p)
        × (proxy_handler lib f env s m req
            ≡ reply_with lib f env req host path (begin_request m env.began_at) p)
  proxy_handler_streamed rs q = elim proxy_handler-cases [
    | inl (response, e, text, t) ↦
        absurd (streamed-ne-message response text rs t (sym (ap (λ h. h.response.body) e) ∙ q))
    | inr (host, e) ↦ elim (handle_managed-cases host) [
      | inl (response, e2, text, t) ↦
          absurd
            (streamed-ne-message response text rs t (sym (ap (λ h. h.response.body) (e ∙ e2)) ∙ q))
      | inr (path, b, p, tried, e2) ↦ (host, path, b, p, tried, e ∙ e2)
    ]
  ]

streamed-injective : {F : Type 0} {a b : RecordState F} → streamed a ≡ streamed b → a ≡ b
streamed-injective e = cc

module _ (lib : Http) (f : Float) (env : Env lib f.Carrier) (req : Request lib) (host path : Text)
    (m : MetricsStore f.Carrier) (p : Progress f.Carrier) where
  open f use {Carrier as F}

  -- A reply whose body is streamed has the response's status, in the record too, and the stream has
  -- the store that the handler leaves.
  pub record IsStreamed (h : Handled F) (rs : RecordState F) : Type 0 where
    pub reply : Reply
    pub responded : p.resp ≡ some reply
    pub status : h.response.status ≡ reply.status
    pub recorded_status : rs.meta.status ≡ unwrap_or p.upstream_status 502
    pub recorded_error : rs.error ≡ p.last_err
    pub recorded_host : rs.meta.host ≡ host
    pub recorded_ttfb : rs.meta.ttfb_ms ≡ p.ttfb_ms
    pub store : rs.metrics ≡ drop_guard m env.ended_at
    pub same_store : h.metrics ≡ drop_guard m env.ended_at
    pub unrecorded : rs.recorded ≡ false
    pub no_bytes : rs.bytes ≡ 0

  abbrev headers_of : Reply → List (Text × Text)
  headers_of r = returned_headers (connection_tokens lib (env.response_map r.headers)) r.headers

  -- A reply is a response that was built, one that was not, or none.
  pub reply-cases :
      ((r : Reply) × (b : Unit {0}) × (p.resp ≡ some r)
        × (env.build_response r.status (headers_of r) ≡ ok b))
      ⊎ ((r : Reply) × (e : Text) × (p.resp ≡ some r)
          × (env.build_response r.status (headers_of r) ≡ err e))
      ⊎ (p.resp ≡ none)
  reply-cases = elim (Option-cases p.resp) [
    | inl e ↦ inr (inr e)
    | inr (r, e) ↦ elim (Result-cases (env.build_response r.status (headers_of r))) [
      | inl (b, built) ↦ inl (r, b, e, built)
      | inr (x, failed) ↦ inr (inl (r, x, e, failed))
    ]
  ]

  not-streamed : (text : Text) (rs : RecordState F) → message text ≡ streamed rs → ⊥
  not-streamed text rs e = cc

  pub reply_with-IsStreamed :
      (rs : RecordState F)
      → (reply_with lib f env req host path m p).response.body ≡ streamed rs
      → IsStreamed (reply_with lib f env req host path m p) rs
  unfolding reply_with ended_with record_and_unavailable service_unavailable plain
  reply_with-IsStreamed rs q = elim reply-cases [
    | inr (inr e) ↦ absurd (not-streamed _ rs (rw (e, reply_with) at q))
    | inr (inl (r, x, e, failed)) ↦ absurd (not-streamed _ rs (rw (e, reply_with, failed) at q))
    | inl (r, b, e, built) ↦
        let same = streamed-injective (rw (e, reply_with, built) at q) in
        record {
          reply = r;
          responded = e;
          status = rw (e, reply_with, built);
          recorded_status = ap (λ t. t.meta.status) (sym same);
          recorded_error = ap (λ t. t.error) (sym same);
          recorded_host = ap (λ t. t.meta.host) (sym same);
          recorded_ttfb = ap (λ t. t.meta.ttfb_ms) (sym same);
          store = ap (λ t. t.metrics) (sym same);
          same_store = rw (e, reply_with, built);
          unrecorded = ap (λ t. t.recorded) (sym same);
          no_bytes = ap (λ t. t.bytes) (sym same);
        }
  ]
