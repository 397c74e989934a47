-- ===== src/Proxy/Handler.antt =====
-- proxy.rs, `proxy_handler`: from a client's request to the response, with the guard that counts the
-- request as active while the handler runs.
pub mod Cases
pub mod Activity
pub mod Replies
pub mod Shown
use mathlib.Core.Option
use xboxproxy.Prelude.{
  ℕ, zero, ◌+◌, Bool, true, false, not, List, [], ◌∷◌, ◌++◌, map, Option, none, some, Result, ok,
  err, is_some, unwrap_or, if◌then◌else◌,
}
use xboxproxy.Float.{Float}
use xboxproxy.Net.{IpAddr}
use xboxproxy.Text.{Text, codes, trim}
use xboxproxy.Http.{Http}
use xboxproxy.Selector.{Selector, host_for, upstream_host_for}
use xboxproxy.Metrics.{MetricsStore, begin_request, drop_guard}
use xboxproxy.Proxy.Recording.{RequestMeta, RecordState, Reading, finalize}
use xboxproxy.Proxy.Retry.{Method, get, head, other, Reply, Turn, Progress, attempts_of}
use xboxproxy.Proxy.Headers.{
  host_name_from_header, forwarded_headers, connection_tokens, returned_headers,
}

pub record Request (lib : Http) : Type 0 where
  pub method : Method
  pub client_ip : Text
  -- The `Host` header, if there is one that `to_str` reads.
  pub host_header : Option Text
  pub path_and_query : Option Text
  pub headers : lib.HeaderMap

pub data Body (F : Type 0) : Type 0 where
  message : Text → Body F
  streamed : RecordState F → Body F

pub record Response (F : Type 0) : Type 0 where
  pub status : ℕ
  pub headers : List (Text × Text)
  pub body : Body F

-- What a request meets: the clock at the start and at the drop of the guard, the turns of its
-- attempts, the clocks when a failure is recorded, and what the two `builder`s and
-- `to_string` answer.
pub record Env (lib : Http) (F : Type 0) : Type 0 where
  pub began_at : ℕ
  pub ended_at : ℕ
  pub turns : ℕ → Turn F
  pub reading : Reading F
  pub build_req : lib.Uri → lib.HeaderMap → Result Text (Unit {0})
  pub build_response : ℕ → List (Text × Text) → Result Text (Unit {0})
  pub response_map : List (Text × Text) → lib.HeaderMap
  pub print_ip : IpAddr → Text

-- What a request leaves: the selector, the metrics store and the response.
pub record Handled (F : Type 0) : Type 0 where
  pub selector : Selector F
  pub metrics : MetricsStore F
  pub response : Response F

abbrev pub method_name : Method → Text
method_name get = codes "GET"
method_name head = codes "HEAD"
method_name (other m) = m

abbrev text_plain : List (Text × Text)
text_plain = (codes "content-type", codes "text/plain; charset=utf-8") ∷ []

-- The message of a 502.
unfoldable pub unreachable : Option Text → Text
unreachable (some e) = codes "upstream unreachable: " ++ e
unreachable none = codes "upstream unreachable"

module _ {F : Type 0} where
  unfoldable pub plain : ℕ → Text → Response F
  plain status msg = record { status = status; headers = text_plain; body = message msg }

  unfoldable pub bad_request : Text → Response F
  unfolding plain
  bad_request msg = plain 400 msg

  unfoldable pub not_found : Response F
  unfolding plain
  not_found = plain 404 (codes "host is not managed by xboxproxy")

  unfoldable pub service_unavailable : Text → Response F
  unfolding plain
  service_unavailable msg = plain 502 msg

module _ (f : Float) (reading : Reading f.Carrier) where
  open f use {Carrier as F}

  -- A reply without a body to stream: it is recorded at once, then sent with status 502.
  unfoldable pub record_and_unavailable : RecordState F → Text → MetricsStore F × Response F
  record_and_unavailable state msg = ((finalize f reading state).metrics, service_unavailable msg)

module _ (lib : Http) (f : Float) (env : Env lib f.Carrier) where
  open f use {Carrier as F}

  meta_of : Request lib → Text → Text → Progress F → RequestMeta
  meta_of req host_name path_and_query p = record {
    client_ip = req.client_ip;
    host = host_name;
    path = path_and_query;
    method = method_name req.method;
    status = unwrap_or p.upstream_status 502;
    upstream_ip = Option.map env.print_ip p.upstream_ip;
    passthrough = false;
    ttfb_ms = p.ttfb_ms;
  }

  record_state : MetricsStore F → RequestMeta → Progress F → RecordState F
  record_state metrics meta p = record {
    metrics = metrics;
    meta = meta;
    bytes = 0;
    recorded = false;
    error = p.last_err;
  }

  unfoldable pub ended_with : Progress F → MetricsStore F × Response F → Handled F
  ended_with p (metrics, response) = record {
    selector = p.selector;
    metrics = drop_guard metrics env.ended_at;
    response = response;
  }

  -- From the attempts on. The guard is dropped when the handler returns: the stream that it returns
  -- has the store of then. A stream that no response could be built with is dropped unread.
  unfoldable pub reply_with : Request lib → Text → Text → MetricsStore F → Progress F → Handled F
  unfolding meta_of record_state
  reply_with req host_name path_and_query metrics p =
      let state = record_state metrics (meta_of req host_name path_and_query p) p in
      elim p.resp [
        | some r ↦
            let headers =
              returned_headers (connection_tokens lib (env.response_map r.headers)) r.headers in
            elim (env.build_response r.status headers) [
              | ok b ↦
                  let ended = drop_guard metrics env.ended_at in
                  record {
                    selector = p.selector;
                    metrics = ended;
                    response = record {
                      status = r.status;
                      headers = headers;
                      body = streamed (record state { metrics = ended });
                    };
                  }
              | err e ↦ ended_with p (
                (finalize f env.reading state).metrics,
                service_unavailable (codes "response build failed: " ++ e),
              )
            ]
        | none ↦ ended_with p (record_and_unavailable f env.reading state (unreachable p.last_err))
      ]

  -- A request for a managed name, with its guard.
  unfoldable pub handle_managed : Selector F → MetricsStore F → Request lib → Text → Handled F
  handle_managed selector metrics req host_name =
      let active = begin_request metrics env.began_at in
      let early : Response F → Handled F = λ response. record {
        selector = selector;
        metrics = drop_guard active env.ended_at;
        response = response;
      } in
      let path_and_query = unwrap_or req.path_and_query (codes "/") in
      let upstream_host = unwrap_or (upstream_host_for selector host_name) host_name in
      elim (lib.parse_uri (codes "http://" ++ (upstream_host ++ path_and_query))) [
        | none ↦ early (bad_request (codes "invalid request URI"))
        | some uri ↦
            let fwd = forwarded_headers lib req.method req.headers req.client_ip in
            elim (attempts_of f host_name env.turns (env.build_req uri fwd) req.method selector) [
              | err e ↦ early (service_unavailable (codes "upstream request build failed: " ++ e))
              | ok p ↦ reply_with req host_name path_and_query active p
            ]
      ]

  -- From the `Host` header on.
  unfoldable pub admit : Selector F → MetricsStore F → Request lib → Option Text → Handled F
  admit selector metrics req none = record {
    selector = selector;
    metrics = metrics;
    response = bad_request (codes "missing Host header");
  }
  admit selector metrics req (some h) = elim (host_name_from_header lib (trim h)) [
    | none ↦ record {
      selector = selector;
      metrics = metrics;
      response = bad_request (codes "invalid Host header");
    }
    | some host_name ↦
        if is_some (host_for selector host_name)
        then handle_managed selector metrics req host_name
        else record { selector = selector; metrics = metrics; response = not_found }
  ]

  unfoldable pub proxy_handler : Selector F → MetricsStore F → Request lib → Handled F
  unfolding admit
  proxy_handler selector metrics req = admit selector metrics req req.host_header
