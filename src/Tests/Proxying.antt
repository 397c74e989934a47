-- ===== src/Tests/Proxying.antt =====
-- Tests of proxy.rs: a GET of a managed name, whose first attempt fails.
use xboxproxy.Prelude.{
  ℕ, zero, suc, ℤ, pos, ◌<◌, ◌^◌, ◌≡◌, refl, false, List, [], ◌∷◌, Option, none, some, Result, ok,
  err, arith,
}
use xboxproxy.Float.Scaled.{scaled}
use xboxproxy.Text.{Text, codes, text_eq, trim, eq_ignore_ascii_case}
use xboxproxy.Net.{IpAddr}
use xboxproxy.Http.Lists.{plain_http, plain_http-IsHeaderMap}
use xboxproxy.Hosts.{manages, upstream_in}
use xboxproxy.Candidates.{best_candidate}
use xboxproxy.Selector.{index_of, best_ip, mark_failure, host_for, upstream_host_for}
use xboxproxy.Metrics.{MetricsStore, begin_request, drop_guard, is_busy}
use xboxproxy.Proxy.Recording.{
  RecordState, RequestMeta, Reading, Poll, chunk, failed, finished, pending, stream_body,
}
use xboxproxy.Proxy.Recording.Once.{IsRecorded}
use xboxproxy.Proxy.Retry.{get, other, Reply, Turn, Progress, retryable, attempts_of}
use xboxproxy.Proxy.Retry.Bounds.{IsTried, attempts_of-IsTried}
use xboxproxy.Proxy.Retry.First.{AnswersAt, attempts_of-first}
use xboxproxy.Proxy.Headers.{
  host_name_from_header, forwarded_headers, is_dropped, connection_tokens,
}
use xboxproxy.Proxy.Headers.Forwarded.{last_value, forwarded_headers_values}
use xboxproxy.Proxy.Handler.{Request, streamed, Env, handle_managed, reply_with, proxy_handler}
use xboxproxy.Proxy.Handler.Activity.{proxy_handler_active, reading_from, is_busy-reading_from}
use xboxproxy.Proxy.Handler.Replies.{IsOutcome, proxy_handler-IsRecorded}
use xboxproxy.Tests.Data.{ip1, ip2, client_host, servers}

abbrev pub store : MetricsStore ℤ
store = record { db_tx = []; active_requests = 0; last_activity = 0 }

abbrev pub reading : Reading ℤ
reading = record { now = 1003; duration_ms = 3000; duration_secs = pos 3 }

abbrev meta : RequestMeta
meta = record {
  client_ip = codes "10.0.0.9";
  host = client_host;
  path = codes "/game";
  method = codes "GET";
  status = 200;
  upstream_ip = none;
  passthrough = false;
  ttfb_ms = 12;
}

abbrev fresh : RecordState ℤ
fresh = record { metrics = store; meta = meta; bytes = 0; recorded = false; error = none }

-- Two chunks, a poll that waits, an error, and a poll after the error.
abbrev pub polls : List (Reading ℤ × Poll)
polls =
    (reading, chunk 700)
    ∷ (reading, pending)
    ∷ (reading, chunk 300)
    ∷ (reading, failed (codes "reset"))
    ∷ (reading, finished)
    ∷ []

abbrev reply : Reply
reply = record {
  status = 200;
  headers = (codes "content-length", codes "1000") ∷ (codes "connection", codes "close") ∷ [];
  chosen = some ip1;
  ttfb_ms = 12;
}

-- The first turn fails, the others get the reply.
abbrev pub answers : ℕ → Option IpAddr → Result Text Reply
answers zero ip = err (codes "refused")
answers (suc j) ip = ok reply

abbrev turns : ℕ → Turn ℤ
turns j = record { chosen_at = 1000; failed_at = 1001; meanwhile = λ s. s; answer = answers j }

answers_at : AnswersAt scaled client_host turns 1 reply
answers_at = record { before = first_fails; at = λ ip. refl }
  where
    first_fails :
        (j : ℕ) → j < 1 → (ip : Option IpAddr) → (e : Text) × ((turns j).answer ip ≡ err e)
    first_fails zero h ip = (codes "refused", refl)
    first_fails (suc j) h ip = absurd (omega arith)

attempts_of-first_example :
    (p : Progress ℤ) × (attempts_of scaled client_host turns (ok tt) get servers ≡ ok p)
    × (p.resp ≡ some reply)
    × (p.attempts ≡ 2)
unfolding retryable
attempts_of-first_example =
    attempts_of-first scaled client_host turns tt get servers 1 reply refl answers_at (omega arith)

-- A POST whose only attempt fails.
abbrev posted : Progress ℤ
posted = record {
  selector = mark_failure servers 1001 client_host ip2;
  resp = none;
  ttfb_ms = 0;
  upstream_ip = none;
  upstream_status = none;
  last_err = some (codes "refused");
  attempts = 1;
}

attempts_of-IsTried_example : IsTried scaled client_host turns (other (codes "POST")) posted
unfolding attempts_of best_ip index_of manages eq_ignore_ascii_case best_candidate
attempts_of-IsTried_example =
    attempts_of-IsTried scaled client_host turns (ok tt) (other (codes "POST")) servers posted refl

abbrev client_headers : List (Text × Text)
client_headers =
    (codes "accept", codes "a")
    ∷ (codes "accept", codes "b")
    ∷ (codes "connection", codes "close, X-Debug")
    ∷ (codes "x-debug", codes "1")
    ∷ []

forwarded_headers_values_example :
    plain_http.get_all
      (forwarded_headers plain_http get client_headers (codes "10.0.0.9"))
      (codes "accept")
    ≡ codes "b" ∷ []
unfolding is_dropped connection_tokens last_value text_eq
forwarded_headers_values_example =
    forwarded_headers_values plain_http plain_http-IsHeaderMap get client_headers (codes "10.0.0.9")
      (codes "accept")

abbrev pub env : Env plain_http ℤ
env = record {
  began_at = 1000;
  ended_at = 1002;
  turns = turns;
  reading = reading;
  build_req = λ uri fwd. ok tt;
  build_response = λ status headers. ok tt;
  response_map = λ l. l;
  print_ip = λ ip. codes "1.1.1.1";
}

abbrev pub request : Text → Request plain_http
request host = record {
  method = get;
  client_ip = codes "10.0.0.9";
  host_header = some host;
  path_and_query = some (codes "/game");
  headers = client_headers;
}

proxy_handler_active_example :
    (proxy_handler plain_http scaled env servers store
      (request client_host)).metrics.active_requests
    ≡ 0
proxy_handler_active_example =
    proxy_handler_active plain_http scaled env servers store (request client_host) (omega arith)

-- The body of the request.
abbrev pub streaming : RecordState ℤ
streaming = record {
  metrics = record { db_tx = []; active_requests = 0; last_activity = 1002 };
  meta = record meta { upstream_ip = some (codes "1.1.1.1") };
  bytes = 0;
  recorded = false;
  error = some (codes "refused");
}

pub streams :
    (proxy_handler plain_http scaled env servers store (request client_host)).response.body
    ≡ streamed streaming
unfolding proxy_handler host_name_from_header trim text_eq host_for manages handle_managed
    upstream_host_for upstream_in attempts_of reply_with drop_guard begin_request
streams = refl

is_busy-reading_from_example :
    is_busy
      (reading_from plain_http scaled env
        ((reading, chunk 700) ∷ (reading, chunk 300) ∷ [])
        streaming).metrics
      1062
      60
    ≡ false
is_busy-reading_from_example =
    is_busy-reading_from plain_http scaled env servers store (request client_host) streaming
      ((reading, chunk 700) ∷ (reading, chunk 300) ∷ []) 1062 60 refl streams (omega arith)

proxy_handler-IsRecorded_example :
    IsRecorded scaled polls streaming (stream_body scaled polls reading streaming).metrics
    × (streaming.bytes ≡ 0)
    × IsOutcome plain_http scaled env servers store
        (request client_host)
        client_host
        (some (codes "refused"))
    × (200
        ≡ (proxy_handler plain_http scaled env servers store (request client_host)).response.status)
proxy_handler-IsRecorded_example =
    proxy_handler-IsRecorded plain_http scaled env servers store (request client_host) streaming
      polls reading streams

pub served :
    (proxy_handler plain_http scaled env servers store (request client_host)).response.status
    < 2 ^ 16
unfolding proxy_handler host_name_from_header trim text_eq host_for manages handle_managed
    upstream_host_for upstream_in attempts_of reply_with drop_guard begin_request
served = omega arith
