-- ===== src/Proxy/Handler/Shown.antt =====
-- proxy.rs, metrics.rs, db.rs: the way of a request from the handler to the dashboard's list.
use xboxproxy.Prelude.{
  ℕ, suc, ◌%◌, ◌^◌, ◌<◌, ◌≡◌, ap, ◌∙◌, pos, Bool, true, List, [], ◌∷◌, ◌++◌, none, arith,
}
use xboxproxy.Float.{Float}
use xboxproxy.Http.{Http}
use xboxproxy.Db.{RequestRecord, HasWords, insert_request}
use xboxproxy.Db.Tables.{Database, execute}
use xboxproxy.Db.Queries.{recent_requests}
use xboxproxy.Db.Queries.Recent.{recent_requests-execute}
use xboxproxy.Selector.{Selector}
use xboxproxy.Metrics.{MetricsStore, record_request, u64_mod}
use xboxproxy.Proxy.Recording.{RecordState, Reading, Poll, stream_body}
use xboxproxy.Proxy.Recording.Once.{bytes_of, error_of}
use xboxproxy.Proxy.Handler.{Request, streamed, Env, proxy_handler}
use xboxproxy.Proxy.Handler.Replies.{IsOutcome, proxy_handler-IsRecorded}
use xboxproxy.Proxy.Retry.{attempts_of}

module _ (lib : Http) (f : Float) (env : Env lib f.Carrier) (s : Selector f.Carrier)
    (m : MetricsStore f.Carrier) (req : Request lib) where
  open f use {Carrier as F}

  -- The command that the body sends last, and the list of `n + 1` requests when it is executed.
  pub record IsShown (rs : RecordState F) (polls : List (Reading F × Poll)) (after : MetricsStore F)
      (n : ℕ) (q : Bool) (db : Database F) (rec : RequestRecord F) : Type 0 where
    pub sent : after.db_tx ≡ rs.metrics.db_tx ++ insert_request rec ∷ []
    pub shown :
        recent_requests (pos (suc n)) none (execute (true, q) (insert_request rec) db)
        ≡ rec ∷ recent_requests (pos n) none db
    pub status : rec.status ≡ (proxy_handler lib f env s m req).response.status
    pub bytes : rec.bytes ≡ bytes_of f polls % u64_mod
    pub outcome : IsOutcome lib f env s m req rec.host rs.error
    pub error : rec.error ≡ error_of f polls outcome.progress.last_err

  -- If the handler returns a body that is streamed, its status fits 16 bits and the time to the
  -- headers 64, then the last command that the body sends, however it is polled and dropped, is a
  -- record with the status that the client got, the bytes of the chunks before the body's end
  -- (modulo 2^64) and the error that ended the body or else the one that the attempts under the
  -- record's host left, which ended in a response; and on any database, once the command is
  -- executed, the dashboard's list of the `n + 1` last requests, for `n` below 500, is that same
  -- record and then the list of the `n` last requests from before.
  pub proxy_handler-IsShown :
      (rs : RecordState F) (polls : List (Reading F × Poll)) (dropped : Reading F) (n : ℕ)
      (q : Bool) (db : Database F)
      → (proxy_handler lib f env s m req).response.body ≡ streamed rs
      → (proxy_handler lib f env s m req).response.status < 2 ^ 16
      → rs.meta.ttfb_ms < 2 ^ 64
      → n < 500
      → (rec : RequestRecord F) × IsShown rs polls
          (stream_body f polls dropped rs).metrics
          n
          q
          db
          rec
  unfolding record_request
  proxy_handler-IsShown rs polls dropped n q db e u16 u64 h =
      let ((rec, sent, bytes, error, status, host, ttfb, duration), none_yet, out, same) =
        proxy_handler-IsRecorded lib f env s m req rs polls dropped e in
      let w : HasWords rec = record {
        status-lt = omega (arith, status, same, u16);
        bytes-lt = omega (arith, bytes);
        duration_ms-lt = duration;
        ttfb_ms-lt = omega (arith, ttfb, u64);
      } in
      (
        rec,
        record {
          sent = ap (λ t. t.db_tx) sent;
          shown = recent_requests-execute n q rec db h w;
          status = status ∙ same;
          bytes = omega (arith, bytes, none_yet);
          outcome = record {
            build_req = out.build_req;
            progress = out.progress;
            tried = ap (λ n. attempts_of f n env.turns out.build_req req.method s) host ∙ out.tried;
            answered = out.answered;
            same_error = out.same_error;
          };
          error = error ∙ ap (λ x. error_of f polls x) out.same_error;
        },
      )
