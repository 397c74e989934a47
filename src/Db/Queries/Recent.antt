-- ===== src/Db/Queries/Recent.antt =====
-- db.rs: what the lists of recent requests and speed tests hold.
use mathlib.Core.Option
use mathlib.Core.List.{reverse, reverse-append, map-append}
use xboxproxy.Prelude.{
  suc, ℕ, ◌^◌, ◌<◌, ◌≡◌, refl, ap, sym, ◌∙◌, ℤ, pos, as_u16, as_u64, as_i64, as_u64-as_i64, leb_ℤ,
  eq_ℤ, Bool, true, false, not, List, [], ◌∷◌, map, Option, none, some, All, All-select, select,
  take, map-take, map-reverse_aux, map-select, arith, ◌&&◌, if◌then◌else◌, select_all,
}
use xboxproxy.Db.{
  SpeedTestRecord, RequestRecord, HasWords, DbCommand, insert_request, insert_speed_test, cleanup,
}
use xboxproxy.Db.Tables.Survivors.{outlives, surviving, stored, stored-writer_loop}
use xboxproxy.Db.Tables.{
  SpeedTestRow, speedtest_row, RequestRow, Database, Answers, bool_as_i64, request_row, execute,
  init, writer_loop,
}
use xboxproxy.Db.Queries.{
  clamp_limit, row_to_request, row_to_speedtest, requests_since, recent_requests, recent_speedtests,
}

clamp_limit-suc : (n : ℕ) → n < 500 → clamp_limit (pos (suc n)) ≡ suc n
clamp_limit-suc n h = ground arith

clamp_limit-word : (n : ℕ) → n < 500 → clamp_limit (pos n) ≡ n
clamp_limit-word n h = ground arith

-- The request is in the window.
unfoldable pub is_since : Option ℤ → ℤ → Bool
is_since none ts = true
is_since (some since) ts = leb_ℤ since ts

not-bool_as_i64 : (b : Bool) → not (eq_ℤ (bool_as_i64 b) (pos 0)) ≡ b
not-bool_as_i64 true = refl
not-bool_as_i64 false = refl

as_u16-word : (n : ℕ) → n < 2 ^ 16 → as_u16 (pos n) ≡ n
as_u16-word n h = omega arith

module _ {F : Type 0} where
  row_to_request-request_row :
      (r : RequestRecord F) → HasWords r → row_to_request (request_row r) ≡ r
  unfolding row_to_request request_row
  row_to_request-request_row r w = rw (
    as_u64-as_i64 r.bytes w.bytes-lt,
    as_u64-as_i64 r.duration_ms w.duration_ms-lt,
    as_u64-as_i64 r.ttfb_ms w.ttfb_ms-lt,
    not-bool_as_i64 r.passthrough,
    as_u16-word r.status w.status-lt,
  )

  -- The requests that are inserted and outlive the later clean-ups.
  unfoldable pub sent : List (Answers × DbCommand F) → List (RequestRecord F)
  sent [] = []
  sent (((done, _), insert_request r) ∷ cmds) =
      let rest = sent cmds in if done && outlives cmds r.ts then r ∷ rest else rest
  sent ((a, insert_speed_test s) ∷ cmds) = sent cmds
  sent ((a, cleanup cutoff) ∷ cmds) = sent cmds

  abbrev pub HaveWords : List (Answers × DbCommand F) → Type 0
  HaveWords [] = Unit
  HaveWords ((a, insert_request r) ∷ cmds) = HasWords r × HaveWords cmds
  HaveWords ((a, insert_speed_test s) ∷ cmds) = HaveWords cmds
  HaveWords ((a, cleanup cutoff) ∷ cmds) = HaveWords cmds

  one_more :
      (b : Bool) (r : RequestRecord F) (rows : List (RequestRow F)) (rs : List (RequestRecord F))
      → HasWords r
      → rows ≡ map request_row rs
      → All HasWords rs
      → (if b then request_row r ∷ rows else rows) ≡ map request_row (if b then r ∷ rs else rs)
        × All HasWords (if b then r ∷ rs else rs)
  one_more true r rows rs w e ws = (ap (λ l. request_row r ∷ l) e, (w, ws))
  one_more false r rows rs w e ws = (e, ws)

  surviving-map :
      (cmds : List (Answers × DbCommand F))
      → HaveWords cmds
      → (surviving cmds ≡ map request_row (sent cmds)) × All HasWords (sent cmds)
  unfolding surviving sent
  surviving-map [] w = (refl, tt)
  surviving-map (((done, q), insert_request r) ∷ cmds) (w, ws) =
      let (e, h) = surviving-map cmds ws in
      one_more (done && outlives cmds r.ts) r (surviving cmds) (sent cmds) w e h
  surviving-map ((a, insert_speed_test s) ∷ cmds) ws = surviving-map cmds ws
  surviving-map ((a, cleanup cutoff) ∷ cmds) ws = surviving-map cmds ws

  requests_since-select :
      (since : Option ℤ) (db : Database F)
      → requests_since since db ≡ select (λ row. is_since since row.ts) (stored db)
  unfolding requests_since is_since
  requests_since-select none db = sym (select_all _)
  requests_since-select (some since) db = refl

  map-row_to_request :
      (rs : List (RequestRecord F)) → All HasWords rs → map row_to_request (map request_row rs) ≡ rs
  map-row_to_request [] h = refl
  map-row_to_request (r ∷ rs) (w, ws) =
      rw (row_to_request-request_row r w, map-row_to_request rs ws)

  -- From an empty database, after the writer's loop over commands whose request records hold
  -- machine words (a status below 2^16, the other numbers below 2^64), whatever SQLite answered to
  -- each statement: the list of recent requests is that of the records themselves which were
  -- inserted, are not older than a later successful clean-up's cutoff, and are in the window,
  -- newest first and cut off at the limit, at 500 and at 0 if it is negative.
  pub recent_requests-writer_loop :
      (limit : ℤ) (since : Option ℤ) (cmds : List (Answers × DbCommand F))
      → HaveWords cmds
      → recent_requests limit since (writer_loop cmds init)
        ≡ take (clamp_limit limit) (reverse (select (λ r. is_since since r.ts) (sent cmds)))
  unfolding recent_requests request_row
  recent_requests-writer_loop limit since cmds w =
      let (e, h) = surviving-map cmds w in
      let p = λ (ts : ℤ). is_since since ts in
      let kept = select (λ (r : RequestRecord F). p r.ts) (sent cmds) in
      map-take row_to_request (clamp_limit limit)
        (reverse (requests_since since (writer_loop cmds init)))
      ∙ ap (take (clamp_limit limit)) (
          map-reverse_aux row_to_request (requests_since since (writer_loop cmds init)) []
          ∙ ap (λ l. reverse (map row_to_request l))
              (requests_since-select since (writer_loop cmds init)
                ∙ ap (select (λ row. p row.ts)) (stored-writer_loop cmds init ∙ e)
                ∙ sym (map-select request_row (λ row. p row.ts) (sent cmds)))
          ∙ ap reverse (map-row_to_request kept (All-select HasWords (λ r. p r.ts) (sent cmds) h)))

  -- A request that is inserted is the first of the list, if it has a place there.
  pub recent_requests-execute :
      (n : ℕ) (q : Bool) (r : RequestRecord F) (db : Database F)
      → n < 500
      → HasWords r
      → recent_requests (pos (suc n)) none (execute (true, q) (insert_request r) db)
        ≡ r ∷ recent_requests (pos n) none db
  unfolding recent_requests requests_since execute
  recent_requests-execute n q r db h w =
      rw
        (
          map-append (λ (x : ℕ × RequestRow F). x.1) db.requests
              ((db.next_request, request_row r) ∷ []),
          reverse-append (map (λ (x : ℕ × RequestRow F). x.1) db.requests) (request_row r ∷ []),
          clamp_limit-suc n h,
          clamp_limit-word n h,
          row_to_request-request_row r w,
        )
        refl

-- A latency that a machine word can hold.
abbrev pub IsWord : Option ℕ → Type 0
IsWord none = Unit
IsWord (some n) = n < 2 ^ 64

map-as_u64 : (o : Option ℕ) → IsWord o → Option.map as_u64 (Option.map as_i64 o) ≡ o
map-as_u64 none h = refl
map-as_u64 (some n) h = ap some (as_u64-as_i64 n h)

module _ {F : Type 0} where
  row_to_speedtest-speedtest_row :
      (r : SpeedTestRecord F) → IsWord r.latency_ms → row_to_speedtest (speedtest_row r) ≡ r
  unfolding row_to_speedtest speedtest_row
  row_to_speedtest-speedtest_row r w =
      rw (map-as_u64 r.latency_ms w, not-bool_as_i64 r.success) refl

  -- A speed test that is inserted is the first of the list, if it has a place there.
  pub recent_speedtests-execute :
      (n : ℕ) (q : Bool) (r : SpeedTestRecord F) (db : Database F)
      → n < 500
      → IsWord r.latency_ms
      → recent_speedtests (pos (suc n)) (execute (true, q) (insert_speed_test r) db)
        ≡ r ∷ recent_speedtests (pos n) db
  unfolding recent_speedtests execute
  recent_speedtests-execute n q r db h w =
      rw
        (
          map-append (λ (x : ℕ × SpeedTestRow F). x.1) db.speedtests
              ((db.next_speedtest, speedtest_row r) ∷ []),
          reverse-append (map (λ (x : ℕ × SpeedTestRow F). x.1) db.speedtests)
              (speedtest_row r ∷ []),
          clamp_limit-suc n h,
          clamp_limit-word n h,
          row_to_speedtest-speedtest_row r w,
        )
        refl
