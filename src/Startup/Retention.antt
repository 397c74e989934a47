-- ===== src/Startup/Retention.antt =====
-- main.rs, db.rs: how long a request stays in the database.
use mathlib.Core.Path.{subst}
use mathlib.Core.List.Memᴰ
use xboxproxy.Prelude.{
  ℕ, ◌+◌, ◌*◌, ◌^◌, ◌≤◌, ◌<◌, ◌≡◌, refl, sym, pos, leb_ℤ, Bool, true, false, not, ◌||◌, ◌&&◌, List,
  [], ◌∷◌, select, Memᴰ, arith,
}
use xboxproxy.Db.{RequestRecord, DbCommand, insert_request, insert_speed_test, cleanup}
use xboxproxy.Db.Tables.{Database, Answers, request_row, writer_loop}
use xboxproxy.Db.Tables.Survivors.{outlives, surviving, stored, stored-writer_loop}
use xboxproxy.Startup.{cutoff_at}

-- The ticks come up to seven days after `t`, on a clock that an i64 can show.
kept-cutoff_at :
    (now t : ℕ) → now ≤ t + 7 * 86400 → now < 2 ^ 63 → leb_ℤ (cutoff_at now) (pos t) ≡ true
kept-cutoff_at now t h k = ground arith

module _ {F : Type 0} where
  -- The clean-ups among the commands are those of ticks up to seven days after `t`.
  unfoldable pub AreWithin : ℕ → List (Answers × DbCommand F) → Type 0
  AreWithin t [] = Unit
  AreWithin t ((a, insert_request r) ∷ cmds) = AreWithin t cmds
  AreWithin t ((a, insert_speed_test s) ∷ cmds) = AreWithin t cmds
  AreWithin t ((a, cleanup cutoff) ∷ cmds) =
      ((now : ℕ) × (cutoff ≡ cutoff_at now) × now ≤ t + 7 * 86400 × now < 2 ^ 63) × AreWithin t cmds

  outlives-AreWithin :
      (t : ℕ) (cmds : List (Answers × DbCommand F))
      → AreWithin t cmds
      → outlives cmds (pos t) ≡ true
  unfolding outlives AreWithin
  outlives-AreWithin t [] h = refl
  outlives-AreWithin t ((a, insert_request r) ∷ cmds) h = outlives-AreWithin t cmds h
  outlives-AreWithin t ((a, insert_speed_test s) ∷ cmds) h = outlives-AreWithin t cmds h
  outlives-AreWithin t (((done, q), cleanup cutoff) ∷ cmds) ((now, e, l, k), h) =
      rw (e, kept-cutoff_at now t l k, outlives-AreWithin t cmds h) (either done)
    where
      either : (b : Bool) → ((not b || true) && true) ≡ true
      either true = refl
      either false = refl

  -- If SQLite stores a request of time `t`, and every clean-up among the later commands was sent by
  -- the task of the program at a tick up to seven days after `t`, on a clock below 2^63, then after
  -- the writer has executed them all the request's row is still stored.
  pub writer_loop-AreWithin :
      (t : ℕ) (q : Bool) (r : RequestRecord F) (cmds : List (Answers × DbCommand F))
      (db : Database F)
      → r.ts ≡ pos t
      → AreWithin t cmds
      → Memᴰ (request_row r) (stored (writer_loop (((true, q), insert_request r) ∷ cmds) db))
  unfolding surviving
  writer_loop-AreWithin t q r cmds db e h =
      let all = ((true, q), insert_request r) ∷ cmds in
      let here : Memᴰ (request_row r) (surviving all) =
        rw (e, outlives-AreWithin t cmds h) (Memᴰ.head refl) in
      subst (Memᴰ (request_row r)) (sym (stored-writer_loop all db))
        (Memᴰ.append_right (select (λ row. outlives all row.ts) (stored db)) here)
