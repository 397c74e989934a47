-- ===== src/Db/Tables/Survivors.antt =====
-- db.rs: which requests are stored after the writer thread has run.
use mathlib.Core.List.{append_assoc, append-nil, map-append}
use xboxproxy.Prelude.{
  ℤ, leb_ℤ, ◌≡◌, refl, sym, ap, ◌∙◌, Bool, true, false, not, ◌&&◌, ◌||◌, List, [], ◌∷◌, ◌++◌, map,
  select, map-select, select-append, select-select, select_all, if◌then◌else◌,
}
use xboxproxy.Db.{DbCommand, insert_request, insert_speed_test, cleanup}
use xboxproxy.Db.Tables.{
  RequestRow, Database, Answers, request_row, delete_requests, delete_speedtests, writer_loop,
}

module _ {F : Type 0} where
  -- No later clean-up that succeeds has a cutoff after `ts`.
  unfoldable pub outlives : List (Answers × DbCommand F) → ℤ → Bool
  outlives [] ts = true
  outlives ((a, insert_request r) ∷ cmds) ts = outlives cmds ts
  outlives ((a, insert_speed_test s) ∷ cmds) ts = outlives cmds ts
  outlives (((done, _), cleanup cutoff) ∷ cmds) ts =
      (not done || leb_ℤ cutoff ts) && outlives cmds ts

  -- The rows of the requests that are inserted and outlive what comes after.
  unfoldable pub surviving : List (Answers × DbCommand F) → List (RequestRow F)
  unfolding outlives
  surviving [] = []
  surviving (((done, _), insert_request r) ∷ cmds) =
      let rest = surviving cmds in if done && outlives cmds r.ts then request_row r ∷ rest else rest
  surviving ((a, insert_speed_test s) ∷ cmds) = surviving cmds
  surviving ((a, cleanup cutoff) ∷ cmds) = surviving cmds

  abbrev pub stored : Database F → List (RequestRow F)
  stored db = map (λ row. row.1) db.requests

  abbrev keep : List (Answers × DbCommand F) → List (RequestRow F) → List (RequestRow F)
  keep cmds = select (λ row. outlives cmds row.ts)

  one_more :
      (b : Bool) (row : RequestRow F) (rest : List (RequestRow F))
      → (if b then row ∷ [] else []) ++ rest ≡ (if b then row ∷ rest else rest)
  one_more true row rest = refl
  one_more false row rest = refl

  deleted :
      (cutoff : ℤ) (cmds : List (Answers × DbCommand F)) (db : Database F)
      → keep cmds (stored (delete_requests cutoff db)) ++ surviving cmds
        ≡ select (λ row. leb_ℤ cutoff row.ts && outlives cmds row.ts) (stored db) ++ surviving cmds
  unfolding delete_requests
  deleted cutoff cmds db =
      ap (λ l. keep cmds l ++ surviving cmds)
        (map-select (λ x. x.1) (λ row. leb_ℤ cutoff row.ts) db.requests)
      ∙ ap (λ l. l ++ surviving cmds)
          (select-select (λ row. leb_ℤ cutoff row.ts) (λ row. outlives cmds row.ts) (stored db))

  -- After the writer's loop over any commands and whatever SQLite answered to them, the stored
  -- requests are, in their order, the rows from before that are not older than the cutoff of any
  -- successful clean-up, and then the rows of the successful inserts that are not older than the
  -- cutoff of any later successful one.
  pub stored-writer_loop :
      (cmds : List (Answers × DbCommand F)) (db : Database F)
      → stored (writer_loop cmds db)
        ≡ select (λ row. outlives cmds row.ts) (stored db) ++ surviving cmds
  unfolding writer_loop outlives surviving request_row delete_speedtests
  stored-writer_loop [] db = sym (append-nil _ ∙ select_all (stored db))
  stored-writer_loop (((true, q), insert_request r) ∷ cmds) db =
      let rows = stored db in
      let row = request_row r in
      stored-writer_loop cmds _
      ∙ ap (λ l. keep cmds l ++ surviving cmds)
          (map-append (λ x. x.1) db.requests ((db.next_request, row) ∷ []))
      ∙ ap (λ l. l ++ surviving cmds) (select-append (λ x. outlives cmds x.ts) rows (row ∷ []))
      ∙ append_assoc (keep cmds rows) (keep cmds (row ∷ [])) (surviving cmds)
      ∙ ap (λ l. keep cmds rows ++ l) (one_more (outlives cmds r.ts) row (surviving cmds))
  stored-writer_loop (((false, q), insert_request r) ∷ cmds) db = stored-writer_loop cmds db
  stored-writer_loop (((true, q), insert_speed_test s) ∷ cmds) db = stored-writer_loop cmds _
  stored-writer_loop (((false, q), insert_speed_test s) ∷ cmds) db = stored-writer_loop cmds db
  stored-writer_loop (((true, true), cleanup cutoff) ∷ cmds) db =
      stored-writer_loop cmds (delete_speedtests cutoff (delete_requests cutoff db))
      ∙ deleted cutoff cmds db
  stored-writer_loop (((true, false), cleanup cutoff) ∷ cmds) db =
      stored-writer_loop cmds (delete_requests cutoff db) ∙ deleted cutoff cmds db
  stored-writer_loop (((false, true), cleanup cutoff) ∷ cmds) db = stored-writer_loop cmds _
  stored-writer_loop (((false, false), cleanup cutoff) ∷ cmds) db = stored-writer_loop cmds db
