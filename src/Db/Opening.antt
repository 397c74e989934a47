-- ===== src/Db/Opening.antt =====
-- db.rs, `Db::start`: the database that the writer thread begins with.
use mathlib.Core.Option.{none-ne-some, some-injective}
use xboxproxy.Prelude.{
  ◌≡◌, sym, ap, ◌∙◌, Bool, true, false, ◌&&◌, Option, none, some, unwrap_or, if◌then◌else◌,
}
use xboxproxy.Db.Tables.{Database, init}

-- What the file system, SQLite and the runtime answer: whether the folder is created, if the path has
-- one, the file opened, the tables created where there were none, and the thread spawned; and the
-- tables that an earlier run left.
pub record Opening (F : Type 0) : Type 0 where
  pub dir_created : Option Bool
  pub opened : Bool
  pub initialised : Bool
  pub spawned : Bool
  pub found : Option (Database F)

-- `CREATE TABLE IF NOT EXISTS` leaves the tables that it finds.
unfoldable pub start : {F : Type 0} → Opening F → Option (Database F)
start o =
    if unwrap_or o.dir_created true && (o.opened && (o.initialised && o.spawned))
    then some (unwrap_or o.found init)
    else none

-- Without tables from an earlier run the database is empty.
pub start_new :
    {F : Type 0} (o : Opening F) (db : Database F) → o.found ≡ none → start o ≡ some db → db ≡ init
unfolding start
start_new o db e s =
    go (unwrap_or o.dir_created true && (o.opened && (o.initialised && o.spawned))) s
  where
    go : (b : Bool) → (if b then some (unwrap_or o.found init) else none) ≡ some db → db ≡ init
    go true h = sym (some-injective _ _ h) ∙ ap (λ x. unwrap_or x init) e
    go false h = absurd (none-ne-some _ h)
