-- ===== src/Tests/Retaining.antt =====
-- A test of main.rs with db.rs: a request outlives a tick of the clean-up.
use xboxproxy.Prelude.{ℤ, refl, true, false, [], ◌∷◌, List, Memᴰ, arith}
use xboxproxy.Db.{DbCommand, insert_request}
use xboxproxy.Db.Tables.{Answers, init, request_row, writer_loop}
use xboxproxy.Db.Tables.Survivors.{stored}
use xboxproxy.Startup.{cleanup_at}
use xboxproxy.Startup.Retention.{AreWithin, writer_loop-AreWithin}
use xboxproxy.Tests.Storing.{request}

-- A tick an hour after the request, one six days after it, and one whose deletion fails.
abbrev later : List (Answers × DbCommand ℤ)
later =
    ((true, true), cleanup_at 3690)
    ∷ ((true, true), insert_request (request 7000 206))
    ∷ ((true, true), cleanup_at 518500)
    ∷ ((false, true), cleanup_at 522100)
    ∷ []

later-AreWithin : AreWithin 100 later
unfolding AreWithin
later-AreWithin = (
  (3690, refl, omega arith, omega arith),
  ((518500, refl, omega arith, omega arith), ((522100, refl, omega arith, omega arith), tt)),
)

writer_loop-AreWithin_example :
    Memᴰ
      (request_row (request 100 200))
      (stored (writer_loop (((true, true), insert_request (request 100 200)) ∷ later) init))
writer_loop-AreWithin_example =
    writer_loop-AreWithin 100 true (request 100 200) later init refl later-AreWithin
