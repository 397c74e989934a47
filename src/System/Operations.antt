-- ===== src/System/Operations.antt =====
-- dashboard.rs, db.rs: what single operations do to the state that the tasks share.
use xboxproxy.Prelude.{◌≡◌, refl, ap, Bool, true, false, List, [], ◌∷◌, ◌++◌, Option}
use xboxproxy.Text.{Text}
use xboxproxy.Http.{Http}
use xboxproxy.Db.{DbCommand}
use xboxproxy.Db.Tables.{Database, Answers, execute, writer_loop}
use xboxproxy.Selector.{Selector}
use xboxproxy.Speedtest.Control.{SpeedTestControl}
use xboxproxy.Dashboard.{started, run_speedtest}
use xboxproxy.Dashboard.Targets.{refused≢started}

-- A test is started only where nothing is pinned.
pub run_speedtest-unpinned :
    (lib : Http) {F : Type 0} (s : Selector F) (c c' : SpeedTestControl) (is_pinned : Bool)
    (url : Option Text)
    → run_speedtest lib is_pinned s c url ≡ (started, c')
    → is_pinned ≡ false
unfolding run_speedtest
run_speedtest-unpinned lib s c c' true url e = absurd (refused≢started (ap (λ p. p.0) e))
run_speedtest-unpinned lib s c c' false url e = refl

pub writer_loop-append :
    {F : Type 0} (cmds : List (Answers × DbCommand F)) (a : Answers) (cmd : DbCommand F)
    (db : Database F)
    → writer_loop (cmds ++ (a, cmd) ∷ []) db ≡ execute a cmd (writer_loop cmds db)
unfolding writer_loop
writer_loop-append [] a cmd db = refl
writer_loop-append ((b, c) ∷ cmds) a cmd db = writer_loop-append cmds a cmd (execute b c db)
