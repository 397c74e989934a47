-- ===== src/System/Handlers.antt =====
-- dashboard.rs: the two handlers that write, as runs of the program's steps.
use xboxproxy.Text.{Text}
use xboxproxy.Http.{Http}
use xboxproxy.Float.{Float}
use xboxproxy.Selector.{Selector}
