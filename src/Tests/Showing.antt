-- ===== src/Tests/Showing.antt =====
-- A test of proxy.rs with db.rs: a request that was served stands first in the dashboard's list.
use xboxproxy.Prelude.{ℤ, true, arith}
use xboxproxy.Float.Scaled.{scaled}
use xboxproxy.Http.Lists.{plain_http}
use xboxproxy.Db.{RequestRecord}
use xboxproxy.Db.Tables.{init}
use xboxproxy.Proxy.Recording.{stream_body}
use xboxproxy.Proxy.Handler.Shown.{IsShown, proxy_handler-IsShown}
use xboxproxy.Tests.Data.{client_host, servers}
use xboxproxy.Tests.Proxying.{env, store, request, streaming, streams, polls, reading, served}

proxy_handler-IsShown_example :
    (rec : RequestRecord ℤ) × IsShown plain_http scaled env servers store
      (request client_host)
      streaming
      polls
      (stream_body scaled polls reading streaming).metrics
      9
      true
      init
      rec
proxy_handler-IsShown_example =
    proxy_handler-IsShown plain_http scaled env servers store (request client_host) streaming polls
      reading 9 true init streams served (omega arith) (omega arith)
