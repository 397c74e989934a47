-- ===== src/Lib.antt =====
-- The xboxproxy reverse proxy: a service that answers requests for Xbox downloads from the fastest of
-- the bundled CDN addresses, and records what it served.
--
-- The parts of the program, and how they interact:
-- * src/endpoints.rs loads the endpoint groups with their address lists, and the pins of the
--   environment. Endpoints has one function per function there; `load` is given the groups
--   (`endpoints`, from the two bundled texts) and the values of the two variables.
-- * src/selector.rs keeps the candidate addresses of each group. Hosts has the matching of names
--   (`normalize_host`, `domain_matches`), Candidates the state of an address, `update_result` on it,
--   and the ranking (`score_at`, `best_candidate`), Selector the state of all groups with one function
--   per method of `Selector`, under the method's name.
-- * src/metrics.rs counts the requests in flight and sends records to the writer thread. Metrics has
--   its methods; Metrics.Interleaving has its atomic operations as steps of requests that run side by
--   side.
-- * src/proxy.rs answers a request: Proxy.Headers takes the host name from the Host header and
--   forwards headers, Proxy.Retry asks the selector for an address and the upstream for a response, up
--   to three times, and marks failed addresses, Proxy.Recording counts the bytes of a body and records
--   it, and Proxy.Handler is `proxy_handler`, which joins them.
-- * src/speedtest.rs measures addresses: Speedtest.Measure is `measure`, the range that it asks for and
--   the bytes that count, and Speedtest.Pass is `run_pass`, which tests the addresses of its targets in
--   waves and hands the results to the selector and to the metrics store. Proxy.Connector
--   and Proxy.Upstream are the connections of src/proxy.rs, for the proxy and for the measurements:
--   the choice of address and port, and `request_upstream`.
-- * Speedtest.Control and Speedtest.Loop are the handle and the loop of src/speedtest.rs: `run_forever`
--   as steps beside the other tasks, with the points between its waits as phases, and
--   `wait_until_idle`, also as a function.
-- * src/db.rs writes what it is sent and answers queries. Db has the records and the commands, Db.Tables
--   the two tables and `writer_thread`, which prepares the statements and executes the commands in `writer_loop`, and Db.Queries the queries, under the
--   names of their functions.
-- * src/dashboard.rs answers the requests of the dashboard: Dashboard has `run_speedtest`, which triggers
--   the loop, and Dashboard.Api the others, `summary` and `pin_group` among them.
-- * src/main.rs puts the parts together: Startup has `main`, up to the state that the handlers share,
--   and System the program as it runs on from there: a world of the shared state, the guards that are
--   held, the phase of the loop, the executed commands and the database, and a step for each operation
--   of a task, two where the code takes two locks or stores and then notifies. System.Requests and
--   System.Handlers relate `proxy_handler` and the dashboard's handlers to these steps.
-- * Routes has the tables of routes of src/proxy.rs and src/dashboard.rs, as src/main.rs merges them.
--
-- Prelude, Text and Net have what is shared: Boolean tests and lists over the native numbers, Rust's
-- string operations on lists of code points, and the standard library's parser of IP addresses.
-- The theorems stand in child modules named for what they prove, and the runs at concrete inputs in
-- Tests, the repository's own unit tests among them (Tests.Units).
--
-- State that the program keeps behind Arc, RwLock and atomics is passed and returned; each reading of
-- the clock is an argument, so two readings of one call may differ where the code reads twice. What the
-- code only calls is a parameter: `f64` (Float, with named IEEE 754 laws; Float.Scaled is an instance),
-- the URIs and header maps of the http crate (Http, with the documented behaviour of `insert`;
-- Http.Lists is an instance), axum's choice of a route, the waves of the futures crate
-- (Streams), and, for each attempt, what the upstream answers and what other tasks do to the
-- selector while it waits (`Turn`; `PassEnv` for the measurements).
--
-- A SQL statement is the list function that it denotes, on the rows in the order of their ids. Whether
-- SQLite executes a statement, what it sums and averages, and how it orders groups of equal counts are
-- parameters (`Answers`, Sqlite with its laws).
--
-- Only `wait_until_idle` runs on fuel, one for each poll: once the proxy is quiet, as many polls as make
-- up the grace period are enough. All other loops are recursion on lists, the loop of the attempts on
-- the number of attempts left, which starts at three, and `run_forever`, which does not end, is a
-- relation. Machine integers are written out where they can wrap or
-- saturate: the counters of requests and bytes modulo 2^64, the count of failures at 2^32 - 1, the time
-- stamp of a record as an i64, and the casts to and from the columns of the database.
--
-- Not modelled: that SQLite stores a NaN as NULL, which the code never sends, since it divides by a
-- positive number of seconds only; the JSON and the page of the dashboard, the listener and the tasks' runtime
-- in src/main.rs, the files, statements and indices of SQLite, the network, and
-- tracing.
pub mod Prelude
pub mod Text
pub mod Net
pub mod Float
pub mod Hosts
pub mod Candidates
pub mod Selector
pub mod Db
pub mod Metrics
pub mod Proxy
pub mod Http
pub mod Endpoints
pub mod Speedtest
pub mod Startup
pub mod System
pub mod Dashboard
pub mod Routes
pub mod Tests
