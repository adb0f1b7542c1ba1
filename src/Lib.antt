-- ===== src/Lib.antt =====
-- mini-nginx: a reverse proxy for HTTP/1.1 on asyncio, with round-robin balancing, connection
-- limits, timeouts and metrics.
--
-- The parts of the program and the files that model them:
--
-- * proxy/upstream_pool.py is Pool: the record UpstreamPool, `create` (the constructor), `get_next`,
--   `size` and `picks`, a number of calls in a row. Each call holds the pool's lock, so concurrent
--   callers are a sequence of calls.
-- * proxy/limits.py is Limits: ConnectionLimitManager with `create`, `client_connection`,
--   `upstream_connection` and `get_stats`. `asyncio.Semaphore` is modelled with its queue (Python 3.12,
--   the version of Dockerfile.proxy): `acquire` and `release`. Limits/Clients has the step relation of
--   the tasks that enter, leave and give up, Limits/Waiting and Limits/Line what follows for one that
--   waits and for all of them as one line; Limits/Upstreams that of the connections to one upstream.
-- * proxy/timeouts.py is Timeouts: the policy and `asyncio.wait_for`, round one operation (`wait_for`)
--   and round a request (`wait_for_total`).
-- * proxy/metrics.py is Metrics: the module's counters as one record, and the recording calls.
--   Metrics/Render is the Prometheus text, and Metrics/Service the handler of the metrics server
--   (`run_metrics_server`).
-- * proxy/utils/http.py is Http: HttpRequest (HTTPRequest) and `write_to_upstream` with its parts.
-- * proxy/client_handler.py is Handler for `parse_request`, `_read_line` and `_read_headers`, and Proxy
--   for `proxy_to_upstream`: Proxy/Connect opens the connection under the limit and the timeout,
--   Proxy/Relay reads the response and passes it on, Proxy/Exchange has the handlers, the error
--   responses, the closing and the whole.
-- * proxy/proxy_server.py is Server: `client_connected` from the client's slot to the closing.
--   Server/Whole and Server/Failing follow one connection to its end, Server/Spread a list of clients
--   that come one after the other (`serve_clients`), and Server/Restoring the slots that they use.
-- * proxy/config.py is Config: `parse_listen`, the model, the holder; Config/Loading is `load_config`
--   and Config/Fallback is `build_fallback_from_env`.
-- * proxy/logger.py is Logger: the module's variables as the record Logging, `setup_aiologger`,
--   `set_logging_level`, `get_logger`, and `delegate` for the methods of `_LoggerProxy`; Logger/Format is
--   `TraceIdFormatter`. The loggers of aiologger are a parameter, the record Aiologger.
-- * proxy/main.py is Main: `config_path` and the choice of the addresses (`listening`), Main/Start for
--   the start, Main/Serving for `_reload_config` and what else happens while the servers run, and
--   Main/RunAll for `run_all`, the exit status and the whole (`main`).
--
-- How they interact: `main` loads or makes the configuration, sets up the logging and runs the
-- servers; a reload replaces the configuration for the connections that come. `client_connected`
-- takes a slot of the manager, parses a request, asks the pool for an upstream and calls
-- `proxy_to_upstream`, which takes a slot of that upstream while it connects, sends the request,
-- relays the response and counts errors; the metrics of a finished request are recorded at the end.
-- The configuration makes the pool, the policy and the manager.
--
-- What the program uses of Python is in Python (texts as lists of code points, `int`, `str`, UTF-8) and
-- in Net (asyncio). The tables of characters outside ASCII are a parameter, the record Unicode. In Net
-- an action is a function on World, the state that one client's connection sees: the clock, the
-- deadlines that are set, what arrives on the two readers and when, what is written to the two writers
-- and how long their drains take, the limits, the pool and the counters. It ends with a value or an
-- exception; a deadline that passes while it waits cancels it there. Other tasks are seen as the time
-- that a wait for a slot takes; what they do to the semaphores is in the step relations of Limits.
-- A wait for a slot of a limit that is zero ends only with a deadline or a cancellation (`hang`).
--
-- Loops: `_read_line`, `_read_headers`, the body of unknown size, the relay and the headers of a
-- request for the metrics run on fuel, one more than the bytes that are left in the stream, since
-- each round that goes on takes a byte; running out of fuel raises an exception. The body of a known size runs on its size. That the fuel is enough is part
-- of the theorems of Handler/Results, Proxy/Prompt and Metrics/Service/Laws.
--
-- Not modelled: the log lines inside the handlers of a connection (where Logger is what they call), the
-- listening sockets, the profiler and the console. What happens while the servers run is a list of
-- events, in any order: SIGHUP, a scheduled task, a client that takes an upstream. Times are whole
-- milliseconds. Reading a file, YAML and pydantic are parameters of
-- Config/Loading; the environment is one of Config/Fallback.
pub mod Common
pub mod Python
pub mod Pool
pub mod Metrics
pub mod Limits
pub mod Logger
pub mod Net
pub mod Http
pub mod Handler
pub mod Timeouts
pub mod Proxy
pub mod Server
pub mod Config
pub mod Main
pub mod Samples
