-- ===== src/Server.antt =====
-- A client's connection from its start to its end (proxy/proxy_server.py, `client_connected`).
pub mod Counting
pub mod Slots
pub mod Whole
pub mod Failing
pub mod Spread
pub mod Restoring
mod Tests
use mini_nginx.Common.{nat_beq, ℕ, true, Option, none, some, ℤ, if◌then◌else◌}
use mini_nginx.Python.Text.{Text, codes, Unicode}
use mini_nginx.Pool.{Upstream, UpstreamPool, get_next}
use mini_nginx.Limits.{acquire, release}
use mini_nginx.Metrics.{record_parse_error, record_request_start, record_request_done}
use mini_nginx.Net.{
  Io, Exception, failure, ok, pure, raise, catch, finally, modify, suppress, ◌>>=◌, ◌>>◌, wait,
  hang, close_client,
}
use mini_nginx.Http.{HttpRequest}
use mini_nginx.Handler.Parse.{parse_request}
use mini_nginx.Timeouts.{TimeoutPolicy}
use mini_nginx.Proxy.Connect.{Settings}
use mini_nginx.Proxy.Exchange.{proxy_to_upstream}

-- `async with cfg.connection_limits.client_connection()`: see `enter_slot` for the wait.
abbrev pub wait_for_client_slot : Io (Unit {0})
wait_for_client_slot w =
    (if nat_beq w.manager.limits.max_client_conns 0 then hang else wait w.client_slot_wait) w

unfoldable pub enter_client : Io (Unit {0})
unfolding acquire wait
enter_client w =
    let (granted, sem') = acquire 0 w.manager.client_semaphore in
    (if granted
        then modify (λ v. record v { manager = record v.manager { client_semaphore = sem' } })
        else wait_for_client_slot)
      w

unfoldable pub leave_client : Io (Unit {0})
unfolding release
leave_client = modify (λ v. record v {
  manager = record v.manager { client_semaphore = (release v.manager.client_semaphore).1 };
})

-- `await cfg.upstream_pool.get_next()`
abbrev pub with_pool : Option (Upstream × UpstreamPool) → Io Upstream
with_pool none = raise (failure (codes "IndexError"))
with_pool (some (upstream, pool')) = λ w. (ok upstream, record w { pool = pool' })

unfoldable pub next_upstream : Io Upstream
unfolding get_next
next_upstream w = with_pool (get_next w.pool) w

unfoldable pub start_request : Io ℕ
unfolding record_request_start
start_request w =
    let (metrics', start_time) = record_request_start w.now w.metrics in
    (ok start_time, record w { metrics = metrics' })

-- `if result is not None: …`
unfoldable pub finish_request : ℕ → Upstream → Option (ℤ × ℕ) → Io (Unit {0})
unfolding record_request_done
finish_request start_time upstream none = pure tt
finish_request start_time upstream (some (status, bytes_sent)) = modify (λ w. record w {
  metrics =
      record_request_done w.now start_time status upstream.host upstream.port bytes_sent w.metrics;
})

-- `except CancelledError: raise` and `except Exception`, which only logs.
abbrev pub on_exception : Exception → Io (Unit {0})
on_exception = suppress

module _ ⦃u : Unicode⦄ where
  unfoldable pub serve_request : Settings → Option HttpRequest → Io (Unit {0})
  unfolding proxy_to_upstream next_upstream start_request finish_request record_parse_error
  serve_request settings none = modify (λ w. record w { metrics = record_parse_error w.metrics })
  serve_request settings (some req) = do
    start_time ← start_request
    upstream ← next_upstream
    result ← proxy_to_upstream settings req upstream
    finish_request start_time upstream result

  -- The body of the `try`.
  unfoldable pub serve : Settings → Io (Unit {0})
  unfolding parse_request serve_request
  serve settings = do request ← parse_request settings.trace_id; serve_request settings request

  -- With no configuration the connection is closed at once.
  unfoldable pub client_connected : Option TimeoutPolicy → Text → Io (Unit {0})
  unfolding enter_client leave_client serve close_client
  client_connected none trace_id =
      modify (λ w. record w { client_out = record w.client_out { closed = true } })
  client_connected (some policy) trace_id =
      let settings : Settings = record {
        timeout_policy = policy;
        limited = true;
        trace_id = trace_id;
      } in
      enter_client
      >> finally (finally (catch (serve settings) on_exception) close_client) leave_client
