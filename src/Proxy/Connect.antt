-- ===== src/Proxy/Connect.antt =====
-- The first part of `_proxy_to_upstream_internal`: a slot of the upstream's semaphore is held
-- while the connection is opened, with the connect timeout.
use mini_nginx.Common.{
  Option, none, some, lookup, Bool, true, if◌then◌else◌, nat_eq, list_eq, int_eq, pair_eq, insert,
}
use mini_nginx.Python.Text.{Text, codes}
use mini_nginx.Pool.{Upstream}
use mini_nginx.Limits.{
  Semaphore, ConnectionLimitManager, acquire, release, has_slots, upstream_connection,
}
use mini_nginx.Limits
use mini_nginx.Metrics.{record_timeout_error, record_upstream_error}
use mini_nginx.Net.{
  World, Io, raised, Exception, timed_out, refused, os_error, cancelled, failure, ok, raise, catch,
  finally, modify, ◌>>=◌, ◌>>◌, wait, hang, ends_with,
}
use mini_nginx.Timeouts.{TimeoutPolicy, with_connect_timeout}

-- What a handler is made with; `limited` says whether it has a limit manager.
pub record Settings : Type 0 where
  pub timeout_policy : TimeoutPolicy
  pub limited : Bool
  pub trace_id : Text

-- A semaphore of the manager is an object that the dict shares: its new state goes back there.
abbrev pub put_semaphore : Upstream → Semaphore → World → World
put_semaphore upstream sem w = record w {
  manager = record w.manager {
    upstream_semaphores = insert (Limits.upstream_key upstream) sem w.manager.upstream_semaphores;
  };
}

-- `await self.limit_manager.upstream_connection(upstream)`
abbrev pub no_semaphore : Exception
no_semaphore = failure (codes "Semaphore initial value must be >= 0")

abbrev pub with_semaphore : Option (Semaphore × ConnectionLimitManager) → Io Semaphore
with_semaphore none w = (raised no_semaphore, w)
with_semaphore (some (sem, manager')) w = (ok sem, record w { manager = manager' })

abbrev pub get_semaphore : Upstream → Io Semaphore
get_semaphore upstream w = with_semaphore (upstream_connection upstream w.manager) w

-- The wait for a slot; where the limit is 0 there is none that could be handed over.
abbrev pub wait_for_slot : Io (Unit {0})
wait_for_slot w =
    (if has_slots w.manager.limits.max_conns_per_upstream then wait w.upstream_slot_wait else hang)
      w

-- `__aenter__`. A task that has to wait adds itself to the queue and is taken off it by the task that
-- wakes it, with its slot, or by its cancellation: for this request that is a wait.
unfoldable pub enter_slot : Upstream → Io (Unit {0})
unfolding acquire wait upstream_connection
enter_slot upstream = do
  sem ← get_semaphore upstream
  let (granted, sem') = acquire 0 sem
  if granted then modify (put_semaphore upstream sem') else wait_for_slot

abbrev pub give_back : Upstream → Option Semaphore → World → World
give_back upstream none w = w
give_back upstream (some sem) w = put_semaphore upstream (release sem).1 w

-- `__aexit__`, of the semaphore that the dict holds since `get_semaphore`.
unfoldable pub leave_slot : Upstream → Io (Unit {0})
unfolding release
leave_slot upstream = modify (λ w.
    give_back upstream (lookup (Limits.upstream_key upstream) w.manager.upstream_semaphores) w)

-- `asyncio.open_connection`
unfoldable pub open_connection : Io (Unit {0})
unfolding wait
open_connection w = (wait w.connection.0 >> ends_with w.connection.1) w

unfoldable pub open_limited : Settings → Upstream → Io (Unit {0})
unfolding enter_slot leave_slot open_connection
open_limited settings upstream =
    let opening = with_connect_timeout settings.timeout_policy open_connection in
    if settings.limited
    then enter_slot upstream >> finally opening (leave_slot upstream)
    else opening

-- The handlers of the connection: a timeout is counted, and every exception goes on.
abbrev pub count_connect_error : Upstream → Exception → Io (Unit {0})
count_connect_error upstream timed_out =
    modify (λ w. record w {
      metrics =
          record_upstream_error upstream.host upstream.port (codes "timeout")
            (record_timeout_error (codes "connect") w.metrics);
    })
    >> raise timed_out
count_connect_error upstream (refused msg) = raise (refused msg)
count_connect_error upstream (os_error msg) = raise (os_error msg)
count_connect_error upstream (cancelled s) = raise (cancelled s)
count_connect_error upstream (failure msg) = raise (failure msg)

unfoldable pub connect : Settings → Upstream → Io (Unit {0})
unfolding open_limited record_upstream_error record_timeout_error
connect settings upstream =
    catch (open_limited settings upstream) (count_connect_error upstream)
    >> modify (λ w. record w { connected = true })
