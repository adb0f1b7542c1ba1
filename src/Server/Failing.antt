-- ===== src/Server/Failing.antt =====
-- Connections on which no request can be read, and those whose upstream cannot be connected to.
use mini_nginx.Common.{
  pos, negsuc, ℕ, ◌+◌, ◌<◌, ◌≡◌, ◌≢◌, refl, sym, ap, ◌∙◌, subst, true, Option, none, some, ℤ, [],
  ◌++◌, append-nil,
}
use mini_nginx.Python.Text.{Text, Unicode, codes}
use mini_nginx.Python.Utf8.{Bytes, encode}
use mini_nginx.Pool.{Upstream, UpstreamPool, get_next}
use mini_nginx.Limits.{acquire, HasSlots}
use mini_nginx.Limits.Manager.{upstream_connection-negative}
use mini_nginx.Metrics.{
  record_upstream_error, record_response_status, Metrics, record_parse_error, record_request_start,
}
use mini_nginx.Net.{World, Reader, Io, Result, Exception, ok, raised, resume, catch, ◌>>=◌}
use mini_nginx.Net.Binds.{>>=-ok}
use mini_nginx.Net.Frames.{Fixes-close_client, Fixes-suppress, handle-Fixes}
use mini_nginx.Net.Reading.{content, IsIntact, IsUnhurried}
use mini_nginx.Http.{HttpRequest}
use mini_nginx.Handler.Parse.{parse_request}
use mini_nginx.Handler.Segments.{Reads}
use mini_nginx.Handler.Results.{parse_bytes, parse_request-Reads}
use mini_nginx.Timeouts.{TimeoutPolicy}
use mini_nginx.Proxy.Connect.{no_semaphore, Settings}
use mini_nginx.Proxy.Endings.{answer, counted, Reported}
use mini_nginx.Proxy.Exchange.{error_response, proxy_to_upstream}
use mini_nginx.Proxy.Unconnected.{attempt, attempted, IsError, seen}
use mini_nginx.Proxy.Unconnected.Answer.{
  Answered, proxy_to_upstream-answers, proxy_to_upstream-refused,
}
use mini_nginx.Server.{
  leave_client, with_pool, start_request, finish_request, next_upstream, on_exception,
  serve_request, serve, client_connected,
}
use mini_nginx.Server.Counting.{serve_request-Served}
use mini_nginx.Server.Slots.{
  enter_client-granted, after_entry, client_connected-closes, client_connected-restores,
}

-- A connection that ends without a response of an upstream: nothing has been sent to one, the client
-- has got `reply` and its connection is closed, its slot is free again, and the pool and the counters
-- are these.
pub record Ended (reply : Bytes) (pool' : UpstreamPool) (metrics' : Metrics) (w w' : World)
    : Type 0 where
  pub request : w'.upstream_out.written ≡ w.upstream_out.written
  pub response : w'.client_out.written ≡ w.client_out.written ++ reply
  pub closed : w'.client_out.closed ≡ true
  pub slot : w'.manager.client_semaphore ≡ w.manager.client_semaphore
  pub turn : w'.pool ≡ pool'
  pub counters : w'.metrics ≡ metrics'

-- What the statements show, apart from the closing and the slot.
abbrev shown : World → Bytes × Bytes × UpstreamPool × Metrics
shown w = (w.upstream_out.written, w.client_out.written, w.pool, w.metrics)

-- Without a report nothing is finished.
unreported :
    (r : Result Reported) (v : World) (start_time : ℕ) (upstream : Upstream)
    → ((x : ℤ × ℕ) → r ≢ ok (some x))
    → (resume (r, v) (finish_request start_time upstream)).1 ≡ v
unfolding finish_request
unreported (ok none) v start_time upstream h = refl
unreported (ok (some x)) v start_time upstream h = absurd (h x refl)
unreported (raised e) v start_time upstream h = refl

-- The counters when a request has begun.
abbrev pub begun : Metrics → Metrics
begun m = record m { requests_total = m.requests_total + 1 }

module _ ⦃u : Unicode⦄ (policy : TimeoutPolicy) (trace_id : Text) where
  abbrev settings : Settings
  settings = record { timeout_policy = policy; limited = true; trace_id = trace_id }

  -- From what the body of the `try` has done to the end of the connection.
  ends :
      (w : World) {reply : Bytes} {pool' : UpstreamPool} {metrics' : Metrics}
      → (acquire 0 w.manager.client_semaphore).0 ≡ true
      → shown
          (serve settings (record w {
            manager = record w.manager {
              client_semaphore = (acquire 0 w.manager.client_semaphore).1;
            };
          })).1
        ≡ (w.upstream_out.written, w.client_out.written ++ reply, pool', metrics')
      → Ended reply pool' metrics' w (client_connected (some policy) trace_id w).1
  unfolding leave_client
  ends w granted served =
      let entered = enter_client-granted w granted in
      let v : World = record w {
        manager = record w.manager { client_semaphore = (acquire 0 w.manager.client_semaphore).1 };
      } in
      let inside : Io (Unit {0}) = catch (serve settings) on_exception in
      let kept =
        ap shown (after_entry policy trace_id w v entered)
        ∙ Fixes-close_client shown (λ x t s d. refl) (λ x. refl) (inside v).1
        ∙ handle-Fixes shown (serve settings v).0 (serve settings v).1 on_exception
            (Fixes-suppress shown)
        ∙ served in
      record {
        request = ap (λ q. q.0) kept;
        response = ap (λ q. q.1) kept;
        closed = client_connected-closes policy trace_id w v entered;
        slot = client_connected-restores policy trace_id w granted;
        turn = ap (λ q. q.2) kept;
        counters = ap (λ q. q.3) kept;
      }

  -- From what is done with the request that has been read.
  serve-reads :
      (o : Option HttpRequest) (v : World) {s : Bytes × Bytes × UpstreamPool × Metrics}
      → IsUnhurried v
      → IsIntact v.client_in
      → (parse_bytes trace_id (content v.client_in)).0 ≡ o
      → ((t : ℕ) (r : Reader)
          → shown (serve_request settings o (record v { now = t; client_in = r })).1 ≡ s)
      → shown (serve settings v).1 ≡ s
  unfolding serve
  serve-reads o v un intact read later =
      let (t, r, parsed, k, left) =
        subst
          (λ q. Reads (parse_request trace_id) v q (parse_bytes trace_id (content v.client_in)).1)
          read (parse_request-Reads trace_id v un intact) in
      ap (λ p. shown p.1) (>>=-ok (parse_request trace_id) (serve_request settings) v parsed)
      ∙ later t r

  -- A client that finds a free slot, and whose stream, however it arrives, holds no request that can be
  -- read, is sent nothing, and no upstream is chosen or sent anything: one error of parsing is
  -- counted and nothing else. The connection is closed and its slot is free again.
  pub client_connected-rejects :
      (w : World)
      → IsUnhurried w
      → IsIntact w.client_in
      → (acquire 0 w.manager.client_semaphore).0 ≡ true
      → (parse_bytes trace_id (content w.client_in)).0 ≡ none
      → Ended [] w.pool
          (record_parse_error w.metrics)
          w
          (client_connected (some policy) trace_id w).1
  unfolding serve_request
  client_connected-rejects w un intact granted read = ends w granted (
      serve-reads none _ (record { no_step = un.no_step; no_total = un.no_total }) intact read
        (λ t r.
          ap (λ b. (w.upstream_out.written, b, w.pool, record_parse_error w.metrics))
            (sym (append-nil w.client_out.written))))

  serve_request-fails :
      (req : HttpRequest) (upstream : Upstream) (pool' : UpstreamPool) (e : Exception) (m : Metrics)
      (v : World)
      → get_next v.pool ≡ some (upstream, pool')
      → Answered settings req upstream e m v (
          proxy_to_upstream settings req upstream
            (record v { pool = pool'; metrics = begun v.metrics }))
      → shown (serve_request settings (some req) v).1 ≡ (
        v.upstream_out.written,
        v.client_out.written ++ answer req e,
        pool',
        counted upstream e m,
      )
  unfolding serve_request start_request next_upstream record_request_start
  serve_request-fails req upstream pool' e m v turn (same, silent) =
      let started : World = (start_request v).1 in
      let chosen : World = record started { pool = pool' } in
      let proxied : Result Reported × World = proxy_to_upstream settings req upstream chosen in
      let runs : serve_request settings (some req) v
          ≡ resume proxied (finish_request v.now upstream) =
        ap
          (λ o.
            resume (with_pool o started)
              (λ x. proxy_to_upstream settings req x >>= finish_request v.now x))
          turn in
      let kept =
        ap (λ p. seen p.1) runs
        ∙ ap seen (unreported proxied.0 proxied.1 v.now upstream silent)
        ∙ same in
      ap
        (λ p. (
          (serve_request settings (some req) v).1.upstream_out.written,
          (serve_request settings (some req) v).1.client_out.written,
          p,
          (serve_request settings (some req) v).1.metrics,
        ))
        (serve_request-Served settings req upstream pool' v turn).advanced
      ∙ ap (λ s. (s.0, s.1, pool', s.2)) kept

  -- A client that finds a free slot and sends a request, whose upstream cannot be connected to: the
  -- attempt ends with an exception that is no cancellation, or the connect timeout passes before.
  -- The client is sent the error response of that exception and nothing else, the upstream nothing.
  -- The request is counted as begun, not as done; one response of that error's status and the error
  -- itself are counted, and also the failed attempt if it has timed out. The pool has moved by one
  -- turn, the connection is closed and its slot is free again. This is so where the connect timeout
  -- is not zero, the limit of the upstream is more than zero and the wait for a slot of it and the
  -- connect timeout end before the total timeout.
  pub client_connected-answers :
      (req : HttpRequest) (upstream : Upstream) (pool' : UpstreamPool) (e : Exception) (w : World)
      → IsUnhurried w
      → IsIntact w.client_in
      → (acquire 0 w.manager.client_semaphore).0 ≡ true
      → (parse_bytes trace_id (content w.client_in)).0 ≡ some req
      → get_next w.pool ≡ some (upstream, pool')
      → IsError e
      → 0 < policy.connect_ms
      → HasSlots w.manager
      → w.upstream_slot_wait + policy.connect_ms < policy.total_ms
      → attempt policy.connect_ms w.connection ≡ some e
      → Ended
          (answer req e)
          pool'
          (counted upstream e (attempted upstream e (begun w.metrics)))
          w
          (client_connected (some policy) trace_id w).1
  client_connected-answers req upstream pool' e w un intact granted read turn real positive slots
        early fails =
      ends w granted (
        serve-reads (some req) _ (record { no_step = un.no_step; no_total = un.no_total }) intact
          read
          (λ t r.
            serve_request-fails req upstream pool' e (attempted upstream e (begun w.metrics)) _ turn
              (proxy_to_upstream-answers settings req upstream e _ real positive un.no_step slots
                early fails)))

  -- With a negative limit of the connections to an upstream, a client that finds a free slot and sends a
  -- request is told that its upstream's semaphore cannot be made: it is sent that 502 response and
  -- nothing else, the upstream nothing. The request is counted as begun, not as done, with one
  -- response of the class 5xx and one error of the upstream; the pool has moved by one turn, the
  -- connection is closed and its slot is free again. This is so where the total timeout is not zero.
  pub client_connected-refuses :
      (req : HttpRequest) (upstream : Upstream) (pool' : UpstreamPool) (n : ℕ) (w : World)
      → IsUnhurried w
      → IsIntact w.client_in
      → (acquire 0 w.manager.client_semaphore).0 ≡ true
      → (parse_bytes trace_id (content w.client_in)).0 ≡ some req
      → get_next w.pool ≡ some (upstream, pool')
      → w.manager.limits.max_conns_per_upstream ≡ negsuc n
      → w.manager.upstream_semaphores ≡ []
      → 0 < policy.total_ms
      → Ended
          (encode (
            error_response req.version
              (codes "502 Bad Gateway")
              (codes "Upstream error: Semaphore initial value must be >= 0")))
          pool'
          (record_upstream_error upstream.host upstream.port
            (codes "other")
            (record_response_status (pos 502) (begun w.metrics)))
          w
          (client_connected (some policy) trace_id w).1
  client_connected-refuses req upstream pool' n w un intact granted read turn limit none_known
        some_time =
      ends w granted (
        serve-reads (some req) _ (record { no_step = un.no_step; no_total = un.no_total }) intact
          read
          (λ t r. serve_request-fails req upstream pool' no_semaphore (begun w.metrics) _ turn (
            proxy_to_upstream-refused settings req upstream _ refl some_time
              (upstream_connection-negative upstream _ n limit none_known))))
