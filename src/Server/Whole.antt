-- ===== src/Server/Whole.antt =====
-- A connection from its start to its end, on a network that is quick enough.
use mini_nginx.Common.{nat_eq, list_eq, ℕ, ◌+◌, ◌≡◌, refl, ap, ◌∙◌, subst, true, some, ◌++◌, length}
use mini_nginx.Python.Text.{Text, Unicode}
use mini_nginx.Python.Utf8.{Bytes}
use mini_nginx.Pool.{Upstream, UpstreamPool, get_next}
use mini_nginx.Limits.{acquire}
use mini_nginx.Metrics.{Metrics, record_request_start, record_request_done, bump, upstream_key}
use mini_nginx.Net.{World, Io, ok, resume, ◌>>=◌, catch}
use mini_nginx.Net.Binds.{>>=-ok, catch-ok}
use mini_nginx.Net.Frames.{Fixes-close_client}
use mini_nginx.Net.Reading.{content, IsUnhurried}
use mini_nginx.Net.Prompt.{Delays, IsPrompt}
use mini_nginx.Http.{HttpRequest}
use mini_nginx.Http.Forward.{head_bytes, body_of}
use mini_nginx.Handler.Parse.{parse_request}
use mini_nginx.Handler.Segments.{Reads}
use mini_nginx.Handler.Results.{parse_bytes, parse_request-Reads}
use mini_nginx.Handler.Prompt.{parse_request-KeepsPrompt}
use mini_nginx.Timeouts.{TimeoutPolicy}
use mini_nginx.Proxy.Connect.{Settings}
use mini_nginx.Proxy.Exchange.{proxy_to_upstream}
use mini_nginx.Proxy.InTime.{IsLonger}
use mini_nginx.Proxy.Prompt.{proxy_to_upstream-delivers}
use mini_nginx.Server.{
  leave_client, with_pool, start_request, finish_request, next_upstream, on_exception,
  serve_request, serve, client_connected,
}
use mini_nginx.Server.Counting.{Served, serve_request-Served}
use mini_nginx.Server.Slots.{
  enter_client-granted, after_entry, client_connected-closes, client_connected-restores,
}

-- What a connection has done, from `w` to `w'`.
pub record Delivered ⦃u : Unicode⦄ (req : HttpRequest) (body : Bytes) (upstream : Upstream)
    (pool' : UpstreamPool) (w w' : World) : Type 0 where
  pub request :
      w'.upstream_out.written ≡ w.upstream_out.written ++ (head_bytes req ++ body_of req body)
  pub response : w'.client_out.written ≡ w.client_out.written ++ content w.upstream_in
  pub closed : w'.client_out.closed ≡ true
  pub slot : w'.manager.client_semaphore ≡ w.manager.client_semaphore
  pub turn : w'.pool ≡ pool'
  pub begun : w'.metrics.requests_total ≡ w.metrics.requests_total + 1
  pub done : w'.metrics.request_duration_count ≡ w.metrics.request_duration_count + 1
  pub bytes :
      w'.metrics.bytes_sent_total ≡ w.metrics.bytes_sent_total + length (content w.upstream_in)
  pub counted :
      w'.metrics.upstream_requests_total
      ≡ bump (upstream_key upstream.host upstream.port) w.metrics.upstream_requests_total

-- What the statement shows of the world, apart from the closing and the slot.
abbrev shown : World → Bytes × Bytes × UpstreamPool × Metrics
shown w = (w.upstream_out.written, w.client_out.written, w.pool, w.metrics)

-- All that a request may wait for, apart from the streams.
abbrev pub waits : Delays → ℕ
waits t = t.slot + (t.connecting + (t.closing + 0))

module _ ⦃u : Unicode⦄ (settings : Settings) (t : Delays)
    (longer : IsLonger t settings.timeout_policy) where
  -- A request that has been parsed.
  serve_request-shown :
      (req : HttpRequest) (upstream : Upstream) (pool' : UpstreamPool) (v : World)
      → IsPrompt t (waits t) v
      → get_next v.pool ≡ some (upstream, pool')
      → (v' : World) × (serve_request settings (some req) v ≡ (ok tt, v'))
        × (v'.upstream_out.written
            ≡ v.upstream_out.written ++ (head_bytes req ++ body_of req (content v.client_in)))
        × (v'.client_out.written ≡ v.client_out.written ++ content v.upstream_in)
        × (v'.metrics.request_duration_count ≡ v.metrics.request_duration_count + 1)
        × (v'.metrics.bytes_sent_total
            ≡ v.metrics.bytes_sent_total + length (content v.upstream_in))
        × (v'.metrics.upstream_requests_total
            ≡ bump (upstream_key upstream.host upstream.port) v.metrics.upstream_requests_total)
  unfolding serve_request start_request next_upstream record_request_start finish_request
      record_request_done
  serve_request-shown req upstream pool' v p turn =
      let begun : World = (start_request v).1 in
      let chosen : World = record begun { pool = pool' } in
      let (status, total, x, proxied, done) =
        proxy_to_upstream-delivers t settings upstream longer req chosen p in
      let v' : World = (finish_request v.now upstream (some (status, total)) x).1 in
      (
        v',
        ap
              (λ o.
                resume (with_pool o begun)
                  (λ up. proxy_to_upstream settings req up >>= finish_request v.now up))
              turn
            ∙ >>=-ok (proxy_to_upstream settings req upstream) (finish_request v.now upstream)
                chosen proxied,
        done.request,
        done.response,
        ap (λ (m : Metrics). m.request_duration_count + 1) done.counters,
        ap (λ (m : Metrics). m.bytes_sent_total + total) done.counters
            ∙ ap (λ n. v.metrics.bytes_sent_total + n) done.size,
        ap
            (λ (m : Metrics).
              bump (upstream_key upstream.host upstream.port) m.upstream_requests_total)
            done.counters,
      )

module _ ⦃u : Unicode⦄ (policy : TimeoutPolicy) (t : Delays) (longer : IsLonger t policy)
    (trace_id : Text) where
  abbrev settings : Settings
  settings = record { timeout_policy = policy; limited = true; trace_id = trace_id }

  -- The body of the `try`, from a request to be parsed on.
  serve-shown :
      (req : HttpRequest) (body : Bytes) (upstream : Upstream) (pool' : UpstreamPool) (v : World)
      → IsPrompt t (waits t) v
      → IsUnhurried v
      → parse_bytes trace_id (content v.client_in) ≡ (some req, body)
      → get_next v.pool ≡ some (upstream, pool')
      → (v' : World) × (serve settings v ≡ (ok tt, v'))
        × (v'.upstream_out.written ≡ v.upstream_out.written ++ (head_bytes req ++ body_of req body))
        × (v'.client_out.written ≡ v.client_out.written ++ content v.upstream_in)
        × (v'.pool ≡ pool')
        × (v'.metrics.requests_total ≡ v.metrics.requests_total + 1)
        × (v'.metrics.request_duration_count ≡ v.metrics.request_duration_count + 1)
        × (v'.metrics.bytes_sent_total
            ≡ v.metrics.bytes_sent_total + length (content v.upstream_in))
        × (v'.metrics.upstream_requests_total
            ≡ bump (upstream_key upstream.host upstream.port) v.metrics.upstream_requests_total)
  unfolding serve
  serve-shown req body upstream pool' v p un read turn =
      let (time, r, parsed, intact, left) =
        subst (λ q. Reads (parse_request trace_id) v q.0 q.1) read
          (parse_request-Reads trace_id v un p.2) in
      let x : World = record v { now = time; client_in = r } in
      let q : IsPrompt t (waits t) x =
        subst (λ o. IsPrompt t (waits t) o.1) parsed
          (parse_request-KeepsPrompt t (waits t) trace_id v p) in
      let (v', served, request, response, done, bytes, counted) =
        serve_request-shown settings t longer req upstream pool' x q turn in
      let once : Served pool' x (ok tt) v' =
        subst (λ o. Served pool' x o.0 o.1) served
          (serve_request-Served settings req upstream pool' x turn) in
      (
        v',
        >>=-ok (parse_request trace_id) (serve_request settings) v parsed ∙ served,
        request ∙ ap (λ b. v.upstream_out.written ++ (head_bytes req ++ body_of req b)) left,
        response,
        once.advanced,
        once.started,
        done,
        bytes,
        counted,
      )

  -- On a network where nothing breaks, and whose delays, the wait for the upstream's slot, the
  -- connecting and the closing among them, are together shorter than every timeout, and with a limit of
  -- the upstream that is more than zero, a client that finds a free slot and sends a request is
  -- served: the upstream whose turn it is, is sent the head of the request and its body, the client
  -- gets the whole response and its connection is closed; the slot is free again, the pool has moved
  -- by one turn, and the request is counted once as started and once as done, for that upstream, with
  -- the bytes of the response.
  pub client_connected-Delivered :
      (req : HttpRequest) (body : Bytes) (upstream : Upstream) (pool' : UpstreamPool) (w : World)
      → IsPrompt t (waits t) w
      → IsUnhurried w
      → (acquire 0 w.manager.client_semaphore).0 ≡ true
      → parse_bytes trace_id (content w.client_in) ≡ (some req, body)
      → get_next w.pool ≡ some (upstream, pool')
      → Delivered req body upstream pool' w (client_connected (some policy) trace_id w).1
  unfolding leave_client
  client_connected-Delivered req body upstream pool' w p un granted read turn =
      let entered = enter_client-granted w granted in
      let v : World = record w {
        manager = record w.manager { client_semaphore = (acquire 0 w.manager.client_semaphore).1 };
      } in
      let (v', served, request, response, moved, begun, done, bytes, counted) =
        serve-shown req body upstream pool' v p
          (record { no_step = un.no_step; no_total = un.no_total }) read turn in
      let inside : Io (Unit {0}) = catch (serve settings) on_exception in
      let kept : shown (client_connected (some policy) trace_id w).1 ≡ shown v' =
        ap shown (after_entry policy trace_id w v entered)
        ∙ Fixes-close_client shown (λ x t s d. refl) (λ x. refl) (inside v).1
        ∙ ap (λ o. shown o.1) (catch-ok (serve settings) on_exception v served) in
      let metrics : (client_connected (some policy) trace_id w).1.metrics ≡ v'.metrics =
        ap (λ q. q.3) kept in
      record {
        request = ap (λ q. q.0) kept ∙ request;
        response = ap (λ q. q.1) kept ∙ response;
        closed = client_connected-closes policy trace_id w v entered;
        slot = client_connected-restores policy trace_id w granted;
        turn = ap (λ q. q.2) kept ∙ moved;
        begun = ap (λ (m : Metrics). m.requests_total) metrics ∙ begun;
        done = ap (λ (m : Metrics). m.request_duration_count) metrics ∙ done;
        bytes = ap (λ (m : Metrics). m.bytes_sent_total) metrics ∙ bytes;
        counted = ap (λ (m : Metrics). m.upstream_requests_total) metrics ∙ counted;
      }
