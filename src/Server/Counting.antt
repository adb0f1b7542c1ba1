-- ===== src/Server/Counting.antt =====
-- What one request adds to the counters, and its turn of the round robin.
use mini_nginx.Common.{
  ℕ, ◌+◌, ◌≤◌, ◌≡◌, refl, sym, ap, subst, ◌∙◌, Option, none, some, ℤ, arith, nat_eq, list_eq,
}
use mini_nginx.Python.Text.{Unicode}
use mini_nginx.Pool.{Upstream, UpstreamPool, get_next}
use mini_nginx.Metrics.{
  record_request_start, record_request_done, record_timeout_error, record_upstream_error,
  record_response_status, status_class,
}
use mini_nginx.Metrics.Totals.{sum-bump}
use mini_nginx.Net.{World, Result, ok, raised, ◌>>=◌, resume}
use mini_nginx.Http.{HttpRequest}
use mini_nginx.Proxy.Connect.{Settings}
use mini_nginx.Proxy.Exchange.{proxy_to_upstream}
use mini_nginx.Proxy.Counting.{responses, Tally, proxy_to_upstream-Tally}
use mini_nginx.Proxy.Untouched.{IsUntouched, Fixes-proxy_to_upstream}
use mini_nginx.Server.{with_pool, next_upstream, start_request, finish_request, serve_request}

-- A request that has ended as `r` says: it is counted as started, its upstream is the one whose turn
-- it was, and one response is counted if it has ended well, one or none if it has not.
pub record Served (pool' : UpstreamPool) (w : World) (r : Result (Unit {0})) (w' : World)
    : Type 0 where
  pub started : w'.metrics.requests_total ≡ w.metrics.requests_total + 1
  pub advanced : w'.pool ≡ pool'
  pub least : responses w ≤ responses w'
  pub most : responses w' ≤ responses w + 1
  pub exact : r ≡ ok tt → responses w' ≡ responses w + 1

-- The number of requests and the pool.
abbrev shown : World → ℕ × UpstreamPool
shown w = (w.metrics.requests_total, w.pool)

shown-IsUntouched : IsUntouched shown
unfolding record_timeout_error record_upstream_error record_response_status
shown-IsUntouched = record {
  apart = record {
    aloof = record {
      timeless = λ w t s d. refl;
      from_client = λ w r. refl;
      to_client = λ w o. refl;
      from_upstream = λ w r. refl;
      to_upstream = λ w o. refl;
    };
    aside = record {
      timeless = λ w t s d. refl;
      limitless = λ w x s. refl;
      unmanaged = λ w x. refl;
    };
    linked = λ w b. refl;
    errors = λ w host port kind. refl;
    timeouts = λ w kind. refl;
  };
  statuses = λ w status. refl;
}

abbrev Ends : ℕ → ℕ × UpstreamPool → Result (Unit {0}) × World → Type 0
Ends n s p =
    (shown p.1 ≡ s)
    × (n ≤ responses p.1)
    × (responses p.1 ≤ n + 1)
    × (p.0 ≡ ok tt → responses p.1 ≡ n + 1)

finish-Ends :
    (n start_time : ℕ) (upstream : Upstream) (r : Result (Option (ℤ × ℕ))) (v : World)
    → Tally n r (responses v)
    → Ends n (shown v) (resume (r, v) (finish_request start_time upstream))
unfolding finish_request record_request_done
finish-Ends n start_time upstream (ok none) v t = (refl, omega arith, omega arith, λ e. t)
finish-Ends n start_time upstream (ok (some (status, size))) v t =
    let once = sum-bump (status_class status) v.metrics.response_total_by_class in
    (refl, omega arith, omega arith, λ e. omega arith)
finish-Ends n start_time upstream (raised e) v t = (refl, t.0, t.1, λ h. cc)

module _ ⦃u : Unicode⦄ (settings : Settings) (req : HttpRequest) where
  -- A request for which the pool has an upstream is counted once as started and takes one turn of the
  -- round robin, whatever happens to it. It adds one response to the counters of the status classes
  -- if it ends well, and never more than one.
  pub serve_request-Served :
      (upstream : Upstream) (pool' : UpstreamPool) (w : World)
      → get_next w.pool ≡ some (upstream, pool')
      → Served pool' w
          (serve_request settings (some req) w).0
          (serve_request settings (some req) w).1
  unfolding serve_request start_request next_upstream record_request_start
  serve_request-Served upstream pool' w turn =
      let begun : World = (start_request w).1 in
      let chosen : World = record begun { pool = pool' } in
      let proxied : Result (Option (ℤ × ℕ)) × World =
        proxy_to_upstream settings req upstream chosen in
      let same : serve_request settings (some req) w
          ≡ resume proxied (finish_request w.now upstream) =
        ap
          (λ o.
            resume (with_pool o begun)
              (λ x. proxy_to_upstream settings req x >>= finish_request w.now x))
          turn in
      let ends : Ends (responses w) (shown proxied.1)
          (resume proxied (finish_request w.now upstream)) =
        finish-Ends (responses w) w.now upstream proxied.0 proxied.1
          (proxy_to_upstream-Tally settings req upstream chosen) in
      let (shows, least, most, exact) =
        subst (Ends (responses w) (shown proxied.1)) (sym same) ends in
      let kept =
        shows ∙ Fixes-proxy_to_upstream shown shown-IsUntouched settings req upstream chosen in
      record {
        started = ap (λ s. s.0) kept;
        advanced = ap (λ s. s.1) kept;
        least = least;
        most = most;
        exact = exact;
      }
