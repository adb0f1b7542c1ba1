-- ===== src/Proxy/Untouched.antt =====
-- Proxying a request, with its handlers and timeouts, changes only the clock, the streams, the
-- upstreams' semaphores and the counters of responses, errors and timeouts.
use mini_nginx.Common.{
  ℕ, ◌+◌, ◌++◌, ◌≡◌, refl, sym, ap, ◌∙◌, ℤ, pos, Option, none, some, nat_beq, Bool-cases, inl, inr,
}
use mini_nginx.Python.Text.{Text, Unicode, codes}
use mini_nginx.Python.Utf8.{encode}
use mini_nginx.Pool.{Upstream}
use mini_nginx.Metrics.{record_response_status, record_timeout_error}
use mini_nginx.Net.{
  World, Io, Exception, timed_out, refused, os_error, cancelled, failure, ◌>>◌, pure, raise, modify,
  catch, suppress, client_write, client_drain,
}
use mini_nginx.Net.Frames.{Fixes, Fixes->>=, Fixes-catch, Fixes-suppress, after-world, handle-Fixes}
use mini_nginx.Net.Aloof.{Fixes-client_write, Fixes-client_drain_aloof}
use mini_nginx.Http.{HttpRequest}
use mini_nginx.Proxy.Connect.{Settings, connect}
use mini_nginx.Timeouts.{TimeoutPolicy, wait_for_total}
use mini_nginx.Proxy.Slots.{Fixes-open_limited}
use mini_nginx.Proxy.Endings.{Reported}
use mini_nginx.Proxy.Aloof.{
  IsBeside, IsApart, IsApart-IsBeside, Fixes-connect_from, Fixes-exchange_from,
  Fixes-close_if_connected_apart,
}
use mini_nginx.Proxy.Exchange.{
  error_response, send_error, count_status, count_upstream_error, bad_gateway, on_error,
  close_if_connected, exchange, proxy_internal, proxy_to_upstream,
}

-- `f` shows none of these.
pub record IsUntouched {X : Type 0} (f : World → X) : Type 0 where
  pub apart : IsApart f
  pub statuses :
      (w : World) (status : ℤ)
      → f (record w { metrics = record_response_status status w.metrics }) ≡ f w

-- `f` shows none of these, but may show the upstreams' semaphores.
pub record IsUncounted {X : Type 0} (f : World → X) : Type 0 where
  pub apart : IsBeside f
  pub statuses :
      (w : World) (status : ℤ)
      → f (record w { metrics = record_response_status status w.metrics }) ≡ f w

module _ {X : Type 0} (f : World → X) (h : IsUncounted f) where
  Fixes-send_error : (response : Text) → Fixes f (send_error response)
  unfolding send_error
  Fixes-send_error response =
      Fixes-catch f (client_write (encode response) >> client_drain) suppress
        (Fixes->>= f (client_write (encode response)) (λ x. client_drain)
          (Fixes-client_write f h.apart.aloof (encode response))
          (λ x. Fixes-client_drain_aloof f h.apart.aloof))
        (Fixes-suppress f)

  Fixes-bad_gateway :
      (upstream : Upstream) (kind response : Text) → Fixes f (bad_gateway upstream kind response)
  Fixes-bad_gateway upstream kind response =
      Fixes->>= f (count_status 502 >> count_upstream_error upstream kind)
        (λ x. send_error response)
        (λ w. h.apart.errors _ upstream.host upstream.port kind ∙ h.statuses w (pos 502))
        (λ x. Fixes-send_error response)

  Fixes-bad_gateway_then :
      {A : Type 0} (k : Io A) (upstream : Upstream) (kind response : Text)
      → Fixes f k
      → Fixes f (bad_gateway upstream kind response >> k)
  Fixes-bad_gateway_then k upstream kind response h =
      Fixes->>= f (bad_gateway upstream kind response) (λ x. k)
        (Fixes-bad_gateway upstream kind response) (λ x. h)

  Fixes-gateway_timeout :
      (response : Text)
      → Fixes f (
          count_status 504
          >> modify (λ w. record w { metrics = record_timeout_error (codes "total") w.metrics })
          >> send_error response)
  Fixes-gateway_timeout response =
      Fixes->>= f
        (count_status 504
          >> modify (λ w. record w { metrics = record_timeout_error (codes "total") w.metrics }))
        (λ x. send_error response)
        (λ w. h.apart.timeouts _ (codes "total") ∙ h.statuses w (pos 504))
        (λ x. Fixes-send_error response)

  Fixes-on_error :
      (req : HttpRequest) (upstream : Upstream) (e : Exception) → Fixes f (on_error req upstream e)
  unfolding on_error
  Fixes-on_error req upstream timed_out =
      let response : Text =
        error_response req.version (codes "504 Gateway Timeout") (codes "Upstream timeout") in
      Fixes->>= f
        (count_status 504
          >> modify (λ w. record w { metrics = record_timeout_error (codes "total") w.metrics })
          >> send_error response)
        (λ x. raise {A = Reported} timed_out) (Fixes-gateway_timeout response) (λ x w. refl)
  Fixes-on_error req upstream (refused msg) =
      Fixes-bad_gateway_then (raise {A = Reported} (refused msg)) upstream
        (codes "connection_refused")
        (error_response req.version (codes "502 Bad Gateway")
          (codes "Upstream unavailable: " ++ msg))
        (λ w. refl)
  Fixes-on_error req upstream (os_error msg) =
      Fixes-bad_gateway_then (raise {A = Reported} (os_error msg)) upstream (codes "other")
        (error_response req.version (codes "502 Bad Gateway")
          (codes "Upstream unavailable: " ++ msg))
        (λ w. refl)
  Fixes-on_error req upstream (cancelled s) = λ w. refl
  Fixes-on_error req upstream (failure msg) =
      Fixes-bad_gateway_then (pure {A = Reported} none) upstream (codes "other")
        (error_response req.version (codes "502 Bad Gateway") (codes "Upstream error: " ++ msg))
        (λ w. refl)

  -- Where opening the connection leaves it alone, from wherever the deadline of the whole is set, so
  -- does the proxying.
  pub Fixes-proxy_to_upstream_from :
      ⦃u : Unicode⦄ (settings : Settings) (req : HttpRequest) (upstream : Upstream) (w : World)
      → ((limit : Option ℕ)
          → f (connect settings upstream (record w { total_deadline = limit })).1 ≡ f w)
      → f (proxy_to_upstream settings req upstream w).1 ≡ f w
  unfolding proxy_to_upstream proxy_internal wait_for_total
  Fixes-proxy_to_upstream_from settings req upstream w k =
      let policy : TimeoutPolicy = settings.timeout_policy in
      let armed : World = record w { total_deadline = some (w.now + policy.total_ms) } in
      let body : Io Reported = catch (exchange settings req upstream) (on_error req upstream) in
      let inner : f (proxy_internal settings req upstream armed).1 ≡ f w =
        ap f (
          after-world f (body armed).0 (close_if_connected (body armed).1).0
            (close_if_connected (body armed).1).1)
        ∙ Fixes-close_if_connected_apart f h.apart (body armed).1
        ∙ handle-Fixes f (exchange settings req upstream armed).0
            (exchange settings req upstream armed).1 (on_error req upstream)
            (Fixes-on_error req upstream)
        ∙ Fixes-exchange_from f h.apart settings req upstream armed (
            k (some (w.now + policy.total_ms))
            ∙ sym (h.apart.aloof.timeless w w.now w.step_deadline (some (w.now + policy.total_ms))))
        ∙ h.apart.aloof.timeless w w.now w.step_deadline (some (w.now + policy.total_ms)) in
      let out : World = (proxy_internal settings req upstream armed).1 in
      elim (Bool-cases (nat_beq policy.total_ms 0)) [
        | inl no_time ↦ rw no_time refl
        | inr some_time ↦
            rw some_time (h.apart.aloof.timeless out out.now out.step_deadline none ∙ inner)
      ]

module _ {X : Type 0} (f : World → X) (h : IsUntouched f) where
  IsUntouched-IsUncounted : IsUncounted f
  IsUntouched-IsUncounted = record { apart = IsApart-IsBeside f h.apart; statuses = h.statuses }

  pub Fixes-proxy_to_upstream :
      ⦃u : Unicode⦄ (settings : Settings) (req : HttpRequest) (upstream : Upstream)
      → Fixes f (proxy_to_upstream settings req upstream)
  Fixes-proxy_to_upstream settings req upstream w =
      Fixes-proxy_to_upstream_from f IsUntouched-IsUncounted settings req upstream w (λ limit.
        Fixes-connect_from f (IsApart-IsBeside f h.apart) settings upstream
          (record w { total_deadline = limit })
          (Fixes-open_limited f h.apart.aside settings upstream
            (record w { total_deadline = limit }))
        ∙ h.apart.aloof.timeless w w.now w.step_deadline limit)
