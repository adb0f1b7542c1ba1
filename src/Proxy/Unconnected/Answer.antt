-- ===== src/Proxy/Unconnected/Answer.antt =====
-- What a request comes to whose upstream cannot be connected to.
use mini_nginx.Common.{
  true, ℕ, ◌+◌, ◌<◌, ◌≡◌, ◌≢◌, refl, sym, ap, ◌∙◌, false, none, some, ℤ, arith, ◌++◌, nat_beq,
}
use mini_nginx.Python.Text.{Unicode, Text, codes}
use mini_nginx.Python.Utf8.{Bytes, encode}
use mini_nginx.Pool.{Upstream}
use mini_nginx.Metrics.{Metrics}
use mini_nginx.Limits.{HasSlots, upstream_connection}
use mini_nginx.Net.{
  World, Io, Result, Exception, ok, raised, timed_out, refused, os_error, cancelled, failure, ◌>>◌,
  catch, modify, resume, suppress, client_write, client_drain,
}
use mini_nginx.Net.Binds.{catch-eq-ok, finally-eq-ok, catch-raised, >>=-raised}
use mini_nginx.Net.Frames.{
  Fixes, Fixes->>=, Fixes-catch, Fixes-suppress, Fixes-client_drain, after-world,
}
use mini_nginx.Http.{HttpRequest}
use mini_nginx.Timeouts.{wait_for_total}
use mini_nginx.Timeouts.Laws.{wait_for_total-eq-ok}
use mini_nginx.Proxy.Connect.{Settings, no_semaphore, open_limited, count_connect_error, connect}
use mini_nginx.Proxy.Giving.{open_limited-refused}
use mini_nginx.Proxy.Endings.{
  answer, counted, reply, Reported, resume-world, proxy_internal-answers,
}
use mini_nginx.Proxy.Success.{on_error-ne-some, Fixes-close_if_connected}
use mini_nginx.Proxy.Exchange.{
  error_response, send_error, on_error, close_if_connected, exchange, proxy_internal,
  proxy_to_upstream,
}
use mini_nginx.Proxy.Unconnected.{attempt, IsError, seen, attempted, Raises, exchange-Raises}

-- What has been written to the upstream.
abbrev sent : World → Bytes
sent w = w.upstream_out.written

send_error-sent : (response : Text) → Fixes sent (send_error response)
unfolding send_error
send_error-sent response =
    Fixes-catch sent (client_write (encode response) >> client_drain) suppress
      (Fixes->>= sent (client_write (encode response)) (λ x. client_drain) (λ w. refl)
        (λ x. Fixes-client_drain sent (λ w t s d. refl) (λ w. refl)))
      (Fixes-suppress sent)

-- The response, sent where `m` has been counted, and an outcome behind it.
then-sent :
    {B : Type 0} (r : Result B) (response : Text) (m : Metrics) (v : World)
    → sent (resume (send_error response (record v { metrics = m })) (λ z w. (r, w))).1 ≡ sent v
then-sent r response m v =
    ap sent (resume-world (send_error response (record v { metrics = m })) r)
    ∙ send_error-sent response (record v { metrics = m })

on_error-sent :
    (req : HttpRequest) (upstream : Upstream) (e : Exception) → Fixes sent (on_error req upstream e)
unfolding on_error
on_error-sent req upstream timed_out v =
    then-sent {B = Reported} (raised timed_out)
      (error_response req.version (codes "504 Gateway Timeout") (codes "Upstream timeout"))
      (counted upstream timed_out v.metrics) v
on_error-sent req upstream (refused msg) v =
    then-sent {B = Reported} (raised (refused msg))
      (error_response req.version (codes "502 Bad Gateway") (codes "Upstream unavailable: " ++ msg))
      (counted upstream (refused msg) v.metrics) v
on_error-sent req upstream (os_error msg) v =
    then-sent {B = Reported} (raised (os_error msg))
      (error_response req.version (codes "502 Bad Gateway") (codes "Upstream unavailable: " ++ msg))
      (counted upstream (os_error msg) v.metrics) v
on_error-sent req upstream (cancelled s) v = refl
on_error-sent req upstream (failure msg) v =
    then-sent {B = Reported} (ok none)
      (error_response req.version (codes "502 Bad Gateway") (codes "Upstream error: " ++ msg))
      (counted upstream (failure msg) v.metrics) v

module _ ⦃u : Unicode⦄ (settings : Settings) (req : HttpRequest) (upstream : Upstream) where
  proxy_internal-sent :
      (e : Exception) (w v : World)
      → exchange settings req upstream w ≡ (raised e, v)
      → sent (proxy_internal settings req upstream w).1 ≡ sent v
  unfolding proxy_internal
  proxy_internal-sent e w v failed =
      let body : Io Reported = catch (exchange settings req upstream) (on_error req upstream) in
      let closing : Result (Unit {0}) × World = close_if_connected (body w).1 in
      ap sent (after-world sent (body w).0 closing.0 closing.1)
      ∙ Fixes-close_if_connected sent (λ w t s d. refl) (λ w. refl) (body w).1
      ∙ ap (λ p. sent p.1)
          (catch-raised (exchange settings req upstream) (on_error req upstream) w failed)
      ∙ on_error-sent req upstream e v

  -- The deadline is set inside, and put away behind.
  total-seen :
      (m : Io Reported) (limit : ℕ) (w : World)
      → 0 < limit
      → seen (wait_for_total limit m w).1
        ≡ seen (m (record w { total_deadline = some (w.now + limit) })).1
  unfolding wait_for_total
  total-seen m limit w positive =
      let some_time : nat_beq limit 0 ≡ false = ground arith in rw some_time refl

  ne-reported :
      (e : Exception) (w v : World) (x : ℤ × ℕ)
      → exchange settings req upstream
          (record w { total_deadline = some (w.now + settings.timeout_policy.total_ms) })
        ≡ (raised e, v)
      → (proxy_to_upstream settings req upstream w).0 ≢ ok (some x)
  unfolding proxy_to_upstream proxy_internal
  ne-reported e w v x failed good =
      let proxied : Result Reported × World = proxy_to_upstream settings req upstream w in
      let (y, inner, ended) =
        wait_for_total-eq-ok settings.timeout_policy.total_ms (proxy_internal settings req upstream)
          w (ap (λ r. (r, proxied.1)) good) in
      let (z, tried, closed) =
        finally-eq-ok (catch (exchange settings req upstream) (on_error req upstream))
          close_if_connected _ inner in
      let plain =
        catch-eq-ok (exchange settings req upstream) (on_error req upstream) _
          (on_error-ne-some req upstream x) tried in
      let same : raised e ≡ ok (some x) = ap (λ p. p.0) (sym failed ∙ plain) in cc

  -- Nothing has been sent to the upstream, the client has got the error response of the exception, and no
  -- status is reported.
  abbrev pub Answered : Exception → Metrics → World → Result Reported × World → Type 0
  Answered e m w p =
      (seen p.1
        ≡ (w.upstream_out.written, w.client_out.written ++ answer req e, counted upstream e m))
      × ((x : ℤ × ℕ) → p.0 ≢ ok (some x))

  raised-answers :
      (e : Exception) (m : Metrics) (w : World)
      → 0 < settings.timeout_policy.total_ms
      → Raises e m
          (exchange settings req upstream)
          (record w { total_deadline = some (w.now + settings.timeout_policy.total_ms) })
      → Answered e m w (proxy_to_upstream settings req upstream w)
  unfolding proxy_to_upstream
  raised-answers e m w some_time (v, raises, kept) =
      let armed : World = record w {
        total_deadline = some (w.now + settings.timeout_policy.total_ms);
      } in
      let inner : World = (proxy_internal settings req upstream armed).1 in
      let replied : reply inner
          ≡ (v.client_out.written ++ answer req e, counted upstream e v.metrics) =
        proxy_internal-answers settings req upstream e armed v raises in
      (
        total-seen (proxy_internal settings req upstream) settings.timeout_policy.total_ms w
              some_time
            ∙ ap (λ b. (b, inner.client_out.written, inner.metrics))
                (proxy_internal-sent e armed v raises)
            ∙ ap (λ r. (sent v, r.0, r.1)) replied
            ∙ ap (λ s. (s.0, s.1 ++ answer req e, counted upstream e s.2)) kept,
        λ x. ne-reported e w v x raises,
      )

  -- Without a connection.
  pub proxy_to_upstream-answers :
      (e : Exception) (w : World)
      → IsError e
      → 0 < settings.timeout_policy.connect_ms
      → w.step_deadline ≡ none
      → HasSlots w.manager
      → w.upstream_slot_wait + settings.timeout_policy.connect_ms < settings.timeout_policy.total_ms
      → attempt settings.timeout_policy.connect_ms w.connection ≡ some e
      → Answered e (attempted upstream e w.metrics) w (proxy_to_upstream settings req upstream w)
  proxy_to_upstream-answers e w real positive no_step slots early fails =
      raised-answers e (attempted upstream e w.metrics) w (omega arith) (
        exchange-Raises settings upstream e real req
          (record w { total_deadline = some (w.now + settings.timeout_policy.total_ms) }) positive
          no_step slots (omega arith) fails)

  -- Without a semaphore.
  pub proxy_to_upstream-refused :
      (w : World)
      → settings.limited ≡ true
      → 0 < settings.timeout_policy.total_ms
      → upstream_connection upstream w.manager ≡ none
      → Answered no_semaphore w.metrics w (proxy_to_upstream settings req upstream w)
  unfolding exchange connect
  proxy_to_upstream-refused w limited some_time none_made =
      let armed : World = record w {
        total_deadline = some (w.now + settings.timeout_policy.total_ms);
      } in
      let refusal = open_limited-refused settings upstream limited armed none_made in
      let tried =
        catch-raised (open_limited settings upstream) (count_connect_error upstream) armed
          refusal in
      raised-answers no_semaphore w.metrics w some_time (
        armed,
        >>=-raised (connect settings upstream) _ armed (
            >>=-raised (catch (open_limited settings upstream) (count_connect_error upstream))
              (λ z. modify (λ y. record y { connected = true })) armed tried),
        refl,
      )
