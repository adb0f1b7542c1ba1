-- ===== src/Proxy/Success.antt =====
-- A request that is proxied successfully, from end to end.
use mini_nginx.Common.{
  ℕ, suc, ◌+◌, ◌≡◌, ◌≢◌, refl, sym, ap, ◌∙◌, true, Option, none, some, ℤ, ◌++◌, arith, length,
}
use mini_nginx.Python.Text.{Unicode}
use mini_nginx.Python.Utf8.{Bytes}
use mini_nginx.Pool.{Upstream}
use mini_nginx.Metrics.{Metrics}
use mini_nginx.Net.{
  World, Writer, Io, ok, raised, Result, Exception, timed_out, refused, os_error, cancelled,
  failure, ◌>>=◌, pure, raise, catch, resume, client_drain, close_upstream,
}
use mini_nginx.Net.Binds.{>>=-eq-ok, catch-eq-ok, finally-eq-ok}
use mini_nginx.Net.Frames.{Fixes, IsTimeless, Fixes-if, Fixes-pure, Fixes-close_upstream}
use mini_nginx.Net.Reading.{content}
use mini_nginx.Http.{HttpRequest, write_to_upstream}
use mini_nginx.Http.Sent.{Sent}
use mini_nginx.Http.Forward.{head_bytes, body_of, write_to_upstream-Sent}
use mini_nginx.Timeouts.{wait_for}
use mini_nginx.Timeouts.Laws.{wait_for-eq-ok, wait_for_total-eq-ok}
use mini_nginx.Proxy.Connect.{Settings, connect}
use mini_nginx.Proxy.Relay.{Progress, begin}
use mini_nginx.Proxy.Response.{client_drain-ok, beside_client}
use mini_nginx.Proxy.Whole.{RelayEnds, relay-RelayEnds}
use mini_nginx.Proxy.Slots.{streams, connect-ok}
use mini_nginx.Proxy.Exchange.{
  on_error, finished, close_if_connected, relay_response, exchange, proxy_internal,
  proxy_to_upstream,
}

then_raise :
    {A B : Type 0} (m : Result A × World) (x : Exception) {b : B}
    → (resume m (λ z. raise {A = B} x)).0 ≢ ok b
then_raise (ok a, w) x e = cc
then_raise (raised y, w) x e = cc

then_none :
    {A B : Type 0} (m : Result A × World) {b : B}
    → (resume m (λ z. pure {A = Option B} none)).0 ≢ ok (some b)
then_none (ok a, w) e = cc
then_none (raised y, w) e = cc

-- A handler never reports a status and a size.
pub on_error-ne-some :
    (req : HttpRequest) (upstream : Upstream) (r : ℤ × ℕ) (e : Exception) (v : World)
    → (on_error req upstream e v).0 ≢ ok (some r)
unfolding on_error
on_error-ne-some req upstream r timed_out v = then_raise _ timed_out
on_error-ne-some req upstream r (refused msg) v = then_raise _ (refused msg)
on_error-ne-some req upstream r (os_error msg) v = then_raise _ (os_error msg)
on_error-ne-some req upstream r (cancelled s) v = λ h. cc h
on_error-ne-some req upstream r (failure msg) v = then_none _

-- What the `finally` clause leaves alone.
abbrev pub results : World → Bytes × Bytes × Bytes × Bytes × Metrics
results w = (
  w.client_out.written,
  w.upstream_out.written,
  content w.client_in,
  content w.upstream_in,
  w.metrics,
)

-- The clause closes the connection if there is one, and is no part of what `f` shows otherwise.
pub Fixes-close_if_connected :
    {X : Type 0} (f : World → X)
    → IsTimeless f
    → ((w : World) → f (record w { upstream_out = record w.upstream_out { closed = true } }) ≡ f w)
    → Fixes f close_if_connected
unfolding close_if_connected
Fixes-close_if_connected f timeless unclosed w =
    Fixes-if f w.connected close_upstream (pure tt) (Fixes-close_upstream f timeless unclosed)
      (Fixes-pure f tt) w

-- The size that is reported.
abbrev size_of : Result (Option (ℤ × ℕ)) → ℕ
size_of (ok none) = 0
size_of (ok (some (status, total))) = total
size_of (raised e) = 0

-- From `w` to `w'`, a request has been sent to the upstream, and its response to the client.
pub record Exchanged ⦃u : Unicode⦄ (req : HttpRequest) (total : ℕ) (w w' : World) : Type 0 where
  pub request :
      w'.upstream_out.written
      ≡ w.upstream_out.written ++ (head_bytes req ++ body_of req (content w.client_in))
  pub body_taken : content w.client_in ≡ body_of req (content w.client_in) ++ content w'.client_in
  pub response : w'.client_out.written ≡ w.client_out.written ++ content w.upstream_in
  pub size : total ≡ length (content w.upstream_in)
  pub counters : w'.metrics ≡ w.metrics

module _ ⦃u : Unicode⦄ (settings : Settings) (req : HttpRequest) (upstream : Upstream) where
  -- What the steps of the `try` have done, put together.
  steps-Exchanged :
      (p : Progress) (total limit : ℕ) (w v1 v v2 v3 v4 w' : World)
      → streams v1 ≡ streams w
      → Sent
          (head_bytes req ++ body_of req (content v1.client_in))
          (body_of req (content v1.client_in))
          (record v1 { step_deadline = some limit })
          v
      → v2 ≡ record v { step_deadline = none }
      → RelayEnds begin p v2 v3
      → v4.client_out.written ≡ v3.client_out.written
      → beside_client v4 ≡ beside_client v3
      → w' ≡ v4
      → p.total_bytes ≡ total
      → Exchanged req total w w'
  steps-Exchanged p total limit w v1 v v2 v3 v4 w' same put after_write got drained aside ended
        totals =
      let client : v1.client_in ≡ w.client_in = ap (λ q. q.0) same in
      let reply : v2.client_out ≡ w.client_out =
        ap (λ (x : World). x.client_out) after_write ∙ put.reply ∙ ap (λ q. q.1) same in
      let response : v2.upstream_in ≡ w.upstream_in =
        ap (λ (x : World). x.upstream_in) after_write ∙ put.response ∙ ap (λ q. q.2) same in
      record {
        request =
            ap (λ (x : World). x.upstream_out.written) ended
            ∙ ap (λ q. q.2.written) aside
            ∙ ap (λ (o : Writer). o.written) got.relayed.sent
            ∙ ap (λ (x : World). x.upstream_out.written) after_write
            ∙ put.written
            ∙ ap (λ q. q.3.written ++ (head_bytes req ++ body_of req (content q.0))) same;
        body_taken =
            ap content (sym client)
            ∙ put.taken
            ∙ ap (λ r. body_of req (content r) ++ content v.client_in) client
            ∙ ap (λ r. body_of req (content w.client_in) ++ content r)
                (sym (
                  ap (λ (x : World). x.client_in) ended
                  ∙ ap (λ q. q.1) aside
                  ∙ got.relayed.request
                  ∙ ap (λ (x : World). x.client_in) after_write));
        response =
            ap (λ (x : World). x.client_out.written) ended
            ∙ drained
            ∙ got.relayed.written
            ∙ ap (λ (o : Writer). o.written ++ content v2.upstream_in) reply
            ∙ ap (λ r. w.client_out.written ++ content r) response;
        size = sym totals ∙ got.counted ∙ omega (arith, ap (λ r. length (content r)) response);
        counters =
            ap (λ (x : World). x.metrics) ended
            ∙ ap (λ q. q.3) aside
            ∙ got.relayed.counters
            ∙ ap (λ (x : World). x.metrics) after_write
            ∙ put.counters
            ∙ ap (λ q. q.4) same;
      }

  -- The steps of the `try`, one after the other.
  pub exchange-Exchanged :
      (status : ℤ) (total : ℕ) (w w' : World)
      → exchange settings req upstream w ≡ (ok (some (status, total)), w')
      → Exchanged req total w w'
  unfolding exchange relay_response
  exchange-Exchanged status total w w' e =
      let sending : Io (Unit {0}) =
        wait_for settings.timeout_policy.write_ms (write_to_upstream req) in
      let relaying : Io Progress = relay_response settings req upstream in
      let ending : Progress → Io (Option (ℤ × ℕ)) = λ p. client_drain >>= λ z. pure (finished p) in
      let (a, v1, connected, e1) =
        >>=-eq-ok (connect settings upstream) (λ z. sending >>= λ z. relaying >>= ending) w e in
      let (b, v2, sent, e2) = >>=-eq-ok sending (λ z. relaying >>= ending) v1 e1 in
      let (p, v3, relayed, e3) = >>=-eq-ok relaying ending v2 e2 in
      let (c, v4, drained, e4) = >>=-eq-ok client_drain (λ z. pure (finished p)) v3 e3 in
      let (v, wrote, after_write) =
        wait_for-eq-ok settings.timeout_policy.write_ms (write_to_upstream req) v1 sent in
      let fuel : ℕ = suc (length (content v2.upstream_in)) in
      let (drained_same, aside) = client_drain-ok v3 v4 drained in
      steps-Exchanged p total (v1.now + settings.timeout_policy.write_ms) w v1 v v2 v3 v4 w'
        (connect-ok settings upstream w v1 connected).0
        (write_to_upstream-Sent req
          (record v1 { step_deadline = some (v1.now + settings.timeout_policy.write_ms) }) v wrote)
        after_write (relay-RelayEnds settings.timeout_policy upstream fuel begin p v2 v3 relayed)
        drained_same aside (sym (ap (λ q. q.1) e4)) (ap (λ q. size_of q.0) e4)

  -- Where `proxy_to_upstream` reports a status and a size, the upstream has been sent the head of the
  -- request and its body, and the client has been given all bytes of the response and nothing
  -- else; the size is their number. Nothing has been counted yet.
  pub proxy_to_upstream-Exchanged :
      (status : ℤ) (total : ℕ) (w w' : World)
      → proxy_to_upstream settings req upstream w ≡ (ok (some (status, total)), w')
      → Exchanged req total w w'
  unfolding proxy_to_upstream proxy_internal
  proxy_to_upstream-Exchanged status total w w' e =
      let (v, inner, ended) =
        wait_for_total-eq-ok settings.timeout_policy.total_ms (proxy_internal settings req upstream)
          w e in
      let (x, tried, closed) =
        finally-eq-ok (catch (exchange settings req upstream) (on_error req upstream))
          close_if_connected _ inner in
      let plain =
        catch-eq-ok (exchange settings req upstream) (on_error req upstream) _
          (on_error-ne-some req upstream (status, total)) tried in
      let done = exchange-Exchanged status total _ x plain in
      let same : results w' ≡ results x =
        ap results ended
        ∙ ap results closed
        ∙ Fixes-close_if_connected results (λ w t s d. refl) (λ w. refl) x in
      record {
        request = ap (λ q. q.1) same ∙ done.request;
        body_taken =
            done.body_taken
            ∙ ap (λ c. body_of req (content w.client_in) ++ c) (sym (ap (λ q. q.2) same));
        response = ap (λ q. q.0) same ∙ done.response;
        size = done.size;
        counters = ap (λ q. q.4) same ∙ done.counters;
      }
