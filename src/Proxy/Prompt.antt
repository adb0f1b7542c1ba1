-- ===== src/Proxy/Prompt.antt =====
-- On a network that is quick enough a request is proxied.
use mini_nginx.Common.{
  ℕ, zero, suc, ◌+◌, ◌<◌, ◌≡◌, ◌≢◌, refl, sym, ap, ◌∙◌, Bool, true, false, Option, none, some, [],
  ◌∷◌, arith, length, length-append, if◌then◌else◌, ℤ,
}
use mini_nginx.Python.Text.{Unicode}
use mini_nginx.Python.Utf8.{Bytes}
use mini_nginx.Pool.{Upstream}
use mini_nginx.Net.{
  World, Io, ok, ◌>>=◌, ◌>>◌, pure, catch, client_write, client_drain, close_upstream,
}
use mini_nginx.Net.Binds.{catch-ok}
use mini_nginx.Net.Frames.{Fixes-client_drain}
use mini_nginx.Net.Reading.{content}
use mini_nginx.Net.Prompt.{Delays, IsPrompt, IsPrompt-less, Succeeds, Succeeds->>=}
use mini_nginx.Net.Prompt.Streams.{client_drain-Succeeds, close_upstream-Succeeds}
use mini_nginx.Http.{HttpRequest, write_to_upstream}
use mini_nginx.Http.Prompt.{write_to_upstream-Succeeds, some-length}
use mini_nginx.Timeouts.{TimeoutPolicy, wait_for}
use mini_nginx.Proxy.Connect.{Settings, connect}
use mini_nginx.Proxy.Relay.{Progress, begin, advance, read_chunk, relay_chunk, relay}
use mini_nginx.Proxy.Response.{read_chunk-Received}
use mini_nginx.Proxy.Counting.{exchange-ne-none}
use mini_nginx.Proxy.Success.{Exchanged, proxy_to_upstream-Exchanged}
use mini_nginx.Proxy.Exchange.{
  on_error, finished, close_if_connected, relay_response, exchange, proxy_internal,
  proxy_to_upstream,
}
use mini_nginx.Proxy.InTime.{
  IsLonger, Yields, wait_for-Succeeds, wait_for_total-Yields, finally-Yields,
}
use mini_nginx.Proxy.InTime.Connecting.{connect-Succeeds, read_chunk-Succeeds}

cons-ne : (b : ℕ) (bytes : Bytes) → b ∷ bytes ≢ []
cons-ne b bytes e = cc

-- Writing to the client leaves the response alone.
pass_on-response :
    (chunk : Bytes) (w v : World)
    → (client_write chunk >> client_drain) w ≡ (ok tt, v)
    → v.upstream_in ≡ w.upstream_in
pass_on-response chunk w v e =
    sym (ap (λ q. q.1.upstream_in) e)
    ∙ Fixes-client_drain (λ x. x.upstream_in) (λ x t s d. refl) (λ x. refl) (client_write chunk w).1

-- A status and a size.
abbrev IsReported : Option (ℤ × ℕ) → Type 0
IsReported o = (x : ℤ × ℕ) × (o ≡ some x)

some-IsReported : (o : Option (ℤ × ℕ)) → o ≢ none → IsReported o
some-IsReported none h = absurd (h refl)
some-IsReported (some x) h = (x, refl)

module _ ⦃u : Unicode⦄ (t : Delays) where
  relay_chunk-Succeeds :
      (b : ℕ) (chunk : Bytes) (p : Progress) (next : Progress → Io Progress) (w : World)
      → IsPrompt t b w
      → (chunk ≢ []
          → (q : Progress) (v : World) → v.upstream_in ≡ w.upstream_in
          → IsPrompt t b v
          → Succeeds t b (next q) v)
      → Succeeds t b (relay_chunk chunk p next) w
  unfolding relay_chunk
  relay_chunk-Succeeds b [] p next w h k = (p, w, refl, h)
  relay_chunk-Succeeds b (x ∷ bytes) p next w h k =
      Succeeds->>= t b b (client_write (x ∷ bytes) >> client_drain)
        (λ z. next (advance (x ∷ bytes) p)) w
        (client_drain-Succeeds t b (client_write (x ∷ bytes) w).1 h)
        (λ z v e q.
          k (cons-ne x bytes) (advance (x ∷ bytes) p) v (pass_on-response (x ∷ bytes) w v e) q)

  module _ (settings : Settings) (upstream : Upstream)
      (longer : IsLonger t settings.timeout_policy) where
    relay-Succeeds :
        (b fuel : ℕ) (p : Progress) (w : World)
        → length (content w.upstream_in) < fuel
        → IsPrompt t b w
        → Succeeds t b (relay fuel settings.timeout_policy upstream p) w
    unfolding relay
    relay-Succeeds b zero p w le h = absurd (omega arith)
    relay-Succeeds b (suc fuel) p w le h =
        let policy : TimeoutPolicy = settings.timeout_policy in
        Succeeds->>= t b b (read_chunk policy upstream)
          (λ chunk. relay_chunk chunk p (relay fuel policy upstream)) w
          (read_chunk-Succeeds t b settings upstream longer w h)
          (λ chunk v e q.
            let got = read_chunk-Received policy upstream w v chunk e in
            relay_chunk-Succeeds b chunk p (relay fuel policy upstream) v q
              (λ some_bytes r x from q'.
                relay-Succeeds b fuel r x
                  (omega (
                    arith,
                    some-length chunk some_bytes,
                    length-append chunk (content v.upstream_in),
                    ap length got.taken,
                    ap (λ z. length (content z)) from,
                  ))
                  q'))

    module _ (req : HttpRequest) where
      exchange-Succeeds :
          (b : ℕ) (w : World)
          → IsPrompt t (t.slot + (t.connecting + b)) w
          → Succeeds t b (exchange settings req upstream) w
      unfolding exchange relay_response
      exchange-Succeeds b w p =
          let policy : TimeoutPolicy = settings.timeout_policy in
          let sending : Io (Unit {0}) = wait_for policy.write_ms (write_to_upstream req) in
          let relaying : Io Progress = relay_response settings req upstream in
          let ending : Progress → Io (Option (ℤ × ℕ)) =
            λ x. client_drain >>= λ z. pure (finished x) in
          Succeeds->>= t b b (connect settings upstream) (λ z. sending >>= λ z. relaying >>= ending)
            w (connect-Succeeds t b settings upstream longer w p)
            (λ x v e q.
              Succeeds->>= t b b sending (λ z. relaying >>= ending) v
                (wait_for-Succeeds t b b policy.write_ms (write_to_upstream req) v longer.writing q
                  (λ y same r. write_to_upstream-Succeeds t b req y r))
                (λ x v e q.
                  Succeeds->>= t b b relaying ending v
                    (relay-Succeeds b (suc (length (content v.upstream_in))) begin v (omega arith)
                      q)
                    (λ x v e q.
                      Succeeds->>= t b b client_drain (λ z. pure (finished x)) v
                        (client_drain-Succeeds t b v q) (λ z v e q. (finished x, v, refl, q)))))

      closing-Succeeds :
          (connected : Bool) (b : ℕ) (w : World)
          → IsPrompt t (t.closing + b) w
          → Succeeds t b (if connected then close_upstream else pure tt) w
      closing-Succeeds true b w p = close_upstream-Succeeds t b w p
      closing-Succeeds false b w p = (tt, w, refl, IsPrompt-less t t.closing b w p)

      close_if_connected-Succeeds :
          (b : ℕ) (w : World) → IsPrompt t (t.closing + b) w → Succeeds t b close_if_connected w
      unfolding close_if_connected
      close_if_connected-Succeeds b w p = closing-Succeeds w.connected b w p

      exchange-Yields :
          (b : ℕ) (w : World)
          → IsPrompt t (t.slot + (t.connecting + b)) w
          → Yields t b IsReported (exchange settings req upstream) w
      exchange-Yields b w p =
          let (a, v, e, q) = exchange-Succeeds b w p in
          (
            a,
            some-IsReported a
                (λ z. exchange-ne-none settings req upstream w (ap (λ r. r.0) e ∙ ap ok z)),
            v,
            e,
            q,
          )

      proxy_internal-Yields :
          (w : World)
          → IsPrompt t (t.slot + (t.connecting + (t.closing + 0))) w
          → Yields t 0 IsReported (proxy_internal settings req upstream) w
      unfolding proxy_internal
      proxy_internal-Yields w p =
          let (a, good, v, e, q) = exchange-Yields (t.closing + 0) w p in
          finally-Yields t (t.closing + 0) 0 IsReported
            (catch (exchange settings req upstream) (on_error req upstream)) close_if_connected w
            (a, good, v, catch-ok (exchange settings req upstream) (on_error req upstream) w e, q)
            (close_if_connected-Succeeds 0)

      -- On a network where nothing breaks, and whose delays, the wait for a slot, the connecting and the
      -- closing among them, are together shorter than every timeout, and with a limit of the upstream
      -- that is more than zero, a request is proxied: a status and a size are returned, the upstream
      -- has been sent the head of the request and its body, and the client the whole response.
      pub proxy_to_upstream-delivers :
          (w : World)
          → IsPrompt t (t.slot + (t.connecting + (t.closing + 0))) w
          → (status : ℤ) × (total : ℕ) × (w' : World) × (proxy_to_upstream settings req upstream w
              ≡ (ok (some (status, total)), w'))
            × Exchanged req total w w'
      unfolding proxy_to_upstream
      proxy_to_upstream-delivers w p =
          let (a, ((status, total), same), w', e, q) =
            wait_for_total-Yields t (t.slot + (t.connecting + (t.closing + 0))) 0
              settings.timeout_policy.total_ms (proxy_internal settings req upstream) w longer.whole
              p IsReported proxy_internal-Yields in
          let whole = e ∙ ap (λ o. (ok o, w')) same in
          (
            status,
            total,
            w',
            whole,
            proxy_to_upstream-Exchanged settings req upstream status total w w' whole,
          )
