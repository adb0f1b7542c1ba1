-- ===== src/Proxy/Aloof.antt =====
-- The proxying itself counts errors and timeouts, and changes the clock, the streams and the
-- upstreams' semaphores; nothing else.
use mini_nginx.Common.{ℕ, zero, suc, ◌≡◌, refl, ◌∙◌, Bool, Option, [], ◌∷◌, length, ℤ}
use mini_nginx.Python.Text.{Text, Unicode}
use mini_nginx.Python.Utf8.{Bytes}
use mini_nginx.Pool.{Upstream}
use mini_nginx.Metrics.{record_timeout_error, record_upstream_error}
use mini_nginx.Net.{
  World, Io, Exception, timed_out, refused, os_error, cancelled, failure, ◌>>=◌, ◌>>◌, pure, modify,
  catch, upstream_read, client_write, client_drain,
}
use mini_nginx.Net.Frames.{Fixes, Fixes->>=, Fixes-catch, Fixes-if, resume-Fixes, handle-Fixes}
use mini_nginx.Net.Aloof.{
  IsAloof, Fixes-upstream_read, Fixes-client_write, Fixes-client_drain_aloof,
  Fixes-close_upstream_aloof,
}
use mini_nginx.Net.Reading.{content}
use mini_nginx.Http.{HttpRequest, write_to_upstream}
use mini_nginx.Http.Aloof.{Fixes-write_to_upstream}
use mini_nginx.Timeouts.{TimeoutPolicy, wait_for}
use mini_nginx.Timeouts.Laws.{Fixes-wait_for}
use mini_nginx.Proxy.Connect.{Settings, open_limited, count_connect_error, connect}
use mini_nginx.Proxy.Relay.{
  Progress, begin, advance, count_read_error, read_chunk, relay_chunk, relay,
}
use mini_nginx.Proxy.Slots.{IsAside, Fixes-open_limited}
use mini_nginx.Proxy.Exchange.{close_if_connected, finished, relay_response, exchange}

-- `f` shows none of these.
pub record IsBeside {X : Type 0} (f : World → X) : Type 0 where
  pub aloof : IsAloof f
  pub linked : (w : World) (b : Bool) → f (record w { connected = b }) ≡ f w
  pub errors :
      (w : World) (host : Text) (port : ℤ) (kind : Text)
      → f (record w { metrics = record_upstream_error host port kind w.metrics }) ≡ f w
  pub timeouts :
      (w : World) (kind : Text)
      → f (record w { metrics = record_timeout_error kind w.metrics }) ≡ f w

-- Nor the upstreams' semaphores.
pub record IsApart {X : Type 0} (f : World → X) : Type 0 where
  pub aloof : IsAloof f
  pub aside : IsAside f
  pub linked : (w : World) (b : Bool) → f (record w { connected = b }) ≡ f w
  pub errors :
      (w : World) (host : Text) (port : ℤ) (kind : Text)
      → f (record w { metrics = record_upstream_error host port kind w.metrics }) ≡ f w
  pub timeouts :
      (w : World) (kind : Text)
      → f (record w { metrics = record_timeout_error kind w.metrics }) ≡ f w

pub IsApart-IsBeside : {X : Type 0} (f : World → X) → IsApart f → IsBeside f
IsApart-IsBeside f h = record {
  aloof = h.aloof;
  linked = h.linked;
  errors = h.errors;
  timeouts = h.timeouts;
}

module _ {X : Type 0} (f : World → X) (h : IsBeside f) where
  Fixes-count_connect_error :
      (upstream : Upstream) (e : Exception) → Fixes f (count_connect_error upstream e)
  Fixes-count_connect_error upstream timed_out w =
      h.errors _ upstream.host upstream.port _ ∙ h.timeouts w _
  Fixes-count_connect_error upstream (refused msg) w = refl
  Fixes-count_connect_error upstream (os_error msg) w = refl
  Fixes-count_connect_error upstream (cancelled s) w = refl
  Fixes-count_connect_error upstream (failure msg) w = refl

  -- Where the attempt leaves it alone.
  pub Fixes-connect_from :
      (settings : Settings) (upstream : Upstream) (w : World)
      → f (open_limited settings upstream w).1 ≡ f w
      → f (connect settings upstream w).1 ≡ f w
  unfolding connect
  Fixes-connect_from settings upstream w k =
      let attempt : Io (Unit {0}) =
        catch (open_limited settings upstream) (count_connect_error upstream) in
      resume-Fixes f (attempt w).0 (attempt w).1 (λ x. modify (λ v. record v { connected = _ }))
        (λ x v. h.linked v _)
      ∙ handle-Fixes f (open_limited settings upstream w).0 (open_limited settings upstream w).1
          (count_connect_error upstream) (Fixes-count_connect_error upstream)
      ∙ k

  Fixes-count_read_error :
      (upstream : Upstream) (e : Exception) → Fixes f (count_read_error upstream e)
  Fixes-count_read_error upstream timed_out w =
      h.errors _ upstream.host upstream.port _ ∙ h.timeouts w _
  Fixes-count_read_error upstream (refused msg) w = refl
  Fixes-count_read_error upstream (os_error msg) w = refl
  Fixes-count_read_error upstream (cancelled s) w = refl
  Fixes-count_read_error upstream (failure msg) w = refl

  Fixes-read_chunk :
      (policy : TimeoutPolicy) (upstream : Upstream) → Fixes f (read_chunk policy upstream)
  unfolding read_chunk
  Fixes-read_chunk policy upstream =
      Fixes-catch f (wait_for policy.read_ms (upstream_read 8192)) (count_read_error upstream)
        (Fixes-wait_for f h.aloof.timeless policy.read_ms (upstream_read 8192)
          (Fixes-upstream_read f h.aloof 8192))
        (Fixes-count_read_error upstream)

  module _ ⦃u : Unicode⦄ where
    Fixes-relay_chunk :
        (chunk : Bytes) (p : Progress) (next : Progress → Io Progress)
        → ((q : Progress) → Fixes f (next q))
        → Fixes f (relay_chunk chunk p next)
    unfolding relay_chunk
    Fixes-relay_chunk [] p next k = λ w. refl
    Fixes-relay_chunk (b ∷ bytes) p next k =
        Fixes->>= f (client_write (b ∷ bytes) >> client_drain) (λ x. next (advance (b ∷ bytes) p))
          (Fixes->>= f (client_write (b ∷ bytes)) (λ x. client_drain)
            (Fixes-client_write f h.aloof (b ∷ bytes)) (λ x. Fixes-client_drain_aloof f h.aloof))
          (λ x. k (advance (b ∷ bytes) p))

    Fixes-relay :
        (fuel : ℕ) (policy : TimeoutPolicy) (upstream : Upstream) (p : Progress)
        → Fixes f (relay fuel policy upstream p)
    unfolding relay
    Fixes-relay zero policy upstream p = λ w. refl
    Fixes-relay (suc fuel) policy upstream p =
        Fixes->>= f (read_chunk policy upstream)
          (λ chunk. relay_chunk chunk p (relay fuel policy upstream))
          (Fixes-read_chunk policy upstream)
          (λ chunk.
            Fixes-relay_chunk chunk p (relay fuel policy upstream)
              (Fixes-relay fuel policy upstream))

    module _ (settings : Settings) (req : HttpRequest) (upstream : Upstream) where
      -- Where opening the connection leaves it alone, so does the whole.
      pub Fixes-exchange_from :
          (w : World)
          → f (connect settings upstream w).1 ≡ f w
          → f (exchange settings req upstream w).1 ≡ f w
      unfolding exchange relay_response
      Fixes-exchange_from w k =
          let sending : Io (Unit {0}) =
            wait_for settings.timeout_policy.write_ms (write_to_upstream req) in
          let relaying : Io Progress = relay_response settings req upstream in
          let ending : Progress → Io (Option (ℤ × ℕ)) =
            λ p. client_drain >>= λ z. pure (finished p) in
          resume-Fixes f (connect settings upstream w).0 (connect settings upstream w).1
            (λ z. sending >>= λ z. relaying >>= ending)
            (λ z.
              Fixes->>= f sending (λ z. relaying >>= ending)
                (Fixes-wait_for f h.aloof.timeless settings.timeout_policy.write_ms
                  (write_to_upstream req) (Fixes-write_to_upstream f h.aloof req))
                (λ z.
                  Fixes->>= f relaying ending
                    (λ w.
                      Fixes-relay (suc (length (content w.upstream_in))) settings.timeout_policy
                        upstream begin w)
                    (λ p.
                      Fixes->>= f client_drain (λ z. pure (finished p))
                        (Fixes-client_drain_aloof f h.aloof) (λ z w. refl))))
          ∙ k

  pub Fixes-close_if_connected_apart : Fixes f close_if_connected
  unfolding close_if_connected
  Fixes-close_if_connected_apart w =
      Fixes-if f w.connected _ (pure tt) (Fixes-close_upstream_aloof f h.aloof) (λ v. refl) w

pub Fixes-exchange :
    {X : Type 0} (f : World → X)
    → IsApart f
    → ⦃u : Unicode⦄ (settings : Settings) (req : HttpRequest) (upstream : Upstream)
    → Fixes f (exchange settings req upstream)
Fixes-exchange f h settings req upstream w =
    Fixes-exchange_from f (IsApart-IsBeside f h) settings req upstream w (
      Fixes-connect_from f (IsApart-IsBeside f h) settings upstream w
        (Fixes-open_limited f h.aside settings upstream w))
