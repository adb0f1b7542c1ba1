-- ===== src/Proxy/InTime.antt =====
-- What a request waits for comes before its timeouts.
pub mod Connecting
use mini_nginx.Common.{
  ℕ, zero, suc, ◌+◌, ◌<◌, ◌≡◌, ◌≢◌, refl, sym, ap, ◌∙◌, Bool, true, false, Option, none, some, [],
  ◌∷◌, arith, length, length-append, if◌then◌else◌, ℤ, nat_beq,
}
use mini_nginx.Python.Text.{Unicode}
use mini_nginx.Python.Utf8.{Bytes}
use mini_nginx.Pool.{Upstream}
use mini_nginx.Limits.{Semaphore, acquire, upstream_connection}
use mini_nginx.Net.{
  World, Io, ok, raised, timed_out, ◌>>=◌, ◌>>◌, pure, modify, catch, finally, after, wait,
  ends_with, upstream_read, client_write, client_drain, close_upstream,
}
use mini_nginx.Net.Binds.{>>=-ok, catch-ok}
use mini_nginx.Net.Frames.{Fixes-client_drain}
use mini_nginx.Net.Reading.{content}
use mini_nginx.Net.Prompt.{
  Delays, IsPrompt, IsPrompt-less, Succeeds, Succeeds->>=, wait-keeps, wait-Succeeds, in_time,
  pending,
}
use mini_nginx.Net.Prompt.Streams.{
  upstream_read-Succeeds, client_drain-Succeeds, close_upstream-Succeeds,
}
use mini_nginx.Http.{HttpRequest, write_to_upstream}
use mini_nginx.Http.Prompt.{write_to_upstream-Succeeds, some-length}
use mini_nginx.Timeouts.{TimeoutPolicy, wait_for, wait_for_total, expired_step, expired_total}
use mini_nginx.Proxy.Connect.{
  Settings, put_semaphore, get_semaphore, enter_slot, leave_slot, open_connection, open_limited,
  count_connect_error, connect,
}
use mini_nginx.Proxy.Relay.{
  Progress, begin, advance, count_read_error, read_chunk, relay_chunk, relay,
}
use mini_nginx.Proxy.Response.{read_chunk-Received}
use mini_nginx.Proxy.Counting.{exchange-ne-none}
use mini_nginx.Proxy.Success.{Exchanged, proxy_to_upstream-Exchanged}
use mini_nginx.Proxy.Exchange.{
  on_error, finished, close_if_connected, relay_response, exchange, proxy_internal,
  proxy_to_upstream,
}

-- Every timeout is longer than all delays together.
pub record IsLonger (t : Delays) (policy : TimeoutPolicy) : Type 0 where
  pub connecting : t.slack < policy.connect_ms
  pub reading : t.slack < policy.read_ms
  pub writing : t.slack < policy.write_ms
  pub whole : t.slack < policy.total_ms

-- The action succeeds with a result for which `P` holds.
abbrev pub Yields : {A : Type 0} → Delays → ℕ → (A → Type 0) → Io A → World → Type 0
Yields {A = A} t b P m w = (a : A) × P a × (w' : World) × (m w ≡ (ok a, w')) × IsPrompt t b w'

module _ (t : Delays) (left later : ℕ) {A : Type 0} (limit : ℕ) (m : Io A) (w : World)
    (longer : t.slack < limit) (p : IsPrompt t left w) where
  some_time : nat_beq limit 0 ≡ false
  some_time = ground arith

  pub wait_for-Succeeds :
      ((v : World)
        → content v.upstream_in ≡ content w.upstream_in
        → IsPrompt t left v
        → Succeeds t later m v)
      → Succeeds t later (wait_for limit m) w
  unfolding wait_for
  wait_for-Succeeds inner =
      let armed : World = record w { step_deadline = some (w.now + limit) } in
      let (a, v, e, q) =
        inner armed refl (omega (arith, p.9), p.1, p.2, p.3, p.4, p.5, p.6, p.7, p.8, p.9) in
      (
        a,
        record v { step_deadline = none },
        ap
              (λ b.
                if b
                then (raised timed_out, w)
                else (expired_step (m armed).0, record (m armed).1 { step_deadline = none }))
              some_time
            ∙ ap (λ r. (expired_step r.0, record r.1 { step_deadline = none })) e,
        (tt, q.1, q.2, q.3, q.4, q.5, q.6, q.7, q.8, q.9),
      )

  pub wait_for_total-Yields :
      (P : A → Type 0)
      → ((v : World) → IsPrompt t left v → Yields t later P m v)
      → Yields t later P (wait_for_total limit m) w
  unfolding wait_for_total
  wait_for_total-Yields P inner =
      let armed : World = record w { total_deadline = some (w.now + limit) } in
      let (a, good, v, e, q) =
        inner armed (p.0, omega (arith, p.9), p.2, p.3, p.4, p.5, p.6, p.7, p.8, p.9) in
      (
        a,
        good,
        record v { total_deadline = none },
        ap
              (λ b.
                if b
                then (raised timed_out, w)
                else (expired_total (m armed).0, record (m armed).1 { total_deadline = none }))
              some_time
            ∙ ap (λ r. (expired_total r.0, record r.1 { total_deadline = none })) e,
        (q.0, tt, q.2, q.3, q.4, q.5, q.6, q.7, q.8, q.9),
      )

pub open_connection-Succeeds :
    (t : Delays) (b : ℕ) (w : World)
    → IsPrompt t (t.connecting + b) w
    → Succeeds t b open_connection w
unfolding open_connection
open_connection-Succeeds t b w p =
    let (e, q) = wait-keeps t t.connecting b w p in
    (
      tt,
      record w { now = w.now + t.connecting },
      ap (λ c. (wait c.0 >> ends_with c.1) w) p.6
          ∙ >>=-ok (wait t.connecting) (λ x. ends_with none) w e,
      q,
    )

pub finally-Yields :
    (t : Delays) (b c : ℕ) {A : Type 0} (P : A → Type 0) (m : Io A) (f : Io (Unit {0})) (w : World)
    → Yields t b P m w
    → ((v : World) → IsPrompt t b v → Succeeds t c f v)
    → Yields t c P (finally m f) w
finally-Yields t b c P m f w (a, good, v, e, p) cleanup =
    let (z, v', e', p') = cleanup v p in
    (a, good, v', ap (λ r. after r.0 (f r.1)) e ∙ ap (after (ok a)) e', p')

pub finally-Succeeds :
    (t : Delays) (b c : ℕ) {A : Type 0} (m : Io A) (f : Io (Unit {0})) (w : World)
    → Succeeds t b m w
    → ((v : World) → IsPrompt t b v → Succeeds t c f v)
    → Succeeds t c (finally m f) w
finally-Succeeds t b c m f w (a, v, e, p) cleanup =
    let (x, good, v', e', p') =
      finally-Yields t b c (λ x. Unit {0}) m f w (a, tt, v, e, p) cleanup in
    (x, v', e', p')
