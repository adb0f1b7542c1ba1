-- ===== src/Proxy/Slots.antt =====
-- Connecting: what it leaves alone, and that the upstream's slot is given back.
use mini_nginx.Common.{
  zero, suc, Option, none, some, ℤ, pos, negsuc, Dict, lookup, nat_eq, list_eq, int_eq, pair_eq, ℕ,
  ◌≡◌, ◌≢◌, refl, sym, ap, ◌∙◌, true, if◌then◌else◌,
}
use mini_nginx.Python.Text.{Text}
use mini_nginx.Pool.{Upstream, UpstreamPool}
use mini_nginx.Limits.{
  acquire, release, Semaphore, semaphore, new_semaphore, got, upstream_key, upstream_connection,
  has_slots, HasSlots,
}
use mini_nginx.Metrics.{Metrics}
use mini_nginx.Net.{
  World, Result, Reader, Writer, ok, hang, Exception, timed_out, refused, os_error, cancelled,
  failure, ◌>>◌, wait, ends_with, modify, catch, finally,
}
use mini_nginx.Net.Binds.{>>=-eq-ok, catch-eq-ok}
use mini_nginx.Net.Frames.{
  Fixes, IsTimeless, Fixes->>=, Fixes-finally, Fixes-if, Fixes-ends_with, Fixes-wait, Fixes-hang,
}
use mini_nginx.Timeouts.{wait_for}
use mini_nginx.Timeouts.Laws.{Fixes-wait_for}
use mini_nginx.Proxy.Connect.{
  Settings, put_semaphore, with_semaphore, get_semaphore, wait_for_slot, give_back, enter_slot,
  leave_slot, open_connection, open_limited, count_connect_error, connect,
}

-- `f` shows nothing of the clock, the deadlines and the limits.
pub record IsAside {X : Type 0} (f : World → X) : Type 0 where
  pub timeless : IsTimeless f
  pub limitless :
      (w : World) (upstream : Upstream) (sem : Semaphore) → f (put_semaphore upstream sem w) ≡ f w
  pub unmanaged :
      (w : World) (d : Dict (Text × ℤ) Semaphore)
      → f (record w { manager = record w.manager { upstream_semaphores = d } }) ≡ f w

pub Fixes-open_connection : {X : Type 0} (f : World → X) → IsTimeless f → Fixes f open_connection
unfolding open_connection
Fixes-open_connection f timeless w =
    Fixes->>= f (wait w.connection.0) (λ x. ends_with w.connection.1)
      (Fixes-wait f timeless w.connection.0) (λ x. Fixes-ends_with f w.connection.1) w

-- A semaphore that is got changes nothing but the dict.
abbrev pub Got : Result Semaphore × World → World → Type 0
Got r w =
    (sem : Semaphore) × (d : Dict (Text × ℤ) Semaphore) × (r
      ≡ (ok sem, record w { manager = record w.manager { upstream_semaphores = d } }))

some_made : (z : ℤ) → has_slots z ≡ true → (sem : Semaphore) × (new_semaphore z ≡ some sem)
some_made (pos zero) h = cc
some_made (pos (suc n)) h = (semaphore (suc n), refl)
some_made (negsuc n) h = cc

with_semaphore-Got :
    (upstream : Upstream) (known made : Option Semaphore) (w : World)
    → ((sem : Semaphore) × (made ≡ some sem))
    → Got (with_semaphore (got upstream w.manager known made) w) w
with_semaphore-Got upstream (some sem) made w h = (sem, w.manager.upstream_semaphores, refl)
with_semaphore-Got upstream none none w (sem, e) = absurd (let bad : none ≡ some sem = e in cc)
with_semaphore-Got upstream none (some sem) w h = (sem, _, refl)

pub get_semaphore-Got :
    (upstream : Upstream) (w : World) → HasSlots w.manager → Got (get_semaphore upstream w) w
unfolding upstream_connection
get_semaphore-Got upstream w h =
    with_semaphore-Got upstream (lookup (upstream_key upstream) w.manager.upstream_semaphores)
      (new_semaphore w.manager.limits.max_conns_per_upstream) w
      (some_made w.manager.limits.max_conns_per_upstream h)

module _ {X : Type 0} (f : World → X) (h : IsAside f) where
  with_semaphore-fixes :
      (upstream : Upstream) (known made : Option Semaphore) (w : World)
      → f (with_semaphore (got upstream w.manager known made) w).1 ≡ f w
  with_semaphore-fixes upstream (some sem) made w = refl
  with_semaphore-fixes upstream none none w = refl
  with_semaphore-fixes upstream none (some sem) w = h.unmanaged w _

  Fixes-get_semaphore : (upstream : Upstream) → Fixes f (get_semaphore upstream)
  unfolding upstream_connection
  Fixes-get_semaphore upstream w =
      with_semaphore-fixes upstream (lookup (upstream_key upstream) w.manager.upstream_semaphores)
        (new_semaphore w.manager.limits.max_conns_per_upstream) w

  Fixes-wait_for_slot : Fixes f wait_for_slot
  Fixes-wait_for_slot w =
      Fixes-if f (has_slots w.manager.limits.max_conns_per_upstream) (wait w.upstream_slot_wait)
        hang (Fixes-wait f h.timeless w.upstream_slot_wait) (Fixes-hang f h.timeless) w

  Fixes-enter_slot : (upstream : Upstream) → Fixes f (enter_slot upstream)
  unfolding enter_slot
  Fixes-enter_slot upstream =
      Fixes->>= f (get_semaphore upstream)
        (λ sem.
          if (acquire 0 sem).0
          then modify (put_semaphore upstream (acquire 0 sem).1)
          else wait_for_slot)
        (Fixes-get_semaphore upstream)
        (λ sem.
          Fixes-if f (acquire 0 sem).0 (modify (put_semaphore upstream (acquire 0 sem).1))
            wait_for_slot (λ w. h.limitless w upstream (acquire 0 sem).1) Fixes-wait_for_slot)

  give_back-fixes :
      (upstream : Upstream) (o : Option Semaphore) (w : World) → f (give_back upstream o w) ≡ f w
  give_back-fixes upstream none w = refl
  give_back-fixes upstream (some sem) w = h.limitless w upstream (release sem).1

  Fixes-leave_slot : (upstream : Upstream) → Fixes f (leave_slot upstream)
  unfolding leave_slot
  Fixes-leave_slot upstream w =
      give_back-fixes upstream (lookup (upstream_key upstream) w.manager.upstream_semaphores) w

  pub Fixes-open_limited :
      (settings : Settings) (upstream : Upstream) → Fixes f (open_limited settings upstream)
  unfolding open_limited
  Fixes-open_limited settings upstream =
      let limit : ℕ = settings.timeout_policy.connect_ms in
      let opening : Fixes f (wait_for limit open_connection) =
        Fixes-wait_for f h.timeless limit open_connection (Fixes-open_connection f h.timeless) in
      Fixes-if f settings.limited
        (enter_slot upstream >> finally (wait_for limit open_connection) (leave_slot upstream))
        (wait_for limit open_connection)
        (Fixes->>= f (enter_slot upstream)
          (λ x. finally (wait_for limit open_connection) (leave_slot upstream))
          (Fixes-enter_slot upstream)
          (λ x.
            Fixes-finally f (wait_for limit open_connection) (leave_slot upstream) opening
              (Fixes-leave_slot upstream)))
        opening

count_connect_error-raises :
    (upstream : Upstream) (e : Exception) (v : World) → (count_connect_error upstream e v).0 ≢ ok tt
count_connect_error-raises upstream timed_out v h = cc
count_connect_error-raises upstream (refused m) v h = cc
count_connect_error-raises upstream (os_error m) v h = cc
count_connect_error-raises upstream (cancelled s) v h = cc
count_connect_error-raises upstream (failure m) v h = cc

-- What connecting leaves alone.
abbrev pub streams : World → Reader × Writer × Reader × Writer × Metrics × UpstreamPool
streams w = (w.client_in, w.client_out, w.upstream_in, w.upstream_out, w.metrics, w.pool)

streams-IsAside : IsAside streams
streams-IsAside = record {
  timeless = λ w t s d. refl;
  limitless = λ w u s. refl;
  unmanaged = λ w u. refl;
}

-- A connection that is made has changed none of these.
pub connect-ok :
    (settings : Settings) (upstream : Upstream) (w w' : World)
    → connect settings upstream w ≡ (ok tt, w')
    → (streams w' ≡ streams w) × (w'.connected ≡ true)
unfolding connect
connect-ok settings upstream w w' e =
    let (z, v, opened, later) =
      >>=-eq-ok (catch (open_limited settings upstream) (count_connect_error upstream))
        (λ x. modify (λ y. record y { connected = true })) w e in
    let plain =
      catch-eq-ok (open_limited settings upstream) (count_connect_error upstream) w
        (count_connect_error-raises upstream) opened in
    let same : streams v ≡ streams w =
      sym (ap (λ p. streams p.1) plain)
      ∙ Fixes-open_limited streams streams-IsAside settings upstream w in
    let ended : w' ≡ record v { connected = true } = cc later in
    (ap streams ended ∙ same, ap (λ (x : World). x.connected) ended)
