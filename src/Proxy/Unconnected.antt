-- ===== src/Proxy/Unconnected.antt =====
-- A request whose upstream cannot be connected to.
pub mod Answer
use mini_nginx.Common.{
  lookup, nat_eq, list_eq, int_eq, pair_eq, ℕ, ◌+◌, ◌<◌, ◌≤◌, ◌≡◌, ◌≢◌, refl, sym, ap, ◌∙◌, subst,
  Bool, true, false, Option, none, some, ℤ, arith, ltb, min, Bool-cases, inl, inr, if◌then◌else◌,
  ◌++◌,
}
use mini_nginx.Python.Text.{Unicode, codes}
use mini_nginx.Python.Utf8.{Bytes}
use mini_nginx.Pool.{Upstream}
use mini_nginx.Proxy.Slots.{get_semaphore-Got}
use mini_nginx.Limits.{upstream_key, HasSlots, Semaphore, acquire, upstream_connection}
use mini_nginx.Metrics.{Metrics, record_timeout_error, record_upstream_error}
use mini_nginx.Net.{
  hang, World, Io, Result, Exception, Scope, ok, raised, timed_out, refused, os_error, cancelled,
  failure, ◌>>=◌, ◌>>◌, catch, finally, after, modify, wait,
}
use mini_nginx.Net.Binds.{>>=-ok, >>=-raised, catch-raised}
use mini_nginx.Net.Prompt.{Later, Later-earlier, wait-within}
use mini_nginx.Http.{HttpRequest, write_to_upstream}
use mini_nginx.Timeouts.{TimeoutPolicy, wait_for, with_connect_timeout, expired_step}
use mini_nginx.Proxy.Connect.{
  Settings, give_back, wait_for_slot, put_semaphore, get_semaphore, enter_slot, leave_slot,
  open_connection, open_limited, count_connect_error, connect,
}
use mini_nginx.Proxy.Deadlines.{outcome, with_connect_timeout-open_connection}
use mini_nginx.Proxy.Exchange.{finished, relay_response, exchange}

-- The exception with which an attempt to connect ends, that takes `d` milliseconds unless the connect
-- timeout passes before: none if it succeeds.
abbrev pub attempt : ℕ → ℕ × Option Exception → Option Exception
attempt limit (d, ends) = if ltb d limit then ends else some timed_out

-- No cancellation.
abbrev pub IsError : Exception → Type 0
IsError e = (s : Scope) → e ≢ cancelled s

-- What has been written, to the upstream and to the client, and the counters.
abbrev pub seen : World → Bytes × Bytes × Metrics
seen w = (w.upstream_out.written, w.client_out.written, w.metrics)

-- What a failed attempt adds to the counters: a timeout is counted in two places.
abbrev pub attempted : Upstream → Exception → Metrics → Metrics
attempted up timed_out m =
    record_upstream_error up.host up.port (codes "timeout")
      (record_timeout_error (codes "connect") m)
attempted up (refused msg) m = m
attempted up (os_error msg) m = m
attempted up (cancelled s) m = m
attempted up (failure msg) m = m

-- The connect timeout passes before the deadline of the request, also after a wait for a slot.
abbrev pub IsEarly : ℕ → World → Type 0
IsEarly limit w = Later (w.now + limit) w.total_deadline

expired_step-IsError :
    (e : Exception) → IsError e → expired_step {A = Unit {0}} (raised e) ≡ raised e
expired_step-IsError timed_out h = refl
expired_step-IsError (refused msg) h = refl
expired_step-IsError (os_error msg) h = refl
expired_step-IsError (cancelled s) h = absurd (h s refl)
expired_step-IsError (failure msg) h = refl

ends-attempt :
    (b : Bool) (ends : Option Exception) (e : Exception)
    → IsError e
    → (if b then ends else some timed_out) ≡ some e
    → (if b then expired_step (outcome ends) else raised timed_out) ≡ raised e
ends-attempt true none e h same = cc
ends-attempt true (some x) e h same =
    let eq : x ≡ e = cc in ap (λ y. expired_step (raised y)) eq ∙ expired_step-IsError e h
ends-attempt false ends e h same = let eq : timed_out ≡ e = cc in ap raised eq

-- An action that raises `e` and leaves alone what is seen.
abbrev pub Raises : {A : Type 0} → Exception → Metrics → Io A → World → Type 0
Raises e m a w =
    (v : World) × (a w ≡ (raised e, v))
    × (seen v ≡ (w.upstream_out.written, w.client_out.written, m))

module _ (settings : Settings) (upstream : Upstream) (e : Exception) (real : IsError e) where
  abbrev limit : ℕ
  limit = settings.timeout_policy.connect_ms

  opening-Raises :
      (w : World)
      → 0 < limit
      → IsEarly limit w
      → attempt limit w.connection ≡ some e
      → Raises e w.metrics (wait_for limit open_connection) w
  opening-Raises w positive early fails =
      let (d, ends) = w.connection in
      (
        record w { now = w.now + min w.connection.0 limit; step_deadline = none },
        with_connect_timeout-open_connection settings.timeout_policy w.connection.0 w.connection.1 w
              refl positive (λ x same. subst (Later (w.now + limit)) same early)
            ∙ ap
                (λ r.
                  (r, record w { now = w.now + min w.connection.0 limit; step_deadline = none }))
                (ends-attempt (ltb w.connection.0 limit) w.connection.1 e real fails),
        refl,
      )

  -- With a slot of the upstream: held at once, or after a wait.
  abbrev Entered : World → Result (Unit {0}) × World → Type 0
  Entered w r =
      (v : World) × (r ≡ (ok tt, v))
      × (seen v ≡ seen w)
      × (v.connection ≡ w.connection)
      × IsEarly limit v

  held_or_waited :
      (granted : Bool) (sem : Semaphore) (w : World)
      → w.step_deadline ≡ none
      → HasSlots w.manager
      → Later (w.now + (w.upstream_slot_wait + limit)) w.total_deadline
      → Entered w ((if granted then modify (put_semaphore upstream sem) else wait_for_slot) w)
  held_or_waited true sem w no_step slots early = (
    put_semaphore upstream sem w,
    refl,
    refl,
    refl,
    Later-earlier (w.now + (w.upstream_slot_wait + limit)) (w.now + limit) w.total_deadline
        (omega arith) early,
  )
  held_or_waited false sem w no_step slots early =
      let d : ℕ = w.upstream_slot_wait in
      (
        record w { now = w.now + d },
        ap (λ some_slot. (if some_slot then wait d else hang) w) slots
            ∙ wait-within d w (subst (Later (w.now + d)) (sym no_step) tt) (
                Later-earlier (w.now + (d + limit)) (w.now + d) w.total_deadline (omega arith)
                  early),
        refl,
        refl,
        Later-earlier (w.now + (d + limit)) (w.now + d + limit) w.total_deadline (omega arith)
            early,
      )

  enter_slot-Entered :
      (w : World)
      → w.step_deadline ≡ none
      → HasSlots w.manager
      → Later (w.now + (w.upstream_slot_wait + limit)) w.total_deadline
      → Entered w (enter_slot upstream w)
  unfolding enter_slot
  enter_slot-Entered w no_step slots early =
      let (sem, d, e) = get_semaphore-Got upstream w slots in
      let x : World = record w { manager = record w.manager { upstream_semaphores = d } } in
      let (v, e', kept, same, soon) =
        held_or_waited (acquire 0 sem).0 (acquire 0 sem).1 x no_step slots early in
      (
        v,
        >>=-ok (get_semaphore upstream)
              (λ s.
                if (acquire 0 s).0
                then modify (put_semaphore upstream (acquire 0 s).1)
                else wait_for_slot)
              w e
            ∙ e',
        kept,
        same,
        soon,
      )

  give_back-seen : (o : Option Semaphore) (w : World) → seen (give_back upstream o w) ≡ seen w
  give_back-seen none w = refl
  give_back-seen (some sem) w = refl

  finally-Raises :
      {A : Type 0} (m : Metrics) (a : Io A) (w : World)
      → Raises e m a w
      → Raises e m (finally a (leave_slot upstream)) w
  unfolding leave_slot
  finally-Raises m a w (v, same, kept) = (
    (leave_slot upstream v).1,
    ap (λ r. after r.0 (leave_slot upstream r.1)) same,
    give_back-seen (lookup (upstream_key upstream) v.manager.upstream_semaphores) v ∙ kept,
  )

  Raises->>= :
      {A B : Type 0} (m : Metrics) (a : Io A) (f : A → Io B) (w : World)
      → Raises e m a w
      → Raises e m (a >>= f) w
  Raises->>= m a f w (v, same, kept) = (v, >>=-raised a f w same, kept)

  limited-Raises :
      (limited : Bool) (w : World)
      → 0 < limit
      → w.step_deadline ≡ none
      → HasSlots w.manager
      → Later (w.now + (w.upstream_slot_wait + limit)) w.total_deadline
      → attempt limit w.connection ≡ some e
      → Raises e w.metrics
          (if limited
            then enter_slot upstream
              >> finally (wait_for limit open_connection) (leave_slot upstream)
            else wait_for limit open_connection)
          w
  limited-Raises false w positive no_step slots early fails =
      opening-Raises w positive
        (Later-earlier (w.now + (w.upstream_slot_wait + limit)) (w.now + limit) w.total_deadline
          (omega arith) early)
        fails
  limited-Raises true w positive no_step slots early fails =
      let opening : Io (Unit {0}) = wait_for limit open_connection in
      let (x, entered, kept, same, soon) = enter_slot-Entered w no_step slots early in
      let (v, raises, shown) =
        finally-Raises x.metrics opening x
          (opening-Raises x positive soon (ap (attempt limit) same ∙ fails)) in
      (
        v,
        >>=-ok (enter_slot upstream) (λ z. finally opening (leave_slot upstream)) w entered
            ∙ raises,
        shown ∙ kept,
      )

  counting-Raises :
      (x : Exception) (v : World)
      → (v' : World) × (count_connect_error upstream x v ≡ (raised x, v'))
        × (seen v' ≡ (v.upstream_out.written, v.client_out.written, attempted upstream x v.metrics))
  unfolding record_timeout_error record_upstream_error
  counting-Raises timed_out v = (_, refl, refl)
  counting-Raises (refused msg) v = (v, refl, refl)
  counting-Raises (os_error msg) v = (v, refl, refl)
  counting-Raises (cancelled s) v = (v, refl, refl)
  counting-Raises (failure msg) v = (v, refl, refl)

  connect-Raises :
      (w : World)
      → 0 < limit
      → w.step_deadline ≡ none
      → HasSlots w.manager
      → Later (w.now + (w.upstream_slot_wait + limit)) w.total_deadline
      → attempt limit w.connection ≡ some e
      → Raises e (attempted upstream e w.metrics) (connect settings upstream) w
  unfolding connect open_limited
  connect-Raises w positive no_step slots early fails =
      let (v, raises, kept) =
        limited-Raises settings.limited w positive no_step slots early fails in
      let (v', counted, shown) = counting-Raises e v in
      (
        v',
        >>=-raised (catch (open_limited settings upstream) (count_connect_error upstream))
            (λ z. modify (λ y. record y { connected = true })) w
            (catch-raised (open_limited settings upstream) (count_connect_error upstream) w raises
              ∙ counted),
        shown ∙ ap (λ s. (s.0, s.1, attempted upstream e s.2)) kept,
      )

  -- The `try` of the proxying ends at the failed attempt to connect.
  pub exchange-Raises :
      ⦃u : Unicode⦄ (req : HttpRequest) (w : World)
      → 0 < limit
      → w.step_deadline ≡ none
      → HasSlots w.manager
      → Later (w.now + (w.upstream_slot_wait + limit)) w.total_deadline
      → attempt limit w.connection ≡ some e
      → Raises e (attempted upstream e w.metrics) (exchange settings req upstream) w
  unfolding exchange
  exchange-Raises req w positive no_step slots early fails =
      Raises->>= (attempted upstream e w.metrics) (connect settings upstream) _ w
        (connect-Raises w positive no_step slots early fails)
