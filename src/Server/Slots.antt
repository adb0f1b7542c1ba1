-- ===== src/Server/Slots.antt =====
-- At the end of a client's connection its slot is given back and its writer is closed.
use mini_nginx.Common.{ℕ, ◌≡◌, refl, ap, ◌∙◌, true, Option, none, some, ℤ}
use mini_nginx.Python.Text.{Text, Unicode}
use mini_nginx.Pool.{Upstream, UpstreamPool, get_next}
use mini_nginx.Limits.{Semaphore, ConnectionLimits, acquire, release}
use mini_nginx.Net.{World, Io, Result, ok, ◌>>=◌, catch, finally, close_client}
use mini_nginx.Net.Binds.{>>=-ok}
use mini_nginx.Net.Frames.{
  close_client-closes, Fixes, Fixes->>=, Fixes-catch, Fixes-suppress, after-world,
}
use mini_nginx.Net.Aloof.{Fixes-close_client_aloof}
use mini_nginx.Http.{HttpRequest}
use mini_nginx.Handler.Parse.{parse_request}
use mini_nginx.Handler.Aloof.{Fixes-parse_request}
use mini_nginx.Timeouts.{TimeoutPolicy}
use mini_nginx.Proxy.Connect.{Settings}
use mini_nginx.Proxy.Exchange.{proxy_to_upstream}
use mini_nginx.Proxy.Giving.{acquire-release}
use mini_nginx.Proxy.Untouched.{IsUntouched, Fixes-proxy_to_upstream}
use mini_nginx.Server.{
  enter_client, leave_client, with_pool, next_upstream, start_request, finish_request, on_exception,
  serve_request, serve, client_connected,
}

-- The clients' semaphore.
abbrev slots : World → Semaphore
slots w = w.manager.client_semaphore

-- It and the limits.
abbrev held : World → Semaphore × ConnectionLimits
held w = (w.manager.client_semaphore, w.manager.limits)

held-IsUntouched : IsUntouched held
held-IsUntouched = record {
  apart = record {
    aloof = record {
      timeless = λ w t s d. refl;
      from_client = λ w r. refl;
      to_client = λ w o. refl;
      from_upstream = λ w r. refl;
      to_upstream = λ w o. refl;
    };
    aside = record {
      timeless = λ w t s d. refl;
      limitless = λ w x s. refl;
      unmanaged = λ w x. refl;
    };
    linked = λ w b. refl;
    errors = λ w host port kind. refl;
    timeouts = λ w kind. refl;
  };
  statuses = λ w status. refl;
}

Fixes-with_pool : (o : Option (Upstream × UpstreamPool)) → Fixes held (with_pool o)
Fixes-with_pool none w = refl
Fixes-with_pool (some (upstream, pool')) w = refl

Fixes-next_upstream : Fixes held next_upstream
unfolding next_upstream
Fixes-next_upstream w = Fixes-with_pool (get_next w.pool) w

Fixes-finish_request :
    (start_time : ℕ) (upstream : Upstream) (o : Option (ℤ × ℕ))
    → Fixes held (finish_request start_time upstream o)
unfolding finish_request
Fixes-finish_request start_time upstream none w = refl
Fixes-finish_request start_time upstream (some (status, size)) w = refl

module _ ⦃u : Unicode⦄ where
  Fixes-serve_request :
      (settings : Settings) (o : Option HttpRequest) → Fixes held (serve_request settings o)
  unfolding serve_request start_request
  Fixes-serve_request settings none = λ w. refl
  Fixes-serve_request settings (some req) =
      Fixes->>= held start_request
        (λ t. next_upstream >>= λ x. proxy_to_upstream settings req x >>= finish_request t x)
        (λ w. refl)
        (λ t.
          Fixes->>= held next_upstream
            (λ x. proxy_to_upstream settings req x >>= finish_request t x) Fixes-next_upstream
            (λ x.
              Fixes->>= held (proxy_to_upstream settings req x) (finish_request t x)
                (Fixes-proxy_to_upstream held held-IsUntouched settings req x)
                (Fixes-finish_request t x)))

  Fixes-serve : (settings : Settings) → Fixes held (serve settings)
  unfolding serve
  Fixes-serve settings =
      Fixes->>= held (parse_request settings.trace_id) (serve_request settings)
        (Fixes-parse_request held held-IsUntouched.apart.aloof settings.trace_id)
        (Fixes-serve_request settings)

-- Entering when a slot is free takes it at once.
pub enter_client-granted :
    (w : World)
    → (acquire 0 (slots w)).0 ≡ true
    → enter_client w ≡ (
      ok tt,
      record w { manager = record w.manager { client_semaphore = (acquire 0 (slots w)).1 } },
    )
unfolding enter_client
enter_client-granted w granted = rw granted

module _ ⦃u : Unicode⦄ (policy : TimeoutPolicy) (trace_id : Text) where
  abbrev settings : Settings
  settings = record { timeout_policy = policy; limited = true; trace_id = trace_id }

  abbrev inside : Io (Unit {0})
  inside = catch (serve settings) on_exception

  -- The connection behind a slot that has been entered.
  pub after_entry :
      (w v : World)
      → enter_client w ≡ (ok tt, v)
      → (client_connected (some policy) trace_id w).1
        ≡ (leave_client (close_client (inside v).1).1).1
  unfolding client_connected leave_client
  after_entry w v entered =
      let closing : Result (Unit {0}) × World = close_client (inside v).1 in
      ap (λ p. p.1)
        (>>=-ok enter_client (λ z. finally (finally inside close_client) leave_client) w entered)
      ∙ ap (λ x. (leave_client x).1) (after-world (λ x. x) (inside v).0 closing.0 closing.1)

  -- A connection that has been given a slot ends with its writer closed, whatever happened to the
  -- request.
  pub client_connected-closes :
      (w v : World)
      → enter_client w ≡ (ok tt, v)
      → (client_connected (some policy) trace_id w).1.client_out.closed ≡ true
  unfolding leave_client
  client_connected-closes w v entered =
      ap (λ (x : World). x.client_out.closed) (after_entry w v entered)
      ∙ close_client-closes (inside v).1

  keeps : (v : World) → held (close_client (inside v).1).1 ≡ held v
  keeps v =
      Fixes-close_client_aloof held held-IsUntouched.apart.aloof (inside v).1
      ∙ Fixes-catch held (serve settings) on_exception (Fixes-serve settings) (Fixes-suppress held)
          v

  -- A connection that finds a free slot gives it back at its end, whatever happened to the request:
  -- the clients' semaphore is then as it was before.
  pub client_connected-restores :
      (w : World)
      → (acquire 0 w.manager.client_semaphore).0 ≡ true
      → (client_connected (some policy) trace_id w).1.manager.client_semaphore
        ≡ w.manager.client_semaphore
  unfolding leave_client
  client_connected-restores w granted =
      let entered = enter_client-granted w granted in
      let v : World = record w {
        manager = record w.manager { client_semaphore = (acquire 0 (slots w)).1 };
      } in
      let kept : held (close_client (inside v).1).1 ≡ held v = keeps v in
      ap slots (after_entry w v entered)
      ∙ ap (λ p. (release p.0).1) kept
      ∙ acquire-release (slots w) granted

  -- Its limits are the same.
  pub client_connected-limits :
      (w : World)
      → (acquire 0 w.manager.client_semaphore).0 ≡ true
      → (client_connected (some policy) trace_id w).1.manager.limits ≡ w.manager.limits
  unfolding leave_client
  client_connected-limits w granted =
      let v : World = record w {
        manager = record w.manager { client_semaphore = (acquire 0 (slots w)).1 };
      } in
      ap (λ (x : World). x.manager.limits) (after_entry w v (enter_client-granted w granted))
      ∙ ap (λ p. p.1) (keeps v)
