-- ===== src/Server/Restoring.antt =====
-- No slot is lost, whatever becomes of the connections.
use mini_nginx.Common.{
  ℕ, ◌≡◌, refl, ap, ◌∙◌, true, Option, none, some, sym, List, [], ◌∷◌, ℤ, nat_eq, list_eq, int_eq,
  pair_eq,
}
use mini_nginx.Python.Text.{Text, Unicode}
use mini_nginx.Pool.{Upstream, UpstreamPool, get_next}
use mini_nginx.Limits.{release, Semaphore, ConnectionLimitManager, acquire, upstream_connection}
use mini_nginx.Limits.Semaphores.{
  first, semaphore_of, IsFree, IsSame, semaphore_of-client, semaphore_of-upstream_connection,
}
use mini_nginx.Limits.Manager.{Outcome, returns, refuses, upstream_connection-Returns}
use mini_nginx.Net.{World, Io, Result, ok, raised, resume, ◌>>=◌, catch, close_client}
use mini_nginx.Net.Frames.{Fixes, resume-Fixes, handle-Fixes, Fixes-suppress}
use mini_nginx.Net.Aloof.{IsAloof, Fixes-close_client_aloof}
use mini_nginx.Http.{HttpRequest}
use mini_nginx.Handler.Parse.{parse_request}
use mini_nginx.Handler.Aloof.{Fixes-parse_request}
use mini_nginx.Timeouts.{TimeoutPolicy}
use mini_nginx.Proxy.Connect.{open_limited, Settings}
use mini_nginx.Proxy.Giving.{open_limited-restores, open_limited-refused}
use mini_nginx.Proxy.Aloof.{Fixes-connect_from}
use mini_nginx.Proxy.Untouched.{IsUncounted, Fixes-proxy_to_upstream_from}
use mini_nginx.Proxy.Exchange.{proxy_to_upstream}
use mini_nginx.Server.{
  leave_client, with_pool, start_request, finish_request, next_upstream, on_exception,
  serve_request, serve, client_connected,
}
use mini_nginx.Server.Slots.{enter_client-granted, after_entry, client_connected-restores}
use mini_nginx.Server.Spread.{Client, arrive, after_client, serve_clients}

-- The semaphore of one upstream, and what leaves it alone.
abbrev slot_of : Upstream → World → Option Semaphore
slot_of upstream w = semaphore_of upstream w.manager

slot_of-IsAloof : (v : Upstream) → IsAloof (slot_of v)
slot_of-IsAloof v = record {
  timeless = λ w t s d. refl;
  from_client = λ w r. refl;
  to_client = λ w o. refl;
  from_upstream = λ w r. refl;
  to_upstream = λ w o. refl;
}

slot_of-IsUncounted : (v : Upstream) → IsUncounted (slot_of v)
slot_of-IsUncounted v = record {
  apart = record {
    aloof = slot_of-IsAloof v;
    linked = λ w b. refl;
    errors = λ w host port kind. refl;
    timeouts = λ w kind. refl;
  };
  statuses = λ w status. refl;
}

Fixes-finish_request_slot :
    (v : Upstream) (start_time : ℕ) (upstream : Upstream) (o : Option (ℤ × ℕ))
    → Fixes (slot_of v) (finish_request start_time upstream o)
unfolding finish_request
Fixes-finish_request_slot v start_time upstream none w = refl
Fixes-finish_request_slot v start_time upstream (some (status, size)) w = refl

-- Where every slot of an upstream is free at once.
abbrev AreFree : World → Type 0
AreFree w =
    (upstream : Upstream) (sem : Semaphore)
    → slot_of upstream w ≡ some sem
    → (acquire 0 sem).0 ≡ true

resume-at :
    {X A B : Type 0} (f : World → X) (r : Result A) (v : World) (k : A → Io B)
    → ((a : A) → f (k a v).1 ≡ f v)
    → f (resume (r, v) k).1 ≡ f v
resume-at f (ok a) v k h = h a
resume-at f (raised e) v k h = refl

first-some :
    (sem : Semaphore) (m : ConnectionLimitManager) (o : Option (Semaphore × ConnectionLimitManager))
    → o ≡ some (sem, m)
    → first o ≡ some sem
first-some sem m o e = ap first e

-- The attempt to connect, with its slot or without one.
open_limited-slots :
    (settings : Settings) (v upstream : Upstream) (w : World)
    → settings.limited ≡ true
    → AreFree w
    → Outcome upstream w.manager
    → slot_of v (open_limited settings upstream w).1 ≡ slot_of v w
open_limited-slots settings v upstream w limited free (returns sem m e r) =
    ap (semaphore_of v) (
      open_limited-restores settings upstream limited w sem m e
        (free upstream sem (first-some sem m (upstream_connection upstream w.manager) e)))
    ∙ semaphore_of-upstream_connection upstream v w.manager sem m e
open_limited-slots settings v upstream w limited free (refuses n e missing limit) =
    ap (λ p. slot_of v p.1) (open_limited-refused settings upstream limited w e)

module _ ⦃u : Unicode⦄ (settings : Settings) (limited : settings.limited ≡ true)
    (v : Upstream) where
  proxy_to_upstream-slots :
      (req : HttpRequest) (upstream : Upstream) (w : World)
      → AreFree w
      → slot_of v (proxy_to_upstream settings req upstream w).1 ≡ slot_of v w
  proxy_to_upstream-slots req upstream w free =
      Fixes-proxy_to_upstream_from (slot_of v) (slot_of-IsUncounted v) settings req upstream w
        (λ limit.
          let armed : World = record w { total_deadline = limit } in
          Fixes-connect_from (slot_of v) (slot_of-IsUncounted v).apart settings upstream armed (
            open_limited-slots settings v upstream armed limited free
              (upstream_connection-Returns upstream w.manager)))

  turn-slots :
      (o : Option (Upstream × UpstreamPool)) (start_time : ℕ) (req : HttpRequest) (w : World)
      → AreFree w
      → slot_of v
          (resume
            (with_pool o w)
            (λ x. proxy_to_upstream settings req x >>= finish_request start_time x)).1
        ≡ slot_of v w
  turn-slots none start_time req w free = refl
  turn-slots (some (upstream, pool')) start_time req w free =
      let chosen : World = record w { pool = pool' } in
      let proxied : Result (Option (ℤ × ℕ)) × World =
        proxy_to_upstream settings req upstream chosen in
      resume-Fixes (slot_of v) proxied.0 proxied.1 (finish_request start_time upstream)
        (Fixes-finish_request_slot v start_time upstream)
      ∙ proxy_to_upstream-slots req upstream chosen free

  serve_request-slots :
      (o : Option HttpRequest) (w : World)
      → AreFree w
      → slot_of v (serve_request settings o w).1 ≡ slot_of v w
  unfolding serve_request start_request next_upstream
  serve_request-slots none w free = refl
  serve_request-slots (some req) w free =
      turn-slots (get_next w.pool) w.now req (start_request w).1 free

  serve-slots : (w : World) → AreFree w → slot_of v (serve settings w).1 ≡ slot_of v w
  unfolding serve
  serve-slots w free =
      let read : Result (Option HttpRequest) × World = parse_request settings.trace_id w in
      let same : (other : Upstream) → slot_of other read.1 ≡ slot_of other w =
        λ other. Fixes-parse_request (slot_of other) (slot_of-IsAloof other) settings.trace_id w in
      resume-at (slot_of v) read.0 read.1 (serve_request settings)
        (λ o. serve_request-slots o read.1 (λ other sem e. free other sem (sym (same other) ∙ e)))
      ∙ same v

module _ ⦃u : Unicode⦄ (policy : TimeoutPolicy) where
  -- A connection that comes while every slot is free leaves every semaphore as it was, whatever its
  -- client and its upstream do.
  client_connected-IsSame :
      (trace_id : Text) (w : World)
      → IsFree w.manager
      → IsSame w.manager (client_connected (some policy) trace_id w).1.manager
  unfolding leave_client
  client_connected-IsSame trace_id w free =
      let settings : Settings = record {
        timeout_policy = policy;
        limited = true;
        trace_id = trace_id;
      } in
      let v : World = record w {
        manager = record w.manager { client_semaphore = (acquire 0 w.manager.client_semaphore).1 };
      } in
      let inside : Io (Unit {0}) = catch (serve settings) on_exception in
      let ended : World = (close_client (inside v).1).1 in
      let apart : (upstream : Upstream) → slot_of upstream v ≡ slot_of upstream w = λ upstream.
        semaphore_of-client upstream w.manager (acquire 0 w.manager.client_semaphore).1 in
      record {
        clients = client_connected-restores policy trace_id w free.clients;
        upstreams = λ upstream.
            ap (slot_of upstream)
              (after_entry policy trace_id w v (enter_client-granted w free.clients))
            ∙ semaphore_of-client upstream ended.manager (release ended.manager.client_semaphore).1
            ∙ Fixes-close_client_aloof (slot_of upstream) (slot_of-IsAloof upstream) (inside v).1
            ∙ handle-Fixes (slot_of upstream) (serve settings v).0 (serve settings v).1 on_exception
                (Fixes-suppress (slot_of upstream))
            ∙ serve-slots settings refl upstream v
                (λ other sem e. free.upstreams other sem (sym (apart other) ∙ e))
            ∙ apart upstream;
      }

  -- However many clients come, one after another, and whatever they, the upstreams and the network do
  -- (requests that cannot be read, failed connections, timeouts, streams that break, cancellations),
  -- no slot is lost: where each semaphore had a free slot at first, the semaphore of the clients and
  -- the one of each upstream are at the end as they were; an upstream whose limit is negative has none
  -- before and after.
  pub serve_clients-IsSame :
      (cs : List Client) (w : World)
      → IsFree w.manager
      → IsSame w.manager (serve_clients policy cs w).manager
  serve_clients-IsSame [] w free = record { clients = refl; upstreams = λ upstream. refl }
  serve_clients-IsSame (c ∷ cs) w free =
      let one = client_connected-IsSame c.trace_id (arrive c w) free in
      let rest = serve_clients-IsSame cs (after_client policy c w) (record {
        clients = ap (λ s. (acquire 0 s).0) one.clients ∙ free.clients;
        upstreams =
            λ upstream sem e. free.upstreams upstream sem (sym (one.upstreams upstream) ∙ e);
      }) in
      record {
        clients = rest.clients ∙ one.clients;
        upstreams = λ upstream. rest.upstreams upstream ∙ one.upstreams upstream;
      }
