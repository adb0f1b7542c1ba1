-- ===== src/Server/Spread.antt =====
-- Clients that come one after another, and how their requests are spread over the upstreams.
use mini_nginx.Common.{
  ℕ, suc, ◌+◌, ◌*◌, ◌≤◌, ◌≡◌, refl, sym, ap, ◌∙◌, subst, true, false, Option, none, some, List, [],
  ◌∷◌, length, arith, nat_eq, list_eq, get_or, All, >>=-eq-some,
}
use mini_nginx.Python.Text.{Text, Unicode}
use mini_nginx.Python.Utf8.{Bytes}
use mini_nginx.Pool.{Upstream, UpstreamPool, create, get_next, picks}
use mini_nginx.Pool.Fairness.{repeat, create-picks}
use mini_nginx.Limits.{acquire, has_slots, HasSlots}
use mini_nginx.Metrics.ByUpstream.{times, bump_all, get_or-bump_all, times-repeat}
use mini_nginx.Net.{World, Reader, Writer, Exception}
use mini_nginx.Net.Reading.{content, IsIntactFrom}
use mini_nginx.Net.Prompt.{Delays, IsPrompt, Flows, delays}
use mini_nginx.Http.{HttpRequest}
use mini_nginx.Handler.Results.{parse_bytes}
use mini_nginx.Timeouts.{TimeoutPolicy}
use mini_nginx.Proxy.InTime.{IsLonger}
use mini_nginx.Server.{client_connected}
use mini_nginx.Server.Slots.{client_connected-limits}
use mini_nginx.Server.Whole.{Delivered, waits, client_connected-Delivered}

-- A client with its streams, and those of the connection that is opened for it.
pub record Client : Type 0 where
  pub client_in : Reader
  pub client_out : Writer
  pub connection : ℕ × Option Exception
  pub upstream_in : Reader
  pub upstream_out : Writer
  pub upstream_slot_wait : ℕ
  pub trace_id : Text

-- A client that comes to a program that is serving nobody.
abbrev pub arrive : Client → World → World
arrive c w = record w {
  step_deadline = none;
  total_deadline = none;
  client_in = c.client_in;
  client_out = c.client_out;
  connection = c.connection;
  upstream_in = c.upstream_in;
  upstream_out = c.upstream_out;
  connected = false;
  upstream_slot_wait = c.upstream_slot_wait;
}

-- A client that sends a request, on a network where nothing breaks, and whose delays are together
-- less than `t.slack`.
pub record IsServable ⦃u : Unicode⦄ (t : Delays) (c : Client) : Type 0 where
  pub request : HttpRequest
  pub read : (parse_bytes c.trace_id (content c.client_in)).0 ≡ some request
  pub from_client : IsIntactFrom c.client_in.arrivals
  pub from_upstream : IsIntactFrom c.upstream_in.arrivals
  pub to_client : Flows c.client_out.drains
  pub to_upstream : Flows c.upstream_out.drains
  pub connecting : c.connection ≡ (t.connecting, none)
  pub closing : c.upstream_out.closing ≡ (t.closing, none)
  pub slot : c.upstream_slot_wait ≡ t.slot
  pub slack :
      waits t
        + (delays c.client_in.arrivals
            + delays c.upstream_in.arrivals
            + delays c.client_out.drains
            + delays c.upstream_out.drains)
      ≤ t.slack

arrive-IsPrompt :
    ⦃u : Unicode⦄ (t : Delays) (c : Client) (w : World)
    → IsServable t c
    → HasSlots w.manager
    → IsPrompt t (waits t) (arrive c w)
arrive-IsPrompt t c w s some_slot = (
  tt,
  tt,
  s.from_client,
  s.from_upstream,
  s.to_client,
  s.to_upstream,
  s.connecting,
  s.closing,
  (s.slot, some_slot),
  s.slack,
)

module _ ⦃u : Unicode⦄ (policy : TimeoutPolicy) where
  -- What a client leaves to the next one.
  abbrev pub after_client : Client → World → World
  after_client c w = (client_connected (some policy) c.trace_id (arrive c w)).1

  abbrev pub serve_clients : List Client → World → World
  serve_clients [] w = w
  serve_clients (c ∷ cs) w = serve_clients cs (after_client c w)

  -- Each client's request is delivered to the upstream with its number.
  abbrev pub AreDelivered : List Client → List Upstream → World → Type 0
  AreDelivered [] chosen w = Unit
  AreDelivered (c ∷ cs) [] w = ⊥
  AreDelivered (c ∷ cs) (upstream ∷ chosen) w =
      ((req : HttpRequest) × (body : Bytes) × (pool' : UpstreamPool) × Delivered req body upstream
          pool' (arrive c w) (after_client c w))
      × AreDelivered cs chosen (after_client c w)

  -- What `n` clients do to the state that they share.
  pub record Spread (n : ℕ) (chosen : List Upstream) (pool' : UpstreamPool) (w w' : World)
      : Type 0 where
    pub slot : w'.manager.client_semaphore ≡ w.manager.client_semaphore
    pub turn : w'.pool ≡ pool'
    pub begun : w'.metrics.requests_total ≡ w.metrics.requests_total + n
    pub done : w'.metrics.request_duration_count ≡ w.metrics.request_duration_count + n
    pub counted :
        w'.metrics.upstream_requests_total ≡ bump_all chosen w.metrics.upstream_requests_total

  module _ (t : Delays) (longer : IsLonger t policy) where
    one-Delivered :
        (c : Client) (upstream : Upstream) (pool' : UpstreamPool) (w : World)
        → IsServable t c
        → HasSlots w.manager
        → (acquire 0 w.manager.client_semaphore).0 ≡ true
        → get_next w.pool ≡ some (upstream, pool')
        → (req : HttpRequest) × (body : Bytes) × Delivered req body upstream pool'
            (arrive c w)
            (after_client c w)
    one-Delivered c upstream pool' w s some_slot free turn =
        let body : Bytes = (parse_bytes c.trace_id (content c.client_in)).1 in
        (
          s.request,
          body,
          client_connected-Delivered policy t longer c.trace_id s.request body upstream pool'
              (arrive c w) (arrive-IsPrompt t c w s some_slot)
              (record { no_step = refl; no_total = refl }) free (ap (λ o. (o, body)) s.read) turn,
        )

    clients-Spread :
        (cs : List Client) (w : World) (chosen : List Upstream) (pool' : UpstreamPool)
        → All (IsServable t) cs
        → HasSlots w.manager
        → (acquire 0 w.manager.client_semaphore).0 ≡ true
        → picks (length cs) w.pool ≡ some (chosen, pool')
        → AreDelivered cs chosen w × Spread (length cs) chosen pool' w (serve_clients cs w)
    unfolding picks
    clients-Spread [] w chosen pool' h some_slot free e =
        let none_chosen : chosen ≡ [] = cc e in
        let kept : w.pool ≡ pool' = cc e in
        (
          tt,
          record {
            slot = refl;
            turn = kept;
            begun = omega arith;
            done = omega arith;
            counted = ap (λ us. bump_all us w.metrics.upstream_requests_total) (sym none_chosen);
          },
        )
    clients-Spread (c ∷ cs) w chosen pool' (s, h) some_slot free e =
        let (next, found, e1) = >>=-eq-some (get_next w.pool) _ e in
        let (later, more, e2) = >>=-eq-some (picks (length cs) next.1) _ e1 in
        let listed : next.0 ∷ later.0 ≡ chosen = cc e2 in
        let ended : picks (length cs) next.1 ≡ some (later.0, pool') = more ∙ cc e2 in
        let (req, body, one) = one-Delivered c next.0 next.1 w s some_slot free found in
        let v : World = after_client c w in
        let (each, rest) =
          clients-Spread cs v later.0 pool' h
            (ap (λ l. has_slots l.max_conns_per_upstream)
                (client_connected-limits policy c.trace_id (arrive c w) free)
              ∙ some_slot)
            (ap (λ x. (acquire 0 x).0) one.slot ∙ free) (ap (picks (length cs)) one.turn ∙ ended) in
        subst
          (λ us.
            AreDelivered (c ∷ cs) us w × Spread (suc (length cs)) us pool' w (serve_clients cs v))
          listed
          (
            ((req, body, next.1, one), each),
            record {
              slot = rest.slot ∙ one.slot;
              turn = rest.turn;
              begun = omega (arith, rest.begun, one.begun);
              done = omega (arith, rest.done, one.done);
              counted = rest.counted ∙ ap (bump_all later.0) one.counted;
            },
          )

    -- Clients that come one after another and can be served, `r` for each upstream of the list from
    -- which the pool was created, are all served, in rounds, where the limit of the upstreams is more
    -- than zero: the one with number `k` by the upstream
    -- that stands `k` places on, round the end. Then the pool is as created, no slot is missing, every
    -- request is counted as started and as done, and the counter of each name `host:port` has grown by
    -- `r` for each upstream in the list with this name.
    pub serve_clients-rounds :
        (us : List Upstream) (r : ℕ) (cs : List Client) (w : World)
        → create us ≡ some w.pool
        → length cs ≡ r * length us
        → All (IsServable t) cs
        → HasSlots w.manager
        → (acquire 0 w.manager.client_semaphore).0 ≡ true
        → AreDelivered cs (repeat r us) w
          × Spread (length cs) (repeat r us) w.pool w (serve_clients cs w)
          × ((key : Text)
              → get_or (serve_clients cs w).metrics.upstream_requests_total key 0
                ≡ get_or w.metrics.upstream_requests_total key 0 + r * times key us)
    serve_clients-rounds us r cs w made many h some_slot free =
        let (each, spread) =
          clients-Spread cs w (repeat r us) w.pool h some_slot free
            (ap (λ n. picks n w.pool) many ∙ create-picks r us w.pool made) in
        (
          each,
          spread,
          λ key.
              ap (λ d. get_or d key 0) spread.counted
              ∙ get_or-bump_all key (repeat r us) w.metrics.upstream_requests_total
              ∙ ap (λ n. get_or w.metrics.upstream_requests_total key 0 + n)
                  (times-repeat key r us),
        )
