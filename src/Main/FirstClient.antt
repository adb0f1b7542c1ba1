-- ===== src/Main/FirstClient.antt =====
-- The first client after the start: the configuration, the limits, the pool and the connection together.
use mini_nginx.Common.{ℕ, suc, ◌≡◌, sym, ap, ◌∙◌, subst, true, some, pos, arith, get_elem?}
use mini_nginx.Python.Text.{Text, Unicode}
use mini_nginx.Python.Utf8.{Bytes}
use mini_nginx.Pool.{Upstream, UpstreamPool, get_next}
use mini_nginx.Pool.RoundRobin.{get_next-IsValid}
use mini_nginx.Limits.{semaphore, acquire}
use mini_nginx.Config.{ConfigHolder, pool_upstreams}
use mini_nginx.Config.Laws.{IsReady, IsReady-servers}
use mini_nginx.Config.Loading.{Files}
use mini_nginx.Net.{World}
use mini_nginx.Net.Reading.{content, IsUnhurried}
use mini_nginx.Net.Prompt.{Delays, IsPrompt}
use mini_nginx.Http.{HttpRequest}
use mini_nginx.Handler.Results.{parse_bytes}
use mini_nginx.Proxy.InTime.{IsLonger}
use mini_nginx.Server.{client_connected}
use mini_nginx.Server.Whole.{Delivered, waits, client_connected-Delivered}
use mini_nginx.Logger.{Aiologger}
use mini_nginx.Logger.Laws.{IsLawful}
use mini_nginx.Main.{Process}
use mini_nginx.Main.Start.{start}
use mini_nginx.Main.Laws.{start-Started}

acquire-semaphore : (task n : ℕ) → (acquire task (semaphore (suc n))).0 ≡ true
unfolding acquire
acquire-semaphore task n = ground arith

some-injective : {h k : ConfigHolder} → some h ≡ some k → h ≡ k
some-injective e = cc

module _ ⦃u : Unicode⦄ {Location Document Logger Answer : Type 0} (aio : Aiologger Logger Answer)
    (p : Process Location) (files : Files Location Document) where
  current-IsReady :
      IsLawful aio
      → (holder : ConfigHolder) → (start aio p files).1.current ≡ some holder
      → IsReady holder.model holder
  current-IsReady lawful holder e =
      let (found, begun, loaded, fallen) = start-Started aio p files lawful in
      subst (λ h. IsReady h.model h) (some-injective (sym begun.current ∙ e)) begun.ready

  -- After any start, whatever the files and the environment hold, if the current configuration allows
  -- more than no client and more than no connection to an upstream: the first client that sends a
  -- request, on a network where nothing breaks and whose delays are together shorter than every
  -- timeout of that configuration, is served from the first upstream of the configuration (of the two
  -- default ones, if it names none). That upstream is sent the head of the request and its body, the
  -- client gets the whole response and its connection is closed, and its slot is free again.
  pub first_client-Delivered :
      IsLawful aio
      → (holder : ConfigHolder) (t : Delays) (n : ℕ) (trace_id : Text) (req : HttpRequest)
        (body : Bytes) (w : World)
      → (start aio p files).1.current ≡ some holder
      → holder.model.limits.max_client_conns ≡ pos (suc n)
      → IsLonger t holder.timeout_policy
      → w.manager ≡ holder.connection_limits
      → w.pool ≡ holder.upstream_pool
      → IsPrompt t (waits t) w
      → IsUnhurried w
      → parse_bytes trace_id (content w.client_in) ≡ (some req, body)
      → (upstream : Upstream) × (pool' : UpstreamPool) × (get_elem?
            (pool_upstreams holder.model.upstreams)
            0
          ≡ some upstream)
        × (get_next w.pool ≡ some (upstream, pool'))
        × Delivered req body upstream pool' w
            (client_connected (some holder.timeout_policy) trace_id w).1
  first_client-Delivered lawful holder t n trace_id req body w e some_clients longer limits pool
        prompt un read =
      let ready : IsReady holder.model holder = current-IsReady lawful holder e in
      let (upstream, pool', found, at, kept, v) =
        get_next-IsValid holder.upstream_pool ready.valid in
      let turn : get_next w.pool ≡ some (upstream, pool') = ap get_next pool ∙ found in
      let granted : (acquire 0 w.manager.client_semaphore).0 ≡ true =
        ap (λ m. (acquire 0 m.client_semaphore).0) limits
        ∙ ap (λ s. (acquire 0 s).0) (ready.clients (suc n) some_clients)
        ∙ acquire-semaphore 0 n in
      (
        upstream,
        pool',
        subst (λ us. get_elem? us 0 ≡ some upstream) (IsReady-servers holder.model holder ready)
            (subst (λ i. get_elem? holder.upstream_pool.upstreams i ≡ some upstream) ready.fresh
              at),
        turn,
        client_connected-Delivered holder.timeout_policy t longer trace_id req body upstream pool' w
            prompt un granted read turn,
      )
