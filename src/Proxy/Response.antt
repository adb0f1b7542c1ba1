-- ===== src/Proxy/Response.antt =====
-- One round of the relay: a chunk is received and given to the client.
use mini_nginx.Common.{
  ℕ, ◌≡◌, ◌≢◌, refl, sym, ap, subst, ◌∙◌, [], ◌∷◌, ◌++◌, append-nil, append_assoc, arith, Bool,
  none,
}
use mini_nginx.Python.Text.{Unicode}
use mini_nginx.Python.Utf8.{Bytes}
use mini_nginx.Pool.{Upstream, UpstreamPool}
use mini_nginx.Limits.{ConnectionLimitManager}
use mini_nginx.Metrics.{Metrics}
use mini_nginx.Net.{
  World, Reader, Writer, Io, ok, Exception, timed_out, refused, os_error, cancelled, failure,
  upstream_read, client_write, client_drain, later_drains,
}
use mini_nginx.Net.Binds.{>>=-eq-ok, catch-eq-ok}
use mini_nginx.Net.Reading.{content, upstream_read-ok}
use mini_nginx.Http.Sent.{drain-ok, later_drains-written}
use mini_nginx.Timeouts.{TimeoutPolicy, wait_for}
use mini_nginx.Timeouts.Laws.{wait_for-eq-ok}
use mini_nginx.Proxy.Relay.{Progress, advance, count_read_error, read_chunk, relay_chunk}

-- From `w` to `w'`, `bytes` have come from the upstream's stream and gone to the client; the counters,
-- the limits, the pool and what was sent to the upstream are as they were.
pub record Relayed (bytes : Bytes) (w w' : World) : Type 0 where
  pub written : w'.client_out.written ≡ w.client_out.written ++ bytes
  pub taken : content w.upstream_in ≡ bytes ++ content w'.upstream_in
  pub request : w'.client_in ≡ w.client_in
  pub sent : w'.upstream_out ≡ w.upstream_out
  pub counters : w'.metrics ≡ w.metrics
  pub limits : w'.manager ≡ w.manager
  pub servers : w'.pool ≡ w.pool
  pub opened : w'.connected ≡ w.connected

-- What a read of the response leaves alone.
abbrev pub beside_response :
    World → Writer × Reader × Writer × Metrics × ConnectionLimitManager × UpstreamPool × Bool
beside_response w =
    (w.client_out, w.client_in, w.upstream_out, w.metrics, w.manager, w.pool, w.connected)

-- A read that succeeds has only taken its chunk.
pub record Received (chunk : Bytes) (w w' : World) : Type 0 where
  pub taken : content w.upstream_in ≡ chunk ++ content w'.upstream_in
  pub at_end : chunk ≡ [] → content w.upstream_in ≡ []
  pub same : beside_response w' ≡ beside_response w

abbrev pub beside_client :
    World → Reader × Reader × Writer × Metrics × ConnectionLimitManager × UpstreamPool × Bool
beside_client w =
    (w.upstream_in, w.client_in, w.upstream_out, w.metrics, w.manager, w.pool, w.connected)

count_read_error-raises :
    (upstream : Upstream) (chunk : Bytes) (e : Exception) (v : World)
    → (count_read_error upstream e v).0 ≢ ok chunk
count_read_error-raises upstream chunk timed_out v h = cc
count_read_error-raises upstream chunk (refused m) v h = cc
count_read_error-raises upstream chunk (os_error m) v h = cc
count_read_error-raises upstream chunk (cancelled s) v h = cc
count_read_error-raises upstream chunk (failure m) v h = cc

pub read_chunk-Received :
    (policy : TimeoutPolicy) (upstream : Upstream) (w w' : World) (chunk : Bytes)
    → read_chunk policy upstream w ≡ (ok chunk, w')
    → Received chunk w w'
unfolding read_chunk
read_chunk-Received policy upstream w w' chunk e =
    let plain =
      catch-eq-ok (wait_for policy.read_ms (upstream_read 8192)) (count_read_error upstream) w
        (count_read_error-raises upstream chunk) e in
    let (v, done, after) = wait_for-eq-ok policy.read_ms (upstream_read 8192) w plain in
    let (t, r, left, taken) = upstream_read-ok 8192 _ v chunk done in
    let whole : w' ≡ record w { now = t; step_deadline = none; upstream_in = r } =
      after ∙ ap (λ (x : World). record x { step_deadline = none }) left in
    subst (Received chunk w) (sym whole) (record {
      taken = sym taken.split;
      at_end = λ empty. taken.at_end (omega arith) empty;
      same = refl;
    })

pub client_drain-ok :
    (w w' : World)
    → client_drain w ≡ (ok tt, w')
    → (w'.client_out.written ≡ w.client_out.written) × (beside_client w' ≡ beside_client w)
unfolding client_drain
client_drain-ok w w' e =
    let begun : World = record w { client_out = later_drains w.client_out } in
    let (t, same) = drain-ok w.client_out.drains begun w' e in
    (
      ap (λ (x : World). x.client_out.written) same ∙ later_drains-written w.client_out,
      ap beside_client same,
    )

-- A chunk that is not empty has been written when the next round begins.
pub relay_chunk-Relayed :
    ⦃u : Unicode⦄ (b : ℕ) (bytes : Bytes) (p p' : Progress) (next : Progress → Io Progress)
    (v x : World)
    → relay_chunk (b ∷ bytes) p next v ≡ (ok p', x)
    → (z : World) × (next (advance (b ∷ bytes) p) z ≡ (ok p', x))
      × (z.client_out.written ≡ v.client_out.written ++ b ∷ bytes)
      × (beside_client z ≡ beside_client v)
unfolding relay_chunk
relay_chunk-Relayed b bytes p p' next v x e =
    let written : World = (client_write (b ∷ bytes) v).1 in
    let (done, z, drained, later) =
      >>=-eq-ok client_drain (λ y. next (advance (b ∷ bytes) p)) written e in
    let (same, rest) = client_drain-ok written z drained in (z, later, same, rest)

-- One round, and the rounds after it.
pub round-Relayed :
    (chunk rest : Bytes) (w v z x : World)
    → Received chunk w v
    → z.client_out.written ≡ v.client_out.written ++ chunk
    → beside_client z ≡ beside_client v
    → Relayed rest z x
    → Relayed (chunk ++ rest) w x
round-Relayed chunk rest w v z x got wrote kept later =
    let out : v.client_out ≡ w.client_out = ap (λ p. p.0) got.same in
    let from : z.upstream_in ≡ v.upstream_in = ap (λ p. p.0) kept in
    record {
      written =
          later.written
          ∙ ap (λ o. o ++ rest) (wrote ∙ ap (λ (o : Writer). o.written ++ chunk) out)
          ∙ append_assoc w.client_out.written chunk rest;
      taken =
          got.taken
          ∙ ap (λ c. chunk ++ c) (sym (ap content from) ∙ later.taken)
          ∙ sym (append_assoc chunk rest (content x.upstream_in));
      request = later.request ∙ ap (λ p. p.1) kept ∙ ap (λ p. p.1) got.same;
      sent = later.sent ∙ ap (λ p. p.2) kept ∙ ap (λ p. p.2) got.same;
      counters = later.counters ∙ ap (λ p. p.3) kept ∙ ap (λ p. p.3) got.same;
      limits = later.limits ∙ ap (λ p. p.4) kept ∙ ap (λ p. p.4) got.same;
      servers = later.servers ∙ ap (λ p. p.5) kept ∙ ap (λ p. p.5) got.same;
      opened = later.opened ∙ ap (λ p. p.6) kept ∙ ap (λ p. p.6) got.same;
    }

-- A read that finds the end.
pub end-Relayed : (w v : World) → Received [] w v → Relayed (content w.upstream_in) w v
end-Relayed w v got =
    let none_left : content w.upstream_in ≡ [] = got.at_end refl in
    subst (λ bytes. Relayed bytes w v) (sym none_left)
      (record {
        written = ap (λ p. p.0.written) got.same ∙ sym (append-nil w.client_out.written);
        taken = got.taken;
        request = ap (λ p. p.1) got.same;
        sent = ap (λ p. p.2) got.same;
        counters = ap (λ p. p.3) got.same;
        limits = ap (λ p. p.4) got.same;
        servers = ap (λ p. p.5) got.same;
        opened = ap (λ p. p.6) got.same;
      })
