-- ===== src/Http/Sent.antt =====
-- What sending leaves: bytes behind those written to the upstream, taken from the client's stream.
use mini_nginx.Common.{
  ◌≡◌, refl, sym, ap, ◌∙◌, ℕ, ◌+◌, subst, List, [], ◌∷◌, ◌++◌, append-nil, append_assoc, arith,
  Option, none, some,
}
use mini_nginx.Python.Utf8.{Bytes}
use mini_nginx.Net.{
  World, Writer, Exception, ok, wait, drain, raise, pure, client_read, upstream_drain,
  upstream_write, later_drains,
}
use mini_nginx.Net.Binds.{>>=-eq-ok}
use mini_nginx.Net.Reading.{content, wait-ok, client_read-ok}

-- From `w` to `w'`, `bytes` have gone to the upstream, of which `body` came from the client's
-- stream; the reply, the counters, the limits and the pool are as they were.
pub record Sent (bytes body : Bytes) (w w' : World) : Type 0 where
  pub written : w'.upstream_out.written ≡ w.upstream_out.written ++ bytes
  pub taken : content w.client_in ≡ body ++ content w'.client_in
  pub reply : w'.client_out ≡ w.client_out
  pub response : w'.upstream_in ≡ w.upstream_in
  pub counters : w'.metrics ≡ w.metrics
  pub limits : w'.manager ≡ w.manager
  pub servers : w'.pool ≡ w.pool

pub Sent-append :
    (b c b' c' : Bytes) (w v x : World)
    → Sent b c w v
    → Sent b' c' v x
    → Sent (b ++ b') (c ++ c') w x
Sent-append b c b' c' w v x s t = record {
  written = t.written ∙ ap (λ y. y ++ b') s.written ∙ append_assoc w.upstream_out.written b b';
  taken = s.taken ∙ ap (λ y. c ++ y) t.taken ∙ sym (append_assoc c c' (content x.client_in));
  reply = t.reply ∙ s.reply;
  response = t.response ∙ s.response;
  counters = t.counters ∙ s.counters;
  limits = t.limits ∙ s.limits;
  servers = t.servers ∙ s.servers;
}

pub drain-ok :
    (later : List (ℕ × Option Exception)) (w w' : World)
    → drain later w ≡ (ok tt, w')
    → (t : ℕ) × (w' ≡ record w { now = t })
unfolding drain
drain-ok [] w w' e = (w.now, cc e)
drain-ok ((d, none) ∷ later) w w' e =
    let (z, v, first, last) = >>=-eq-ok (wait d) (λ y. pure tt) w e in
    (w.now + d, cc last ∙ wait-ok d w v first)
drain-ok ((d, some x) ∷ later) w w' e =
    let (z, v, first, last) = >>=-eq-ok (wait d) (λ y. raise {A = Unit {0}} x) w e in cc last

pub write-Sent : (bytes : Bytes) (w : World) → Sent bytes [] w (upstream_write bytes w).1
write-Sent bytes w = record {
  written = refl;
  taken = refl;
  reply = refl;
  response = refl;
  counters = refl;
  limits = refl;
  servers = refl;
}

pub later_drains-written : (out : Writer) → (later_drains out).written ≡ out.written
later_drains-written out = ground arith

pub drain-Sent : (w w' : World) → upstream_drain w ≡ (ok tt, w') → Sent [] [] w w'
unfolding upstream_drain
drain-Sent w w' e =
    let begun : World = record w { upstream_out = later_drains w.upstream_out } in
    let (t, same) = drain-ok w.upstream_out.drains begun w' e in
    subst (Sent [] [] w) (sym same) (record {
      written = later_drains-written w.upstream_out ∙ sym (append-nil w.upstream_out.written);
      taken = refl;
      reply = refl;
      response = refl;
      counters = refl;
      limits = refl;
      servers = refl;
    })

pub read-Sent :
    (n : ℕ) (w w' : World) (chunk : Bytes) → client_read n w ≡ (ok chunk, w') → Sent [] chunk w w'
read-Sent n w w' chunk e =
    let (t, r, same, taken) = client_read-ok n w w' chunk e in
    subst (Sent [] chunk w) (sym same) (record {
      written = sym (append-nil w.upstream_out.written);
      taken = sym taken.split;
      reply = refl;
      response = refl;
      counters = refl;
      limits = refl;
      servers = refl;
    })
