-- ===== src/Net/Prompt/Streams.antt =====
-- The operations on the streams of a network that is quick enough.
use mini_nginx.Common.{ℕ, ◌+◌, ◌≡◌, refl, ap, ◌∙◌, true, Option, none, some, List, [], ◌∷◌, arith}
use mini_nginx.Net.{
  World, Writer, ok, Exception, ◌>>◌, pure, wait, read, client_read, upstream_read, drain,
  ends_with, client_drain, upstream_drain, later_drains, close_upstream, suppress,
}
use mini_nginx.Net.Binds.{>>=-ok, catch-ok}
use mini_nginx.Net.Prompt.{
  Delays, Later, in_time, Flows, delays, pending, IsPrompt, Succeeds, wait-within, wait-keeps,
  read_parts-Gives,
}

-- The drain of a writer waits for its first delay, which is then no more to come.
record Drained (o : Writer) : Type 0 where
  first : ℕ
  same : first + delays (later_drains o).drains ≡ delays o.drains
  flows : Flows (later_drains o).drains
  ends :
      (w : World)
      → Later (w.now + first) w.step_deadline
      → Later (w.now + first) w.total_deadline
      → drain o.drains w ≡ (ok tt, record w { now = w.now + first })

Flows-Drained :
    (o : Writer) (drains : List (ℕ × Option Exception))
    → o.drains ≡ drains
    → Flows drains
    → Drained o
unfolding drain
Flows-Drained o [] e h = record {
  first = 0;
  same = rw e refl;
  flows = rw e tt;
  ends = λ w k l.
      let now : w.now ≡ w.now + 0 = omega arith in
      rw e (ap (λ n. pure tt (record w { now = n })) now);
}
Flows-Drained o ((d, some x) ∷ drains) e h = absurd h
Flows-Drained o ((d, none) ∷ drains) e h = record {
  first = d;
  same = rw e refl;
  flows = rw e h;
  ends = λ w k l. rw e (>>=-ok (wait d) (λ x. ends_with none) w (wait-within d w k l));
}

closing-later : (o : Writer) → (later_drains o).closing ≡ o.closing
closing-later o = ground arith

module _ (t : Delays) (b : ℕ) where
  pub client_read-Succeeds : (n : ℕ) (w : World) → IsPrompt t b w → Succeeds t b (client_read n) w
  unfolding client_read read
  client_read-Succeeds n w p =
      let parts = w.client_in.arrivals in
      let (time, chunk, r, e, intact, same, later) =
        read_parts-Gives n w.client_in.buffer parts w p.2
          (in_time t b w p (w.now + delays parts) (omega arith)).0
          (in_time t b w p (w.now + delays parts) (omega arith)).1 in
      let v : World = record w { now = time; client_in = r } in
      (
        chunk,
        v,
        >>=-ok (read n w.client_in) (λ part v. pure part.0 (record v { client_in = part.1 })) w e,
        (
          (in_time t b w p (time + (b + pending v)) (omega (arith, same))).0,
          (in_time t b w p (time + (b + pending v)) (omega (arith, same))).1,
          intact,
          p.3,
          p.4,
          p.5,
          p.6,
          p.7,
          p.8,
          omega (arith, same, later, p.9),
        ),
      )

  pub upstream_read-Succeeds :
      (n : ℕ) (w : World) → IsPrompt t b w → Succeeds t b (upstream_read n) w
  unfolding upstream_read read
  upstream_read-Succeeds n w p =
      let parts = w.upstream_in.arrivals in
      let (time, chunk, r, e, intact, same, later) =
        read_parts-Gives n w.upstream_in.buffer parts w p.3
          (in_time t b w p (w.now + delays parts) (omega arith)).0
          (in_time t b w p (w.now + delays parts) (omega arith)).1 in
      let v : World = record w { now = time; upstream_in = r } in
      (
        chunk,
        v,
        >>=-ok (read n w.upstream_in) (λ part v. pure part.0 (record v { upstream_in = part.1 })) w
            e,
        (
          (in_time t b w p (time + (b + pending v)) (omega (arith, same))).0,
          (in_time t b w p (time + (b + pending v)) (omega (arith, same))).1,
          p.2,
          intact,
          p.4,
          p.5,
          p.6,
          p.7,
          p.8,
          omega (arith, same, later, p.9),
        ),
      )

  pub client_drain-Succeeds : (w : World) → IsPrompt t b w → Succeeds t b client_drain w
  unfolding client_drain
  client_drain-Succeeds w p =
      let d : Drained w.client_out = Flows-Drained w.client_out w.client_out.drains refl p.4 in
      let same = d.same in
      let v : World = record w { client_out = later_drains w.client_out } in
      let v' : World = record v { now = w.now + d.first } in
      (
        tt,
        v',
        d.ends v (in_time t b w p (w.now + d.first) (omega (arith, same))).0
            (in_time t b w p (w.now + d.first) (omega (arith, same))).1,
        (
          (in_time t b w p (w.now + d.first + (b + pending v')) (omega (arith, same))).0,
          (in_time t b w p (w.now + d.first + (b + pending v')) (omega (arith, same))).1,
          p.2,
          p.3,
          d.flows,
          p.5,
          p.6,
          p.7,
          p.8,
          omega (arith, same, p.9),
        ),
      )

  pub upstream_drain-Succeeds : (w : World) → IsPrompt t b w → Succeeds t b upstream_drain w
  unfolding upstream_drain
  upstream_drain-Succeeds w p =
      let d : Drained w.upstream_out =
        Flows-Drained w.upstream_out w.upstream_out.drains refl p.5 in
      let same = d.same in
      let v : World = record w { upstream_out = later_drains w.upstream_out } in
      let v' : World = record v { now = w.now + d.first } in
      (
        tt,
        v',
        d.ends v (in_time t b w p (w.now + d.first) (omega (arith, same))).0
            (in_time t b w p (w.now + d.first) (omega (arith, same))).1,
        (
          (in_time t b w p (w.now + d.first + (b + pending v')) (omega (arith, same))).0,
          (in_time t b w p (w.now + d.first + (b + pending v')) (omega (arith, same))).1,
          p.2,
          p.3,
          p.4,
          d.flows,
          p.6,
          closing-later w.upstream_out ∙ p.7,
          p.8,
          omega (arith, same, p.9),
        ),
      )

pub close_upstream-Succeeds :
    (t : Delays) (b : ℕ) (w : World) → IsPrompt t (t.closing + b) w → Succeeds t b close_upstream w
unfolding close_upstream
close_upstream-Succeeds t b w p =
    let shut : World = record w { upstream_out = record w.upstream_out { closed = true } } in
    let (e, q) = wait-keeps t t.closing b shut p in
    (
      tt,
      record shut { now = w.now + t.closing },
      catch-ok (wait w.upstream_out.closing.0 >> ends_with w.upstream_out.closing.1) suppress shut (
          ap (λ c. (wait c.0 >> ends_with c.1) shut) p.7
          ∙ >>=-ok (wait t.closing) (λ x. ends_with none) shut e),
      q,
    )
