-- ===== src/Proxy/Deadlines.antt =====
-- The connect timeout, as `_proxy_to_upstream_internal` puts it round `asyncio.open_connection`.
use mini_nginx.Common.{
  ℕ, ◌+◌, ◌<◌, ◌≤◌, ◌≡◌, refl, sym, ap, ◌∙◌, false, Option, none, some, arith, ltb, nat_beq,
  if◌then◌else◌, min, Bool-cases, inl, inr,
}
use mini_nginx.Net.{
  World, Io, Result, ok, raised, Exception, timed_out, step, wait, first_due, Scope, pass, resume,
  ◌>>◌, ends_with,
}
use mini_nginx.Timeouts.{TimeoutPolicy, with_connect_timeout, wait_for, expired_step}
use mini_nginx.Proxy.Connect.{open_connection}

-- The deadline that is due with the step's own deadline at `s` and a later one of the request.
first_due-early :
    (total : Option ℕ) (s t : ℕ)
    → ((x : ℕ) → total ≡ some x → s < x)
    → t < s
    → first_due (some s) total t ≡ none
first_due-early none s t later h = ground arith
first_due-early (some x) s t later h = let l = later x refl in ground arith

first_due-late :
    (total : Option ℕ) (s t : ℕ)
    → ((x : ℕ) → total ≡ some x → s < x)
    → s ≤ t
    → first_due (some s) total t ≡ some (step, s)
first_due-late none s t later h = ground arith
first_due-late (some x) s t later h = let l = later x refl in ground arith

-- How `open_connection` ends when its time has passed.
abbrev pub outcome : Option Exception → Result (Unit {0})
outcome none = ok tt
outcome (some e) = raised e

ends_with-outcome :
    (o : Option Exception) (r : Result (Unit {0}) × World)
    → resume r (λ z. ends_with o) ≡ resume r (λ z w. (outcome o, w))
ends_with-outcome none r = refl
ends_with-outcome (some e) r = refl

opening-first_due :
    (d : ℕ) (ends : Option Exception) (v : World) (o : Option (Scope × ℕ))
    → v.connection ≡ (d, ends)
    → first_due v.step_deadline v.total_deadline (v.now + d) ≡ o
    → open_connection v ≡ resume (pass o (v.now + d) v) (λ z w. (outcome ends, w))
unfolding open_connection wait
opening-first_due d ends v o takes due =
    ap (λ c. (wait c.0 >> ends_with c.1) v) takes
    ∙ ap (λ x. resume (pass x (v.now + d) v) (λ z. ends_with ends)) due
    ∙ ends_with-outcome ends (pass o (v.now + d) v)

wait_for-positive :
    (limit : ℕ) (m : Io (Unit {0})) (w : World) {r : Result (Unit {0}) × World}
    → 0 < limit
    → m (record w { step_deadline = some (w.now + limit) }) ≡ r
    → wait_for limit m w ≡ (expired_step r.0, record r.1 { step_deadline = none })
unfolding wait_for
wait_for-positive limit m w positive same =
    let some_time : nat_beq limit 0 ≡ false = ground arith in
    ap
      (λ b. if b then (raised timed_out, w) else (
        expired_step (m (record w { step_deadline = some (w.now + limit) })).0,
        record (m (record w { step_deadline = some (w.now + limit) })).1 { step_deadline = none },
      ))
      some_time
    ∙ ap (λ p. (expired_step p.0, record p.1 { step_deadline = none })) same

-- Opening a connection that takes `d` milliseconds ends then as it ends by itself, with success or an
-- exception, if the connect timeout is longer, and else raises a timeout when the connect timeout has
-- passed, provided that this timeout is not zero and the deadline of the whole request, if there is
-- one, comes later.
pub with_connect_timeout-open_connection :
    (policy : TimeoutPolicy) (d : ℕ) (ends : Option Exception) (w : World)
    → w.connection ≡ (d, ends)
    → 0 < policy.connect_ms
    → ((x : ℕ) → w.total_deadline ≡ some x → w.now + policy.connect_ms < x)
    → with_connect_timeout policy open_connection w ≡ (
      (if ltb d policy.connect_ms then expired_step (outcome ends) else raised timed_out),
      record w { now = w.now + min d policy.connect_ms; step_deadline = none },
    )
with_connect_timeout-open_connection policy d ends w takes positive later =
    let armed : World = record w { step_deadline = some (w.now + policy.connect_ms) } in
    elim (Bool-cases (ltb d policy.connect_ms)) [
      | inl fast ↦
          (let short : min d policy.connect_ms ≡ d = ground arith in
            wait_for-positive policy.connect_ms open_connection w positive (
              opening-first_due d ends armed none takes (
                first_due-early w.total_deadline (w.now + policy.connect_ms) (w.now + d) later
                  (ground arith)))
            ∙ ap
                (λ b. (
                  if b then expired_step (outcome ends) else raised timed_out,
                  record w { now = w.now + d; step_deadline = none },
                ))
                (sym fast)
            ∙ ap
                (λ n. (
                  if ltb d policy.connect_ms then expired_step (outcome ends) else raised timed_out,
                  record w { now = w.now + n; step_deadline = none },
                ))
                (sym short))
      | inr slow ↦
          (let long : min d policy.connect_ms ≡ policy.connect_ms = ground arith in
            wait_for-positive policy.connect_ms open_connection w positive (
              opening-first_due d ends armed (some (step, w.now + policy.connect_ms)) takes (
                first_due-late w.total_deadline (w.now + policy.connect_ms) (w.now + d) later
                  (ground arith)))
            ∙ ap
                (λ b. (
                  if b then expired_step (outcome ends) else raised timed_out,
                  record w { now = w.now + policy.connect_ms; step_deadline = none },
                ))
                (sym slow)
            ∙ ap
                (λ n. (
                  if ltb d policy.connect_ms then expired_step (outcome ends) else raised timed_out,
                  record w { now = w.now + n; step_deadline = none },
                ))
                (sym long))
    ]
