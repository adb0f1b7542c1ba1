-- ===== src/Timeouts/Laws.antt =====
-- What a timeout does to the operation inside it.
use mini_nginx.Common.{
  ℕ, ◌+◌, ◌≡◌, refl, ap, ◌∙◌, Bool, true, false, none, some, nat_beq, if◌then◌else◌,
}
use mini_nginx.Net.{
  World, Result, ok, raised, Io, cancelled, timed_out, refused, os_error, failure, step, total,
  outside,
}
use mini_nginx.Net.Frames.{Fixes, IsTimeless}
use mini_nginx.Timeouts.{wait_for, wait_for_total, expired_step, expired_total}

expired_step-ok : {A : Type 0} (r : Result A) {a : A} → expired_step r ≡ ok a → r ≡ ok a
expired_step-ok (ok b) e = e
expired_step-ok (raised (cancelled step)) e = cc
expired_step-ok (raised (cancelled total)) e = cc
expired_step-ok (raised (cancelled outside)) e = cc
expired_step-ok (raised timed_out) e = cc
expired_step-ok (raised (refused m)) e = cc
expired_step-ok (raised (os_error m)) e = cc
expired_step-ok (raised (failure m)) e = cc

expired_total-ok : {A : Type 0} (r : Result A) {a : A} → expired_total r ≡ ok a → r ≡ ok a
expired_total-ok (ok b) e = e
expired_total-ok (raised (cancelled step)) e = cc
expired_total-ok (raised (cancelled total)) e = cc
expired_total-ok (raised (cancelled outside)) e = cc
expired_total-ok (raised timed_out) e = cc
expired_total-ok (raised (refused m)) e = cc
expired_total-ok (raised (os_error m)) e = cc
expired_total-ok (raised (failure m)) e = cc

chosen_ok :
    {A : Type 0} (b : Bool) (w : World) (r : Result A) (v : World) {a : A} {w' : World}
    → if◌then◌else◌ {A = Result A × World} b (raised timed_out, w) (r, v) ≡ (ok a, w')
    → (r ≡ ok a) × (w' ≡ v)
chosen_ok true w r v e = cc
chosen_ok false w r v e = (cc e, cc e)

-- An operation that succeeds under a timeout has succeeded with its deadline set.
pub wait_for-eq-ok :
    {A : Type 0} (limit : ℕ) (m : Io A) (w : World) {a : A} {w' : World}
    → wait_for limit m w ≡ (ok a, w')
    → (v : World) × (m (record w { step_deadline = some (w.now + limit) }) ≡ (ok a, v))
      × (w' ≡ record v { step_deadline = none })
unfolding wait_for
wait_for-eq-ok limit m w e =
    let armed : World = record w { step_deadline = some (w.now + limit) } in
    let (good, same) =
      chosen_ok (nat_beq limit 0) w (expired_step (m armed).0)
        (record (m armed).1 { step_deadline = none }) e in
    ((m armed).1, ap (λ r. (r, (m armed).1)) (expired_step-ok (m armed).0 good), same)

pub wait_for_total-eq-ok :
    {A : Type 0} (limit : ℕ) (m : Io A) (w : World) {a : A} {w' : World}
    → wait_for_total limit m w ≡ (ok a, w')
    → (v : World) × (m (record w { total_deadline = some (w.now + limit) }) ≡ (ok a, v))
      × (w' ≡ record v { total_deadline = none })
unfolding wait_for_total
wait_for_total-eq-ok limit m w e =
    let armed : World = record w { total_deadline = some (w.now + limit) } in
    let (good, same) =
      chosen_ok (nat_beq limit 0) w (expired_total (m armed).0)
        (record (m armed).1 { total_deadline = none }) e in
    ((m armed).1, ap (λ r. (r, (m armed).1)) (expired_total-ok (m armed).0 good), same)

chosen_fixes :
    {X A : Type 0} (f : World → X) (b : Bool) (w : World) (r : Result A) (v : World)
    → f v ≡ f w
    → f (if◌then◌else◌ {A = Result A × World} b (raised timed_out, w) (r, v)).1 ≡ f w
chosen_fixes f true w r v h = refl
chosen_fixes f false w r v h = h

module _ {X A : Type 0} (f : World → X) (timeless : IsTimeless f) (limit : ℕ) (m : Io A)
    (h : Fixes f m) where
  pub Fixes-wait_for : Fixes f (wait_for limit m)
  unfolding wait_for
  Fixes-wait_for w =
      let armed : World = record w { step_deadline = some (w.now + limit) } in
      chosen_fixes f (nat_beq limit 0) w (expired_step (m armed).0)
        (record (m armed).1 { step_deadline = none })
        (timeless (m armed).1 (m armed).1.now none (m armed).1.total_deadline
          ∙ h armed
          ∙ timeless w w.now (some (w.now + limit)) w.total_deadline)

  pub Fixes-wait_for_total : Fixes f (wait_for_total limit m)
  unfolding wait_for_total
  Fixes-wait_for_total w =
      let armed : World = record w { total_deadline = some (w.now + limit) } in
      chosen_fixes f (nat_beq limit 0) w (expired_total (m armed).0)
        (record (m armed).1 { total_deadline = none })
        (timeless (m armed).1 (m armed).1.now (m armed).1.step_deadline none
          ∙ h armed
          ∙ timeless w w.now w.step_deadline (some (w.now + limit)))
