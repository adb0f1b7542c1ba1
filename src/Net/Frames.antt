-- ===== src/Net/Frames.antt =====
-- What an action leaves alone, however it ends: rules for the parts of a chain.
use mini_nginx.Common.{
  ℕ, ◌+◌, ◌≡◌, refl, ap, ◌∙◌, Option, none, some, List, [], ◌∷◌, Bool, true, false, if◌then◌else◌,
}
use mini_nginx.Net.{
  World, Result, ok, raised, Io, Exception, Scope, resume, handle, after, catch, finally, pure,
  raise, ◌>>=◌, ◌>>◌, suppress, wait, pass, earliest, expire, hang, first_due, disarm, step, total,
  outside, drain, ends_with, client_drain, later_drains, upstream_drain, close_client,
  close_upstream, timed_out, refused, os_error, cancelled, failure,
}

-- The part of the world that `f` shows is the same after the action, also when it raises.
abbrev pub Fixes : {X A : Type 0} → (World → X) → Io A → Type 0
Fixes f m = (w : World) → f (m w).1 ≡ f w

-- `f` shows nothing of the clock and the deadlines.
abbrev pub IsTimeless : {X : Type 0} → (World → X) → Type 0
IsTimeless f =
    (w : World) (t : ℕ) (s d : Option ℕ)
    → f (record w { now = t; step_deadline = s; total_deadline = d }) ≡ f w

module _ {X : Type 0} (f : World → X) where
  pub Fixes-pure : {A : Type 0} (a : A) → Fixes f (pure a)
  Fixes-pure a w = refl

  pub Fixes-raise : (A : Type 0) (e : Exception) → Fixes f (raise {A = A} e)
  Fixes-raise A e w = refl

  pub resume-Fixes :
      {A B : Type 0} (r : Result A) (v : World) (k : A → Io B)
      → ((a : A) → Fixes f (k a))
      → f (resume (r, v) k).1 ≡ f v
  resume-Fixes (ok a) v k h = h a v
  resume-Fixes (raised e) v k h = refl

  pub Fixes->>= :
      {A B : Type 0} (m : Io A) (k : A → Io B)
      → Fixes f m
      → ((a : A) → Fixes f (k a))
      → Fixes f (m >>= k)
  Fixes->>= m k h hk w = resume-Fixes (m w).0 (m w).1 k hk ∙ h w

  pub handle-Fixes :
      {A : Type 0} (r : Result A) (v : World) (k : Exception → Io A)
      → ((e : Exception) → Fixes f (k e))
      → f (handle (r, v) k).1 ≡ f v
  handle-Fixes (ok a) v k h = refl
  handle-Fixes (raised e) v k h = h e v

  pub Fixes-catch :
      {A : Type 0} (m : Io A) (k : Exception → Io A)
      → Fixes f m
      → ((e : Exception) → Fixes f (k e))
      → Fixes f (catch m k)
  Fixes-catch m k h hk w = handle-Fixes (m w).0 (m w).1 k hk ∙ h w

  pub after-world :
      {A : Type 0} (r : Result A) (c : Result (Unit {0})) (v : World) → (after r (c, v)).1 ≡ v
  after-world r (ok a) v = refl
  after-world r (raised e) v = refl

  pub Fixes-finally :
      {A : Type 0} (m : Io A) (c : Io (Unit {0})) → Fixes f m → Fixes f c → Fixes f (finally m c)
  Fixes-finally m c h hc w =
      ap f (after-world (m w).0 (c (m w).1).0 (c (m w).1).1) ∙ hc (m w).1 ∙ h w

  pub Fixes-if :
      {A : Type 0} (b : Bool) (m k : Io A) → Fixes f m → Fixes f k → Fixes f (if b then m else k)
  Fixes-if true m k h hk = h
  Fixes-if false m k h hk = hk

  pub Fixes-suppress : (e : Exception) → Fixes f (suppress e)
  Fixes-suppress timed_out w = refl
  Fixes-suppress (refused msg) w = refl
  Fixes-suppress (os_error msg) w = refl
  Fixes-suppress (cancelled s) w = refl
  Fixes-suppress (failure msg) w = refl

  pub Fixes-ends_with : (o : Option Exception) → Fixes f (ends_with o)
  Fixes-ends_with none w = refl
  Fixes-ends_with (some e) w = refl

  module _ (h : IsTimeless f) where
    disarmed : (s : Scope) (w : World) (t : ℕ) → f (disarm s (record w { now = t })) ≡ f w
    disarmed step w t = h w t none w.total_deadline
    disarmed total w t = h w t w.step_deadline none
    disarmed outside w t = h w t w.step_deadline w.total_deadline

    Fixes-pass : (fired : Option (Scope × ℕ)) (t : ℕ) → Fixes f (pass fired t)
    Fixes-pass none t w = h w t w.step_deadline w.total_deadline
    Fixes-pass (some (s, d)) t w = disarmed s w d

    pub Fixes-wait : (d : ℕ) → Fixes f (wait d)
    unfolding wait
    Fixes-wait d w =
        Fixes-pass (first_due w.step_deadline w.total_deadline (w.now + d)) (w.now + d) w

    Fixes-expire : (o : Option (Scope × ℕ)) → Fixes f (expire o)
    Fixes-expire none w = refl
    Fixes-expire (some (s, d)) w = Fixes-pass (some (s, d)) d w

    pub Fixes-hang : Fixes f hang
    Fixes-hang w = Fixes-expire (earliest w.step_deadline w.total_deadline) w

    pub Fixes-drain : (later : List (ℕ × Option Exception)) → Fixes f (drain later)
    unfolding drain
    Fixes-drain [] = Fixes-pure tt
    Fixes-drain ((d, o) ∷ later) =
        Fixes->>= (wait d) (λ x. ends_with o) (Fixes-wait d) (λ x. Fixes-ends_with o)

    -- `close()` and `wait_closed()`, for what does not show whether the writer is closed.
    pub Fixes-close_upstream :
        ((w : World)
          → f (record w { upstream_out = record w.upstream_out { closed = true } }) ≡ f w)
        → Fixes f close_upstream
    unfolding close_upstream
    Fixes-close_upstream unclosed w =
        let d : ℕ = w.upstream_out.closing.0 in
        let o : Option Exception = w.upstream_out.closing.1 in
        Fixes-catch (wait d >> ends_with o) suppress
          (Fixes->>= (wait d) (λ x. ends_with o) (Fixes-wait d) (λ x. Fixes-ends_with o))
          Fixes-suppress (record w { upstream_out = record w.upstream_out { closed = true } })
        ∙ unclosed w

    pub Fixes-close_client :
        ((w : World) → f (record w { client_out = record w.client_out { closed = true } }) ≡ f w)
        → Fixes f close_client
    unfolding close_client
    Fixes-close_client unclosed w =
        let d : ℕ = w.client_out.closing.0 in
        let o : Option Exception = w.client_out.closing.1 in
        Fixes-catch (wait d >> ends_with o) suppress
          (Fixes->>= (wait d) (λ x. ends_with o) (Fixes-wait d) (λ x. Fixes-ends_with o))
          Fixes-suppress (record w { client_out = record w.client_out { closed = true } })
        ∙ unclosed w

    -- `drain`, for what does not show how the later ones go.
    pub Fixes-client_drain :
        ((w : World) → f (record w { client_out = later_drains w.client_out }) ≡ f w)
        → Fixes f client_drain
    unfolding client_drain
    Fixes-client_drain same w =
        Fixes-drain w.client_out.drains (record w { client_out = later_drains w.client_out })
        ∙ same w

    pub Fixes-upstream_drain :
        ((w : World) → f (record w { upstream_out = later_drains w.upstream_out }) ≡ f w)
        → Fixes f upstream_drain
    unfolding upstream_drain
    Fixes-upstream_drain same w =
        Fixes-drain w.upstream_out.drains (record w { upstream_out = later_drains w.upstream_out })
        ∙ same w

-- The writer is closed, however `wait_closed` ends.
pub close_client-closes : (w : World) → (close_client w).1.client_out.closed ≡ true
unfolding close_client
close_client-closes w =
    let shut : World → Bool = λ v. v.client_out.closed in
    let d : ℕ = w.client_out.closing.0 in
    let o = w.client_out.closing.1 in
    Fixes-catch shut (wait d >> ends_with o) suppress
      (Fixes->>= shut (wait d) (λ x. ends_with o) (Fixes-wait shut (λ w t s d. refl) d)
        (λ x. Fixes-ends_with shut o))
      (Fixes-suppress shut) (record w { client_out = record w.client_out { closed = true } })
