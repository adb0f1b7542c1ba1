-- ===== src/Proxy/Counting.antt =====
-- What the proxying of a request adds to the counters of responses.
use mini_nginx.Common.{
  ℕ, ◌+◌, ◌≤◌, ◌≡◌, ◌≢◌, refl, sym, ap, ◌∙◌, Option, none, some, ℤ, arith, pos, true, false,
  if◌then◌else◌, nat_beq, Bool, subst, nat_eq, list_eq,
}
use mini_nginx.Python.Text.{Unicode}
use mini_nginx.Pool.{Upstream}
use mini_nginx.Metrics.{
  Metrics, status_class, record_response_status, record_timeout_error, record_upstream_error,
}
use mini_nginx.Metrics.Totals.{sum, sum-bump}
use mini_nginx.Net.{
  World, Io, Result, ok, raised, Exception, timed_out, refused, os_error, cancelled, failure, step,
  total, outside, Scope, ◌>>=◌, pure, handle, after, client_drain,
}
use mini_nginx.Net.Binds.{>>=-eq-ok}
use mini_nginx.Http.{HttpRequest, write_to_upstream}
use mini_nginx.Timeouts.{wait_for, wait_for_total, expired_total}
use mini_nginx.Proxy.Connect.{Settings, connect}
use mini_nginx.Proxy.Relay.{Progress}
use mini_nginx.Proxy.Success.{on_error-ne-some}
use mini_nginx.Proxy.Endings.{counted, on_error-reply}
use mini_nginx.Proxy.Aloof.{
  IsApart, IsApart-IsBeside, Fixes-exchange, Fixes-close_if_connected_apart,
}
use mini_nginx.Proxy.Exchange.{
  on_error, finished, close_if_connected, relay_response, exchange, proxy_internal,
  proxy_to_upstream,
}

-- The responses of all classes.
abbrev pub responses : World → ℕ
responses w = sum w.metrics.response_total_by_class

-- How many responses are counted, from `n` on, when an action ends: a response that is still to be
-- reported is not counted yet, one that is not reported is, and an exception leaves it open.
abbrev pub Tally : ℕ → Result (Option (ℤ × ℕ)) → ℕ → Type 0
Tally n (ok (some reported)) m = m ≡ n
Tally n (ok none) m = m ≡ n + 1
Tally n (raised e) m = (n ≤ m) × (m ≤ n + 1)

Tally-counted :
    (n m : ℕ) (r : Result (Option (ℤ × ℕ)))
    → ((x : ℤ × ℕ) → r ≢ ok (some x))
    → m ≡ n + 1
    → Tally n r m
Tally-counted n m (ok none) never e = e
Tally-counted n m (ok (some x)) never e = absurd (never x refl)
Tally-counted n m (raised x) never e = (omega arith, omega arith)

Tally-raised :
    (n m : ℕ) (r : Result (Option (ℤ × ℕ))) (e : Exception) → Tally n r m → Tally n (raised e) m
Tally-raised n m (ok none) e t = (omega arith, omega arith)
Tally-raised n m (ok (some x)) e t = (omega arith, omega arith)
Tally-raised n m (raised x) e t = t

after-Tally :
    (n : ℕ) (r : Result (Option (ℤ × ℕ))) (c : Result (Unit {0})) (v : World)
    → Tally n r (responses v)
    → Tally n (after r (c, v)).0 (responses (after r (c, v)).1)
after-Tally n r (ok x) v t = t
after-Tally n r (raised e) v t = Tally-raised n (responses v) r e t

expired_total-Tally :
    (n m : ℕ) (r : Result (Option (ℤ × ℕ))) → Tally n r m → Tally n (expired_total r) m
expired_total-Tally n m (ok none) t = t
expired_total-Tally n m (ok (some x)) t = t
expired_total-Tally n m (raised (cancelled step)) t = t
expired_total-Tally n m (raised (cancelled total)) t = t
expired_total-Tally n m (raised (cancelled outside)) t = t
expired_total-Tally n m (raised timed_out) t = t
expired_total-Tally n m (raised (refused msg)) t = t
expired_total-Tally n m (raised (os_error msg)) t = t
expired_total-Tally n m (raised (failure msg)) t = t

begun-Tally :
    (never : Bool) (w v : World) (r : Result (Option (ℤ × ℕ)))
    → Tally (responses w) r (responses v)
    → Tally
        (responses w)
        (if◌then◌else◌ {A = Result (Option (ℤ × ℕ)) × World} never (raised timed_out, w) (r, v)).0
        (responses
          (if◌then◌else◌ {A = Result (Option (ℤ × ℕ)) × World} never
            (raised timed_out, w)
            (r, v)).1)
begun-Tally true w v r t = (omega arith, omega arith)
begun-Tally false w v r t = t

-- An exception that is answered is counted once.
responses_of : Metrics → ℕ
responses_of m = sum m.response_total_by_class

counted_once :
    (upstream : Upstream) (e : Exception) (m : Metrics)
    → ((s : Scope) → e ≢ cancelled s)
    → sum (counted upstream e m).response_total_by_class ≡ sum m.response_total_by_class + 1
unfolding record_response_status record_timeout_error record_upstream_error
counted_once upstream timed_out m h = sum-bump (status_class (pos 504)) m.response_total_by_class
counted_once upstream (refused msg) m h =
    sum-bump (status_class (pos 502)) m.response_total_by_class
counted_once upstream (os_error msg) m h =
    sum-bump (status_class (pos 502)) m.response_total_by_class
counted_once upstream (cancelled s) m h = absurd (h s refl)
counted_once upstream (failure msg) m h =
    sum-bump (status_class (pos 502)) m.response_total_by_class

module _ (req : HttpRequest) (upstream : Upstream) where
  on_error-responses :
      (e : Exception) (v : World)
      → ((s : Scope) → e ≢ cancelled s)
      → responses (on_error req upstream e v).1 ≡ responses v + 1
  on_error-responses e v h =
      ap (λ q. sum q.1.response_total_by_class) (on_error-reply req upstream e v)
      ∙ counted_once upstream e v.metrics h

  on_error-Tally :
      (e : Exception) (v : World)
      → Tally (responses v) (on_error req upstream e v).0 (responses (on_error req upstream e v).1)
  unfolding on_error
  on_error-Tally timed_out v =
      Tally-counted _ _ (on_error req upstream timed_out v).0
        (λ x. on_error-ne-some req upstream x timed_out v)
        (on_error-responses timed_out v (λ s h. cc))
  on_error-Tally (refused msg) v =
      Tally-counted _ _ (on_error req upstream (refused msg) v).0
        (λ x. on_error-ne-some req upstream x (refused msg) v)
        (on_error-responses (refused msg) v (λ s h. cc))
  on_error-Tally (os_error msg) v =
      Tally-counted _ _ (on_error req upstream (os_error msg) v).0
        (λ x. on_error-ne-some req upstream x (os_error msg) v)
        (on_error-responses (os_error msg) v (λ s h. cc))
  on_error-Tally (cancelled s) v = (omega arith, omega arith)
  on_error-Tally (failure msg) v =
      Tally-counted _ _ (on_error req upstream (failure msg) v).0
        (λ x. on_error-ne-some req upstream x (failure msg) v)
        (on_error-responses (failure msg) v (λ s h. cc))

  handle-Tally :
      (n : ℕ) (r : Result (Option (ℤ × ℕ))) (v : World)
      → responses v ≡ n
      → r ≢ ok none
      → Tally n
          (handle (r, v) (on_error req upstream)).0
          (responses (handle (r, v) (on_error req upstream)).1)
  handle-Tally n (ok none) v same some_result = absurd (some_result refl)
  handle-Tally n (ok (some x)) v same some_result = same
  handle-Tally n (raised e) v same some_result =
      subst (λ k. Tally k (on_error req upstream e v).0 (responses (on_error req upstream e v).1))
        same (on_error-Tally e v)

pure-ne-none :
    (x : ℤ × ℕ) (v : World) {w : World}
    → ◌≢◌ {A = Result (Option (ℤ × ℕ)) × World} (ok (some x), v) (ok none, w)
pure-ne-none x v e = cc

module _ ⦃u : Unicode⦄ (settings : Settings) (req : HttpRequest) (upstream : Upstream) where
  -- The `try` returns a status and a size where it returns.
  pub exchange-ne-none : (w : World) → (exchange settings req upstream w).0 ≢ ok none
  unfolding exchange
  exchange-ne-none w e =
      let sending : Io (Unit {0}) =
        wait_for settings.timeout_policy.write_ms (write_to_upstream req) in
      let relaying : Io Progress = relay_response settings req upstream in
      let ending : Progress → Io (Option (ℤ × ℕ)) = λ p. client_drain >>= λ z. pure (finished p) in
      let whole : World = (exchange settings req upstream w).1 in
      let (a, v1, connected, e1) =
        >>=-eq-ok (connect settings upstream) (λ z. sending >>= λ z. relaying >>= ending) w
          (ap (λ r. (r, whole)) e) in
      let (b, v2, sent, e2) = >>=-eq-ok sending (λ z. relaying >>= ending) v1 e1 in
      let (p, v3, relayed, e3) = >>=-eq-ok relaying ending v2 e2 in
      let (c, v4, drained, e4) = >>=-eq-ok client_drain (λ z. pure (finished p)) v3 e3 in
      pure-ne-none (p.response_status, p.total_bytes) v4 e4

  responses-IsApart : IsApart responses
  unfolding record_timeout_error record_upstream_error
  responses-IsApart = record {
    aloof = record {
      timeless = λ w t s d. refl;
      from_client = λ w r. refl;
      to_client = λ w o. refl;
      from_upstream = λ w r. refl;
      to_upstream = λ w o. refl;
    };
    aside = record {
      timeless = λ w t s d. refl;
      limitless = λ w x s. refl;
      unmanaged = λ w x. refl;
    };
    linked = λ w b. refl;
    errors = λ w host port kind. refl;
    timeouts = λ w kind. refl;
  }

  proxy_internal-Tally :
      (w : World)
      → Tally
          (responses w)
          (proxy_internal settings req upstream w).0
          (responses (proxy_internal settings req upstream w).1)
  unfolding proxy_internal
  proxy_internal-Tally w =
      let tried : Result (Option (ℤ × ℕ)) × World = exchange settings req upstream w in
      let body : Result (Option (ℤ × ℕ)) × World = handle tried (on_error req upstream) in
      let closing : Result (Unit {0}) × World = close_if_connected body.1 in
      after-Tally (responses w) body.0 closing.0 closing.1 (
        subst (Tally (responses w) body.0)
          (sym (
            Fixes-close_if_connected_apart responses (IsApart-IsBeside responses responses-IsApart)
              body.1))
          (handle-Tally req upstream (responses w) tried.0 tried.1
            (Fixes-exchange responses responses-IsApart settings req upstream w)
            (exchange-ne-none w)))

  pub proxy_to_upstream-Tally :
      (w : World)
      → Tally
          (responses w)
          (proxy_to_upstream settings req upstream w).0
          (responses (proxy_to_upstream settings req upstream w).1)
  unfolding proxy_to_upstream wait_for_total
  proxy_to_upstream-Tally w =
      let armed : World = record w {
        total_deadline = some (w.now + settings.timeout_policy.total_ms);
      } in
      let inner : Result (Option (ℤ × ℕ)) × World = proxy_internal settings req upstream armed in
      begun-Tally (nat_beq settings.timeout_policy.total_ms 0) w
        (record inner.1 { total_deadline = none }) (expired_total inner.0)
        (expired_total-Tally (responses w) (responses inner.1) inner.0 (proxy_internal-Tally armed))
