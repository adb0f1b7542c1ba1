-- ===== src/Proxy/Closing.antt =====
-- The connection to the upstream server is closed at the end of a request.
use mini_nginx.Common.{
  none, some, ◌+◌, ℕ, ◌≡◌, refl, sym, subst, Bool, true, false, if◌then◌else◌, nat_beq, ℤ, Option,
}
use mini_nginx.Python.Text.{Unicode}
use mini_nginx.Pool.{Upstream}
use mini_nginx.Net.{
  World, Io, Result, raised, ◌>>◌, catch, suppress, wait, ends_with, close_upstream, pure,
  timed_out,
}
use mini_nginx.Net.Frames.{
  Fixes-catch, Fixes-suppress, Fixes->>=, Fixes-wait, Fixes-ends_with, after-world,
}
use mini_nginx.Http.{HttpRequest}
use mini_nginx.Timeouts.{wait_for_total, expired_total}
use mini_nginx.Proxy.Connect.{Settings}
use mini_nginx.Proxy.Exchange.{
  on_error, close_if_connected, exchange, proxy_internal, proxy_to_upstream,
}

-- No connection is left open.
abbrev pub IsTidy : World → Type 0
IsTidy w = w.connected ≡ true → w.upstream_out.closed ≡ true

pub closed_lem : (w : World) → (close_upstream w).1.upstream_out.closed ≡ true
unfolding close_upstream
closed_lem w =
    let shown : World → Bool = λ v. v.upstream_out.closed in
    let d : ℕ = w.upstream_out.closing.0 in
    let o = w.upstream_out.closing.1 in
    Fixes-catch shown (wait d >> ends_with o) suppress
      (Fixes->>= shown (wait d) (λ x. ends_with o) (Fixes-wait shown (λ w t s d. refl) d)
        (λ x. Fixes-ends_with shown o))
      (Fixes-suppress shown) (record w { upstream_out = record w.upstream_out { closed = true } })

chosen :
    (b : Bool) (w : World) → w.connected ≡ b → IsTidy ((if b then close_upstream else pure tt) w).1
chosen true w h = λ k. closed_lem w
chosen false w h = λ k. cc

close_if_connected-IsTidy : (w : World) → IsTidy (close_if_connected w).1
unfolding close_if_connected
close_if_connected-IsTidy w = chosen w.connected w refl

begun :
    {A : Type 0} (never : Bool) (w v : World) (r : Result A)
    → IsTidy w
    → IsTidy v
    → IsTidy (if◌then◌else◌ {A = Result A × World} never (raised timed_out, w) (r, v)).1
begun true w v r h k = h
begun false w v r h k = k

module _ ⦃u : Unicode⦄ (settings : Settings) (req : HttpRequest) (upstream : Upstream) where
  proxy_internal-IsTidy : (w : World) → IsTidy (proxy_internal settings req upstream w).1
  unfolding proxy_internal
  proxy_internal-IsTidy w =
      let body : Io (Option (ℤ × ℕ)) =
        catch (exchange settings req upstream) (on_error req upstream) in
      let closing : Result (Unit {0}) × World = close_if_connected (body w).1 in
      subst IsTidy (sym (after-world (λ x. x) (body w).0 closing.0 closing.1))
        (close_if_connected-IsTidy (body w).1)

  -- A request that begins without an open connection ends without one, on every outcome: a connection
  -- that it has opened is closed.
  pub proxy_to_upstream-IsTidy :
      (w : World) → IsTidy w → IsTidy (proxy_to_upstream settings req upstream w).1
  unfolding proxy_to_upstream wait_for_total
  proxy_to_upstream-IsTidy w tidy =
      let inner : Result (Option (ℤ × ℕ)) × World =
        proxy_internal settings req upstream
          (record w { total_deadline = some (w.now + settings.timeout_policy.total_ms) }) in
      begun (nat_beq settings.timeout_policy.total_ms 0) w
        (record inner.1 { total_deadline = none }) (expired_total inner.0) tidy
        (proxy_internal-IsTidy
          (record w { total_deadline = some (w.now + settings.timeout_policy.total_ms) }))
