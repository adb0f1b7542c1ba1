-- ===== src/Proxy/Endings.antt =====
-- How a request ends that is not proxied successfully, and that the connection is closed.
use mini_nginx.Common.{ℕ, ◌≡◌, refl, sym, ap, ◌∙◌, Option, none, ℤ, pos, ◌++◌, [], append-nil}
use mini_nginx.Python.Text.{Text, Unicode, codes}
use mini_nginx.Python.Utf8.{Bytes, encode}
use mini_nginx.Pool.{Upstream}
use mini_nginx.Metrics.{
  Metrics, record_response_status, record_timeout_error, record_upstream_error,
}
use mini_nginx.Net.{
  World, Io, ok, raised, Result, Exception, timed_out, refused, os_error, cancelled, failure, catch,
  resume, suppress, client_write, client_drain,
}
use mini_nginx.Net.Binds.{catch-raised}
use mini_nginx.Net.Frames.{Fixes-catch, Fixes-suppress, Fixes-client_drain, after-world}
use mini_nginx.Http.{HttpRequest}
use mini_nginx.Http.Sent.{later_drains-written}
use mini_nginx.Proxy.Connect.{Settings}
use mini_nginx.Proxy.Success.{Fixes-close_if_connected}
use mini_nginx.Proxy.Exchange.{
  error_response, send_error, on_error, close_if_connected, exchange, proxy_internal,
}

-- What an exception makes of the reply: the error response of its kind, or nothing.
abbrev pub answer : HttpRequest → Exception → Bytes
answer req timed_out =
    encode (error_response req.version (codes "504 Gateway Timeout") (codes "Upstream timeout"))
answer req (refused msg) =
    encode
      (error_response req.version (codes "502 Bad Gateway") (codes "Upstream unavailable: " ++ msg))
answer req (os_error msg) =
    encode
      (error_response req.version (codes "502 Bad Gateway") (codes "Upstream unavailable: " ++ msg))
answer req (cancelled s) = []
answer req (failure msg) =
    encode (error_response req.version (codes "502 Bad Gateway") (codes "Upstream error: " ++ msg))

-- What it makes of the counters.
abbrev pub counted : Upstream → Exception → Metrics → Metrics
counted up timed_out m = record_timeout_error (codes "total") (record_response_status (pos 504) m)
counted up (refused msg) m =
    record_upstream_error up.host up.port (codes "connection_refused")
      (record_response_status (pos 502) m)
counted up (os_error msg) m =
    record_upstream_error up.host up.port (codes "other") (record_response_status (pos 502) m)
counted up (cancelled s) m = m
counted up (failure msg) m =
    record_upstream_error up.host up.port (codes "other") (record_response_status (pos 502) m)

-- The reply and the counters.
abbrev pub reply : World → Bytes × Metrics
reply w = (w.client_out.written, w.metrics)

pub resume-world :
    {A B : Type 0} (p : Result A × World) (r : Result B) → (resume p (λ z w. (r, w))).1 ≡ p.1
resume-world (ok a, w) r = refl
resume-world (raised e, w) r = refl

send_error-reply :
    (response : Text) (v : World)
    → reply (send_error response v).1 ≡ (v.client_out.written ++ encode response, v.metrics)
unfolding send_error
send_error-reply response v =
    Fixes-catch reply client_drain suppress
      (Fixes-client_drain reply (λ w t s d. refl)
        (λ w. ap (λ b. (b, w.metrics)) (later_drains-written w.client_out)))
      (Fixes-suppress reply) (client_write (encode response) v).1

-- The response, sent where `m` has been counted, and an outcome behind it.
sent_then :
    {B : Type 0} (r : Result B) (response : Text) (m : Metrics) (v : World)
    → reply (resume (send_error response (record v { metrics = m })) (λ z w. (r, w))).1
      ≡ (v.client_out.written ++ encode response, m)
sent_then r response m v =
    ap reply (resume-world (send_error response (record v { metrics = m })) r)
    ∙ send_error-reply response (record v { metrics = m })

abbrev pub Reported : Type 0
Reported = Option (ℤ × ℕ)

pub on_error-reply :
    (req : HttpRequest) (upstream : Upstream) (e : Exception) (v : World)
    → reply (on_error req upstream e v).1
      ≡ (v.client_out.written ++ answer req e, counted upstream e v.metrics)
unfolding on_error
on_error-reply req upstream timed_out v =
    sent_then {B = Reported} (raised timed_out)
      (error_response req.version (codes "504 Gateway Timeout") (codes "Upstream timeout"))
      (counted upstream timed_out v.metrics) v
on_error-reply req upstream (refused msg) v =
    sent_then {B = Reported} (raised (refused msg))
      (error_response req.version (codes "502 Bad Gateway") (codes "Upstream unavailable: " ++ msg))
      (counted upstream (refused msg) v.metrics) v
on_error-reply req upstream (os_error msg) v =
    sent_then {B = Reported} (raised (os_error msg))
      (error_response req.version (codes "502 Bad Gateway") (codes "Upstream unavailable: " ++ msg))
      (counted upstream (os_error msg) v.metrics) v
on_error-reply req upstream (cancelled s) v =
    ap (λ b. (b, v.metrics)) (sym (append-nil v.client_out.written))
on_error-reply req upstream (failure msg) v =
    sent_then {B = Reported} (ok none)
      (error_response req.version (codes "502 Bad Gateway") (codes "Upstream error: " ++ msg))
      (counted upstream (failure msg) v.metrics) v

module _ ⦃u : Unicode⦄ (settings : Settings) (req : HttpRequest) (upstream : Upstream) where
  -- Where the `try` of the proxying fails with an exception, the client is sent that exception's error
  -- response behind what it has been sent already, and nothing else, and the counters of that error
  -- are raised; a cancellation sends and counts nothing.
  pub proxy_internal-answers :
      (e : Exception) (w v : World)
      → exchange settings req upstream w ≡ (raised e, v)
      → reply (proxy_internal settings req upstream w).1
        ≡ (v.client_out.written ++ answer req e, counted upstream e v.metrics)
  unfolding proxy_internal
  proxy_internal-answers e w v failed =
      let body : Io (Option (ℤ × ℕ)) =
        catch (exchange settings req upstream) (on_error req upstream) in
      let closing : Result (Unit {0}) × World = close_if_connected (body w).1 in
      ap reply (after-world reply (body w).0 closing.0 closing.1)
      ∙ Fixes-close_if_connected reply (λ w t s d. refl) (λ w. refl) (body w).1
      ∙ ap (λ p. reply p.1)
          (catch-raised (exchange settings req upstream) (on_error req upstream) w failed)
      ∙ on_error-reply req upstream e v
