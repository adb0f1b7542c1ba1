-- ===== src/Proxy/Exchange.antt =====
-- `_proxy_to_upstream_internal` as a whole, with its handlers, and `proxy_to_upstream`.
use mini_nginx.Common.{ℕ, suc, Option, none, some, ◌∷◌, ◌++◌, ℤ, pos, length, if◌then◌else◌}
use mini_nginx.Python.Text.{Text, codes, Unicode}
use mini_nginx.Python.Utf8.{encode}
use mini_nginx.Pool.{Upstream}
use mini_nginx.Metrics.{record_response_status, record_timeout_error, record_upstream_error}
use mini_nginx.Net.{
  Io, Exception, timed_out, refused, os_error, cancelled, failure, pure, raise, catch, finally,
  modify, suppress, ◌>>=◌, ◌>>◌, client_write, client_drain, close_upstream,
}
use mini_nginx.Net.Reading.{content}
use mini_nginx.Http.{HttpRequest, write_to_upstream, crlf}
use mini_nginx.Timeouts.{with_write_timeout, with_total_timeout}
use mini_nginx.Proxy.Connect.{Settings, connect}
use mini_nginx.Proxy.Relay.{Progress, begin, relay}

-- The text of an error response.
unfoldable pub error_response : Text → Text → Text → Text
error_response version status message =
    version
    ++ b' '
      ∷ (status
          ++ crlf
          ++ (codes "Content-Type: text/plain"
              ++ crlf
              ++ (codes "Connection: close" ++ crlf ++ (crlf ++ message))))

-- Writing an error response; an exception while it is drained is passed over.
unfoldable pub send_error : Text → Io (Unit {0})
unfolding encode client_drain
send_error response = catch (client_write (encode response) >> client_drain) suppress

-- What a handler counts before it answers.
abbrev pub count_status : ℕ → Io (Unit {0})
count_status status =
    modify (λ w. record w { metrics = record_response_status (pos status) w.metrics })

abbrev pub count_upstream_error : Upstream → Text → Io (Unit {0})
count_upstream_error upstream kind =
    modify
      (λ w. record w { metrics = record_upstream_error upstream.host upstream.port kind w.metrics })

abbrev pub bad_gateway : Upstream → Text → Text → Io (Unit {0})
bad_gateway upstream kind response =
    count_status 502 >> count_upstream_error upstream kind >> send_error response

-- The `except` clauses, in their order. The last one returns nothing where the others raise again.
unfoldable pub on_error : HttpRequest → Upstream → Exception → Io (Option (ℤ × ℕ))
unfolding record_response_status record_timeout_error record_upstream_error error_response
    send_error
on_error req upstream timed_out =
    count_status 504
    >> modify (λ w. record w { metrics = record_timeout_error (codes "total") w.metrics })
    >> send_error
        (error_response req.version (codes "504 Gateway Timeout") (codes "Upstream timeout"))
    >> raise timed_out
on_error req upstream (refused msg) =
    bad_gateway upstream (codes "connection_refused")
      (error_response req.version (codes "502 Bad Gateway") (codes "Upstream unavailable: " ++ msg))
    >> raise (refused msg)
on_error req upstream (os_error msg) =
    bad_gateway upstream (codes "other")
      (error_response req.version (codes "502 Bad Gateway") (codes "Upstream unavailable: " ++ msg))
    >> raise (os_error msg)
on_error req upstream (cancelled s) = raise (cancelled s)
on_error req upstream (failure msg) =
    bad_gateway upstream (codes "other")
      (error_response req.version (codes "502 Bad Gateway") (codes "Upstream error: " ++ msg))
    >> pure none

abbrev pub finished : Progress → Option (ℤ × ℕ)
finished p = some (p.response_status, p.total_bytes)

-- `finally`: the connection is closed if it has been opened.
unfoldable pub close_if_connected : Io (Unit {0})
unfolding close_upstream
close_if_connected w = (if w.connected then close_upstream else pure tt) w

module _ ⦃u : Unicode⦄ (settings : Settings) (req : HttpRequest) (upstream : Upstream) where
  -- Each byte that is left of the response is one round at most.
  unfoldable pub relay_response : Io Progress
  unfolding relay
  relay_response w =
      relay (suc (length (content w.upstream_in))) settings.timeout_policy upstream begin w

  -- The body of the `try`. The handler round the sending only logs and raises again.
  unfoldable pub exchange : Io (Option (ℤ × ℕ))
  unfolding connect write_to_upstream relay_response client_drain
  exchange = do
    connect settings upstream
    with_write_timeout settings.timeout_policy (write_to_upstream req)
    progress ← relay_response
    client_drain
    pure (finished progress)

  unfoldable pub proxy_internal : Io (Option (ℤ × ℕ))
  unfolding exchange on_error close_if_connected
  proxy_internal = finally (catch exchange (on_error req upstream)) close_if_connected

  unfoldable pub proxy_to_upstream : Io (Option (ℤ × ℕ))
  unfolding proxy_internal
  proxy_to_upstream = with_total_timeout settings.timeout_policy proxy_internal
