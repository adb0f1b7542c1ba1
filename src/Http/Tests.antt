-- ===== src/Http/Tests.antt =====
-- A run of the sending, and its theorem at it.
use mini_nginx.Common.{◌≡◌, refl, ◌++◌, ◌∷◌}
use mini_nginx.Python.Text.{codes}
use mini_nginx.Net.{World, ok}
use mini_nginx.Net.Reading.{content}
use mini_nginx.Samples.{ascii, parsed, request}
use mini_nginx.Http.Headers.{Forwarded, headers_to_send-Forwarded}
use mini_nginx.Http.{headers_to_send, write_to_upstream}
use mini_nginx.Http.Sent.{Sent}
use mini_nginx.Http.Forward.{head_bytes, body_of, write_to_upstream-Sent}

abbrev sent : World
sent = (write_to_upstream request parsed).1

sent-ok : write_to_upstream request parsed ≡ (ok tt, sent)
unfolding write_to_upstream
sent-ok = refl

write_to_upstream-Sent_example :
    Sent
      (head_bytes request ++ body_of request (content parsed.client_in))
      (body_of request (content parsed.client_in))
      parsed
      sent
write_to_upstream-Sent_example = write_to_upstream-Sent request parsed sent sent-ok

sent_bytes :
    sent.upstream_out.written
    ≡ codes "POST /a HTTP/1.1"
      ++ 13 ∷ 10 ∷ codes "Content-Length: 2"
      ++ 13 ∷ 10 ∷ codes "Connection: close"
      ++ 13 ∷ 10 ∷ codes "X-Trace-Id: t1"
      ++ 13 ∷ 10 ∷ 13 ∷ 10 ∷ codes "hi"
unfolding write_to_upstream
sent_bytes = refl

headers_to_send-Forwarded_example : Forwarded request (headers_to_send request)
headers_to_send-Forwarded_example = headers_to_send-Forwarded request
