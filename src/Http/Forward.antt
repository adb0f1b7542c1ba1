-- ===== src/Http/Forward.antt =====
-- What `write_to_upstream` sends: the head of the request, then its body.
use mini_nginx.Common.{
  suc, ◌≡◌, sym, subst, true, false, [], ◌∷◌, ◌++◌, append-nil, arith, length, take, get_or, nat_eq,
  list_eq, if◌then◌else◌, none, some, pos_part, Bool, Option, ℤ, Dict,
}
use mini_nginx.Python.Utf8.{Bytes}
use mini_nginx.Net.{World, Io, ok, pure, ◌>>=◌, upstream_write, upstream_drain}
use mini_nginx.Net.Binds.{>>=-eq-ok}
use mini_nginx.Net.Reading.{content}
use mini_nginx.Python.Text.{Text, codes, Unicode}
use mini_nginx.Python.Utf8.{encode}
use mini_nginx.Python.Number.{int}
use mini_nginx.Http.{
  HttpRequest, is_empty, header_line, write_headers, has_body, stream_from, stream_body,
  write_to_upstream, start_line, headers_to_send, crlf,
}
use mini_nginx.Http.Body.{nothing-Sent, stream_exact-Sent, stream_all-Sent}
use mini_nginx.Http.Sent.{Sent, Sent-append, write-Sent, drain-Sent}

-- The part of the stream that the two loops send.
abbrev pub body_from : Bool → Option ℤ → Bytes → Bytes
body_from true size stream = stream
body_from false none stream = []
body_from false (some n) stream = take (pos_part n) stream

stream_from-Sent :
    (empty : Bool) (size : Option ℤ) (w w' : World)
    → stream_from empty size w ≡ (ok tt, w')
    → Sent
        (body_from empty size (content w.client_in))
        (body_from empty size (content w.client_in))
        w
        w'
unfolding stream_from
stream_from-Sent true size w w' e =
    stream_all-Sent (suc (length (content w.client_in))) w w' (omega arith) e
stream_from-Sent false none w w' e = cc
stream_from-Sent false (some n) w w' e =
    stream_exact-Sent (pos_part n) (pos_part n) w w' (omega arith) e

-- The body that belongs to a request, given what the client's stream holds: none, the declared
-- number of bytes, or all.
abbrev pub optional : Bool → Bytes → Bytes
optional true bytes = bytes
optional false bytes = []

optional-Sent :
    (b : Bool) (m : Io (Unit {0})) (bytes : Bytes) (w w' : World)
    → (m w ≡ (ok tt, w') → Sent bytes bytes w w')
    → (if b then m else pure tt) w ≡ (ok tt, w')
    → Sent (optional b bytes) (optional b bytes) w w'
optional-Sent true m bytes w w' h e = h e
optional-Sent false m bytes w w' h e = subst (Sent [] [] w) (cc e) (nothing-Sent w)

module _ ⦃u : Unicode⦄ where
  abbrev pub body_of : HttpRequest → Bytes → Bytes
  body_of req stream =
      let content_length = get_or req.headers (codes "content-length") [] in
      optional (has_body req) (body_from (is_empty content_length) (int content_length) stream)

  -- The bytes of the header block.
  abbrev pub header_bytes : Dict Text Text → Bytes
  header_bytes [] = []
  header_bytes (header ∷ headers) = encode (header_line header) ++ header_bytes headers

  write_headers-Sent :
      (headers : Dict Text Text) (w w' : World)
      → write_headers headers w ≡ (ok tt, w')
      → Sent (header_bytes headers) [] w w'
  unfolding write_headers
  write_headers-Sent [] w w' e = subst (Sent [] [] w) (cc e) (nothing-Sent w)
  write_headers-Sent (header ∷ headers) w w' e =
      let line : Bytes = encode (header_line header) in
      let v : World = (upstream_write line w).1 in
      Sent-append line [] (header_bytes headers) [] w v w' (write-Sent line w)
        (write_headers-Sent headers v w' e)

  body-Sent :
      (req : HttpRequest) (w w' : World)
      → (if has_body req then stream_body req else pure tt) w ≡ (ok tt, w')
      → Sent (body_of req (content w.client_in)) (body_of req (content w.client_in)) w w'
  unfolding stream_body
  body-Sent req w w' e =
      let content_length = get_or req.headers (codes "content-length") [] in
      optional-Sent (has_body req) (stream_body req)
        (body_from (is_empty content_length) (int content_length) (content w.client_in)) w w'
        (stream_from-Sent (is_empty content_length) (int content_length) w w') e

  -- The head of the request that goes to the upstream.
  abbrev pub head_bytes : HttpRequest → Bytes
  head_bytes req = encode (start_line req) ++ (header_bytes (headers_to_send req) ++ crlf)

  head-Sent :
      (req : HttpRequest) (w v : World)
      → write_headers (headers_to_send req) (upstream_write (encode (start_line req)) w).1
        ≡ (ok tt, v)
      → Sent (head_bytes req) [] w (upstream_write crlf v).1
  head-Sent req w v e =
      let begun : World = (upstream_write (encode (start_line req)) w).1 in
      Sent-append (encode (start_line req)) [] (header_bytes (headers_to_send req) ++ crlf) [] w
        begun (upstream_write crlf v).1 (write-Sent (encode (start_line req)) w)
        (Sent-append (header_bytes (headers_to_send req)) [] crlf [] begun v
          (upstream_write crlf v).1 (write_headers-Sent (headers_to_send req) begun v e)
          (write-Sent crlf v))

  -- Where `write_to_upstream` ends well, the upstream has been sent the start line, the headers with
  -- an empty line behind them, and then the body of the request: none, the declared number of bytes
  -- or all that is left of the client's stream, unchanged and taken from that stream, in whatever
  -- parts it arrived. The rest of the stream stays there, and the reply to the client, the
  -- counters, the limits and the pool are as before.
  pub write_to_upstream-Sent :
      (req : HttpRequest) (w w' : World)
      → write_to_upstream req w ≡ (ok tt, w')
      → Sent
          (head_bytes req ++ body_of req (content w.client_in))
          (body_of req (content w.client_in))
          w
          w'
  unfolding write_to_upstream
  write_to_upstream-Sent req w w' e =
      let begun : World = (upstream_write (encode (start_line req)) w).1 in
      let body : Io (Unit {0}) = if has_body req then stream_body req else pure tt in
      let tail : Io (Unit {0}) = body >>= λ x. upstream_drain in
      let (a, v, wrote, e1) =
        >>=-eq-ok (write_headers (headers_to_send req))
          (λ x. upstream_write crlf >>= λ y. upstream_drain >>= λ z. tail) begun e in
      let ended : World = (upstream_write crlf v).1 in
      let (b, x, drained, e2) = >>=-eq-ok upstream_drain (λ z. tail) ended e1 in
      let (c, y, streamed, e3) = >>=-eq-ok body (λ z. upstream_drain) x e2 in
      let head : Sent (head_bytes req) [] w ended = head-Sent req w v wrote in
      let before : Sent (head_bytes req) [] w x =
        subst (λ h. Sent h [] w x) (append-nil (head_bytes req))
          (Sent-append (head_bytes req) [] [] [] w ended x head (drain-Sent ended x drained)) in
      let stream : Bytes = content w.client_in in
      let sent : Sent (body_of req stream) (body_of req stream) x y =
        subst (λ s. Sent (body_of req s) (body_of req s) x y) (sym before.taken)
          (body-Sent req x y streamed) in
      let whole : Sent (body_of req stream) (body_of req stream) x w' =
        subst (λ s. Sent s s x w') (append-nil (body_of req stream))
          (Sent-append (body_of req stream) (body_of req stream) [] [] x y w' sent
            (drain-Sent y w' e3)) in
      Sent-append (head_bytes req) [] (body_of req stream) (body_of req stream) w x w' before whole
