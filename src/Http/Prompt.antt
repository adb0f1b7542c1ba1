-- ===== src/Http/Prompt.antt =====
-- On a network that is quick enough the whole request is sent.
use mini_nginx.Common.{
  ℕ, zero, suc, ◌-◌, ◌<◌, ◌≡◌, ◌≢◌, refl, sym, ap, ◌∙◌, Bool, true, false, Option, none, some, [],
  ◌∷◌, Dict, arith, length, length-append, min, if◌then◌else◌, pos_part, ltb, ℤ, get_or, nat_eq,
  list_eq, not,
}
use mini_nginx.Python.Text.{Text, Unicode, codes}
use mini_nginx.Python.Number.{int}
use mini_nginx.Python.Utf8.{Bytes, encode}
use mini_nginx.Net.{World, Io, ok, ◌>>=◌, ◌>>◌, pure, client_read, upstream_write, upstream_drain}
use mini_nginx.Net.Reading.{content, client_read-ok}
use mini_nginx.Net.Prompt.{Delays, IsPrompt, Succeeds, Succeeds->>=}
use mini_nginx.Net.Prompt.Streams.{client_read-Succeeds, upstream_drain-Succeeds}
use mini_nginx.Net.Frames.{Fixes-upstream_drain}
use mini_nginx.Http.{
  HttpRequest, is_empty, crlf, start_line, header_line, headers_to_send, write_headers, has_body,
  positive, chunk_size, send_chunk, stream_exact, stream_all, stream_from, stream_body,
  write_to_upstream,
}

-- Writing and draining leave the client's stream alone.
put_chunk-client :
    (chunk : Bytes) (w v : World)
    → (upstream_write chunk >> upstream_drain) w ≡ (ok tt, v)
    → v.client_in ≡ w.client_in
put_chunk-client chunk w v e =
    sym (ap (λ q. q.1.client_in) e)
    ∙ Fixes-upstream_drain (λ x. x.client_in) (λ x t s d. refl) (λ x. refl)
        (upstream_write chunk w).1

cons-ne : (b : ℕ) (bytes : Bytes) → b ∷ bytes ≢ []
cons-ne b bytes e = cc

pub some-length : (chunk : Bytes) → chunk ≢ [] → 0 < length chunk
some-length [] h = absurd (h refl)
some-length (b ∷ bytes) h = omega arith

true-ne-false : true ≢ false
true-ne-false e = cc

module _ (t : Delays) (left : ℕ) where
  send_chunk-Succeeds :
      (chunk : Bytes) (next : Io (Unit {0})) (w : World)
      → IsPrompt t left w
      → (chunk ≢ []
          → (v : World) → v.client_in ≡ w.client_in
          → IsPrompt t left v
          → Succeeds t left next v)
      → Succeeds t left (send_chunk chunk next) w
  unfolding send_chunk
  send_chunk-Succeeds [] next w p k = (tt, w, refl, p)
  send_chunk-Succeeds (b ∷ bytes) next w p k =
      let written : World = (upstream_write (b ∷ bytes) w).1 in
      Succeeds->>= t left left (upstream_write (b ∷ bytes) >> upstream_drain) (λ x. next) w
        (Succeeds->>= t left left (upstream_write (b ∷ bytes)) (λ x. upstream_drain) w
          (tt, written, refl, p) (λ x v e q. upstream_drain-Succeeds t left v q))
        (λ x v e q. k (cons-ne b bytes) v (put_chunk-client (b ∷ bytes) w v e) q)

  guarded :
      (b : Bool) (m : Io (Unit {0})) (w : World)
      → IsPrompt t left w
      → Succeeds t left m w
      → Succeeds t left (elim b as (λ x. Io (Unit {0})) [ false ↦ pure tt | true ↦ m ]) w
  guarded true m w p h = h
  guarded false m w p h = (tt, w, refl, p)

  stream_exact-Succeeds :
      (fuel remaining : ℕ) (w : World)
      → IsPrompt t left w
      → Succeeds t left (stream_exact fuel remaining) w
  unfolding stream_exact
  stream_exact-Succeeds zero remaining w p = (tt, w, refl, p)
  stream_exact-Succeeds (suc fuel) remaining w p =
      guarded (ltb 0 remaining)
        (client_read (min chunk_size remaining) >>= λ chunk.
          send_chunk chunk (stream_exact fuel (remaining - length chunk)))
        w p
        (Succeeds->>= t left left (client_read (min chunk_size remaining))
          (λ chunk. send_chunk chunk (stream_exact fuel (remaining - length chunk))) w
          (client_read-Succeeds t left (min chunk_size remaining) w p)
          (λ chunk v e q.
            send_chunk-Succeeds chunk (stream_exact fuel (remaining - length chunk)) v q
              (λ some_bytes x from q'. stream_exact-Succeeds fuel (remaining - length chunk) x q')))

  stream_all-Succeeds :
      (fuel : ℕ) (w : World)
      → length (content w.client_in) < fuel
      → IsPrompt t left w
      → Succeeds t left (stream_all fuel) w
  unfolding stream_all
  stream_all-Succeeds zero w h p = absurd (omega arith)
  stream_all-Succeeds (suc fuel) w h p =
      Succeeds->>= t left left (client_read chunk_size)
        (λ chunk. send_chunk chunk (stream_all fuel)) w (client_read-Succeeds t left chunk_size w p)
        (λ chunk v e q.
          let (t, r, same, taken) = client_read-ok chunk_size w v chunk e in
          send_chunk-Succeeds chunk (stream_all fuel) v q (λ some_bytes x from q'.
            stream_all-Succeeds fuel x
              (omega (
                arith,
                some-length chunk some_bytes,
                length-append chunk (content r),
                ap length taken.split,
                ap (λ (z : World). length (content z.client_in)) same,
                ap (λ z. length (content z)) from,
              ))
              q'))

  stream_from-Succeeds :
      (empty : Bool) (size : Option ℤ) (w : World)
      → (empty ≡ false → size ≢ none)
      → IsPrompt t left w
      → Succeeds t left (stream_from empty size) w
  unfolding stream_from
  stream_from-Succeeds true size w h p =
      stream_all-Succeeds (suc (length (content w.client_in))) w (omega arith) p
  stream_from-Succeeds false none w h p = absurd (h refl refl)
  stream_from-Succeeds false (some n) w h p = stream_exact-Succeeds (pos_part n) (pos_part n) w p

  optional-Succeeds :
      (b : Bool) (m : Io (Unit {0})) (w : World)
      → IsPrompt t left w
      → (b ≡ true → Succeeds t left m w)
      → Succeeds t left (if b then m else pure tt) w
  optional-Succeeds true m w p h = h refl
  optional-Succeeds false m w p h = (tt, w, refl, p)

  module _ ⦃u : Unicode⦄ where
    -- A request has a body only if a `content-length` that it has is a number.
    has_body_from-number :
        (empty : Bool) (size : Option ℤ) (rest : Bool)
        → (if not empty then positive size else rest) ≡ true
        → empty ≡ false
        → size ≢ none
    unfolding positive
    has_body_from-number true size rest h e = absurd (true-ne-false e)
    has_body_from-number false none rest h e = absurd (true-ne-false (sym h))
    has_body_from-number false (some n) rest h e = λ z. cc

    write_headers-Succeeds :
        (headers : Dict Text Text) (w : World)
        → IsPrompt t left w
        → Succeeds t left (write_headers headers) w
    unfolding write_headers
    write_headers-Succeeds [] w p = (tt, w, refl, p)
    write_headers-Succeeds (header ∷ headers) w p =
        write_headers-Succeeds headers (upstream_write (encode (header_line header)) w).1 p

    body-Succeeds :
        (req : HttpRequest) (w : World)
        → IsPrompt t left w
        → Succeeds t left (if has_body req then stream_body req else pure tt) w
    unfolding has_body stream_body
    body-Succeeds req w p =
        let content_length = get_or req.headers (codes "content-length") [] in
        optional-Succeeds (has_body req) (stream_body req) w p (λ h.
          stream_from-Succeeds (is_empty content_length) (int content_length) w
            (has_body_from-number (is_empty content_length) (int content_length) _ h) p)

    -- On a network that is quick enough `write_to_upstream` succeeds.
    pub write_to_upstream-Succeeds :
        (req : HttpRequest) (w : World)
        → IsPrompt t left w
        → Succeeds t left (write_to_upstream req) w
    unfolding write_to_upstream
    write_to_upstream-Succeeds req w p =
        let body : Io (Unit {0}) = if has_body req then stream_body req else pure tt in
        let tail : Io (Unit {0}) = body >>= λ x. upstream_drain in
        let begun : World = (upstream_write (encode (start_line req)) w).1 in
        Succeeds->>= t left left (write_headers (headers_to_send req))
          (λ y. upstream_write crlf >>= λ y. upstream_drain >>= λ z. tail) begun
          (write_headers-Succeeds (headers_to_send req) begun p)
          (λ x v e q.
            Succeeds->>= t left left upstream_drain (λ z. tail) (upstream_write crlf v).1
              (upstream_drain-Succeeds t left (upstream_write crlf v).1 q)
              (λ x v e q.
                Succeeds->>= t left left body (λ x. upstream_drain) v (body-Succeeds req v q)
                  (λ x v e q. upstream_drain-Succeeds t left v q)))
