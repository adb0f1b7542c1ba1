-- ===== src/Http/Aloof.antt =====
-- Sending a request changes nothing but the clock and the streams.
use mini_nginx.Common.{
  ℕ, zero, suc, ◌-◌, refl, Bool, true, false, Option, none, some, [], ◌∷◌, Dict, length, min,
  if◌then◌else◌, pos_part, ltb, ℤ, get_or, nat_eq, list_eq,
}
use mini_nginx.Python.Text.{Text, Unicode, codes}
use mini_nginx.Python.Number.{int}
use mini_nginx.Python.Utf8.{Bytes, encode}
use mini_nginx.Net.{World, Io, ◌>>=◌, ◌>>◌, pure, client_read, upstream_write, upstream_drain}
use mini_nginx.Net.Frames.{Fixes, Fixes->>=, Fixes-if}
use mini_nginx.Net.Aloof.{
  IsAloof, Fixes-client_read, Fixes-upstream_write, Fixes-upstream_drain_aloof,
}
use mini_nginx.Net.Reading.{content}
use mini_nginx.Http.{
  HttpRequest, is_empty, crlf, start_line, header_line, headers_to_send, write_headers, has_body,
  chunk_size, send_chunk, stream_exact, stream_all, stream_from, stream_body, write_to_upstream,
}

module _ {X : Type 0} (f : World → X) (h : IsAloof f) where
  Fixes-send_chunk :
      (chunk : Bytes) (next : Io (Unit {0})) → Fixes f next → Fixes f (send_chunk chunk next)
  unfolding send_chunk
  Fixes-send_chunk [] next k = λ w. refl
  Fixes-send_chunk (b ∷ bytes) next k =
      Fixes->>= f (upstream_write (b ∷ bytes) >> upstream_drain) (λ x. next)
        (Fixes->>= f (upstream_write (b ∷ bytes)) (λ x. upstream_drain)
          (Fixes-upstream_write f h (b ∷ bytes)) (λ x. Fixes-upstream_drain_aloof f h))
        (λ x. k)

  guarded :
      (b : Bool) (m : Io (Unit {0})) → Fixes f m → Fixes f (elim b [ false ↦ pure tt | true ↦ m ])
  guarded true m k = k
  guarded false m k = λ w. refl

  Fixes-stream_exact : (fuel remaining : ℕ) → Fixes f (stream_exact fuel remaining)
  unfolding stream_exact
  Fixes-stream_exact zero remaining w = refl
  Fixes-stream_exact (suc fuel) remaining w =
      guarded (ltb 0 remaining)
        (client_read (min chunk_size remaining) >>= λ chunk.
          send_chunk chunk (stream_exact fuel (remaining - length chunk)))
        (Fixes->>= f (client_read (min chunk_size remaining))
          (λ chunk. send_chunk chunk (stream_exact fuel (remaining - length chunk)))
          (Fixes-client_read f h (min chunk_size remaining))
          (λ chunk.
            Fixes-send_chunk chunk (stream_exact fuel (remaining - length chunk))
              (Fixes-stream_exact fuel (remaining - length chunk))))
        w

  Fixes-stream_all : (fuel : ℕ) → Fixes f (stream_all fuel)
  unfolding stream_all
  Fixes-stream_all zero = λ w. refl
  Fixes-stream_all (suc fuel) =
      Fixes->>= f (client_read chunk_size) (λ chunk. send_chunk chunk (stream_all fuel))
        (Fixes-client_read f h chunk_size)
        (λ chunk. Fixes-send_chunk chunk (stream_all fuel) (Fixes-stream_all fuel))

  Fixes-stream_from : (empty : Bool) (size : Option ℤ) → Fixes f (stream_from empty size)
  unfolding stream_from
  Fixes-stream_from true size w = Fixes-stream_all (suc (length (content w.client_in))) w
  Fixes-stream_from false none w = refl
  Fixes-stream_from false (some n) w = Fixes-stream_exact (pos_part n) (pos_part n) w

  module _ ⦃u : Unicode⦄ where
    Fixes-write_headers : (headers : Dict Text Text) → Fixes f (write_headers headers)
    unfolding write_headers
    Fixes-write_headers [] = λ w. refl
    Fixes-write_headers (header ∷ headers) =
        Fixes->>= f (upstream_write (encode (header_line header))) (λ x. write_headers headers)
          (Fixes-upstream_write f h (encode (header_line header)))
          (λ x. Fixes-write_headers headers)

    Fixes-stream_body : (req : HttpRequest) → Fixes f (stream_body req)
    unfolding stream_body
    Fixes-stream_body req w =
        Fixes-stream_from (is_empty (get_or req.headers (codes "content-length") []))
          (int (get_or req.headers (codes "content-length") [])) w

    pub Fixes-write_to_upstream : (req : HttpRequest) → Fixes f (write_to_upstream req)
    unfolding write_to_upstream
    Fixes-write_to_upstream req =
        let body : Io (Unit {0}) = if has_body req then stream_body req else pure tt in
        let tail : Io (Unit {0}) = body >>= λ x. upstream_drain in
        Fixes->>= f (upstream_write (encode (start_line req)))
          (λ x. write_headers (headers_to_send req) >>= λ y.
            upstream_write crlf >>= λ y. upstream_drain >>= λ z. tail)
          (Fixes-upstream_write f h (encode (start_line req)))
          (λ x.
            Fixes->>= f (write_headers (headers_to_send req))
              (λ y. upstream_write crlf >>= λ y. upstream_drain >>= λ z. tail)
              (Fixes-write_headers (headers_to_send req))
              (λ x.
                Fixes->>= f (upstream_write crlf) (λ y. upstream_drain >>= λ z. tail)
                  (Fixes-upstream_write f h crlf)
                  (λ x.
                    Fixes->>= f upstream_drain (λ z. tail) (Fixes-upstream_drain_aloof f h)
                      (λ x.
                        Fixes->>= f body (λ x. upstream_drain)
                          (Fixes-if f (has_body req) (stream_body req) (pure tt)
                            (Fixes-stream_body req) (λ w. refl))
                          (λ x. Fixes-upstream_drain_aloof f h)))))
