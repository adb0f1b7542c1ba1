-- ===== src/Http/Body.antt =====
-- The body that `write_to_upstream` forwards.
use mini_nginx.Common.{
  ℕ, zero, suc, ◌+◌, ◌-◌, ◌≤◌, ◌<◌, ◌≡◌, refl, sym, ap, ◌∙◌, subst, [], ◌∷◌, ◌++◌, append-nil,
  arith, lt→ltb, length, length-append, take, take_all, take-append_long, min, nat_eq, list_eq,
}
use mini_nginx.Python.Utf8.{Bytes}
use mini_nginx.Net.{World, Io, ok, ◌>>=◌, client_read, upstream_write, upstream_drain}
use mini_nginx.Net.Binds.{>>=-eq-ok}
use mini_nginx.Net.Reading.{content, client_read-ok}
use mini_nginx.Http.{chunk_size, send_chunk, stream_exact, stream_all}
use mini_nginx.Http.Sent.{Sent, Sent-append, write-Sent, drain-Sent, read-Sent}

-- A chunk that is not empty has been written when the next round begins.
send_chunk-Sent :
    (b : ℕ) (bytes : Bytes) (next : Io (Unit {0})) (v x : World)
    → send_chunk (b ∷ bytes) next v ≡ (ok tt, x)
    → (z : World) × (next z ≡ (ok tt, x)) × Sent (b ∷ bytes) [] v z
unfolding send_chunk
send_chunk-Sent b bytes next v x e =
    let written : World = (upstream_write (b ∷ bytes) v).1 in
    let (done, z, drained, later) = >>=-eq-ok upstream_drain (λ y. next) written e in
    (
      z,
      later,
      subst (λ c. Sent c [] v z) (append-nil (b ∷ bytes))
          (Sent-append (b ∷ bytes) [] [] [] v written z (write-Sent (b ∷ bytes) v)
            (drain-Sent written z drained)),
    )

pub nothing-Sent : (w : World) → Sent [] [] w w
nothing-Sent w = record {
  written = sym (append-nil w.upstream_out.written);
  taken = refl;
  reply = refl;
  response = refl;
  counters = refl;
  limits = refl;
  servers = refl;
}

-- A chunk that was read and sent, and then `body`.
round-Sent :
    (n : ℕ) (chunk body : Bytes) (w v z x : World)
    → client_read n w ≡ (ok chunk, v)
    → Sent chunk [] v z
    → Sent body body z x
    → Sent (chunk ++ body) (chunk ++ body) w x
round-Sent n chunk body w v z x e s t =
    let both = Sent-append [] chunk chunk [] w v z (read-Sent n w v chunk e) s in
    Sent-append chunk chunk body body w z x (subst (λ c. Sent chunk c w z) (append-nil chunk) both)
      t

stream_exact-suc :
    (fuel n : ℕ) (w : World)
    → stream_exact (suc fuel) (suc n) w
      ≡ (client_read (min chunk_size (suc n)) >>= λ c.
            send_chunk c (stream_exact fuel (suc n - length c)))
          w
unfolding stream_exact
stream_exact-suc fuel n w = rw (lt→ltb 0 (suc n) (omega arith), stream_exact)

-- A chunk that ends the loop, or that goes before what the later rounds send.
after_chunk :
    (size n : ℕ) (later : Io (Unit {0})) (chunk : Bytes) (w v w' : World)
    → 0 < size
    → size ≤ n
    → client_read size w ≡ (ok chunk, v)
    → send_chunk chunk later v ≡ (ok tt, w')
    → ((z : World)
        → later z ≡ (ok tt, w')
        → 0 < length chunk
        → content w.client_in ≡ chunk ++ content z.client_in
        → Sent
            (take (n - length chunk) (content z.client_in))
            (take (n - length chunk) (content z.client_in))
            z
            w')
    → Sent (take n (content w.client_in)) (take n (content w.client_in)) w w'
unfolding send_chunk
after_chunk size n later [] w v w' pos le first e ih =
    let (t, r, same, taken) = client_read-ok size w v [] first in
    let none_left : content w.client_in ≡ [] = taken.at_end pos refl in
    let sent : Sent [] [] w w' = subst (Sent [] [] w) (cc e) (read-Sent size w v [] first) in
    subst (λ (c : Bytes). Sent (take n c) (take n c) w w') (sym none_left)
      (subst (λ (c : Bytes). Sent c c w w') (sym (take_all n [] (omega arith))) sent)
after_chunk size n later (b ∷ bytes) w v w' pos le first e ih =
    let (t, r, same, taken) = client_read-ok size w v (b ∷ bytes) first in
    let (z, later_ok, sent) = send_chunk-Sent b bytes later v w' e in
    let chunk : Bytes = b ∷ bytes in
    let all : content w.client_in ≡ chunk ++ content z.client_in =
      (read-Sent size w v chunk first).taken ∙ ap (λ c. chunk ++ c) sent.taken in
    let rest : Bytes = take (n - length chunk) (content z.client_in) in
    let cut_at : take n (content w.client_in) ≡ chunk ++ rest =
      ap (take n) all
      ∙ take-append_long n chunk (content z.client_in) (omega (arith, taken.bounded)) in
    subst (λ c. Sent c c w w') (sym cut_at)
      (round-Sent size chunk rest w v z w' first sent (ih z later_ok (omega arith) all))

-- With enough rounds, the loop over a known length that ends well has sent the first bytes of the
-- stream, `remaining` of them or all there are.
pub stream_exact-Sent :
    (fuel remaining : ℕ) (w w' : World)
    → remaining ≤ fuel
    → stream_exact fuel remaining w ≡ (ok tt, w')
    → Sent (take remaining (content w.client_in)) (take remaining (content w.client_in)) w w'
stream_exact-Sent zero zero w w' h e =
    unfold stream_exact in subst (Sent [] [] w) (cc e) (nothing-Sent w)
stream_exact-Sent zero (suc n) w w' h e = absurd (omega arith)
stream_exact-Sent (suc fuel) zero w w' h e =
    unfold stream_exact in subst (Sent [] [] w) (cc e) (nothing-Sent w)
stream_exact-Sent (suc fuel) (suc n) w w' h e =
    let size : ℕ = min chunk_size (suc n) in
    let later : Bytes → Io (Unit {0}) = λ c. stream_exact fuel (suc n - length c) in
    let (chunk, v, first, last) =
      >>=-eq-ok (client_read size) (λ c. send_chunk c (later c)) w
        (sym (stream_exact-suc fuel n w) ∙ e) in
    after_chunk size (suc n) (later chunk) chunk w v w' (omega arith) (omega arith) first last
      (λ z e' pos all. stream_exact-Sent fuel (suc n - length chunk) z w' (omega arith) e')

-- With one round more than the stream has bytes, the loop to the end of the stream that ends well
-- has sent all of it.
pub stream_all-Sent :
    (fuel : ℕ) (w w' : World)
    → length (content w.client_in) < fuel
    → stream_all fuel w ≡ (ok tt, w')
    → Sent (content w.client_in) (content w.client_in) w w'
unfolding stream_all
stream_all-Sent zero w w' h e = absurd (omega arith)
stream_all-Sent (suc fuel) w w' h e =
    let before : Bytes = content w.client_in in
    let n : ℕ = chunk_size + length before in
    let later : Io (Unit {0}) = stream_all fuel in
    let (chunk, v, first, last) =
      >>=-eq-ok (client_read chunk_size) (λ c. send_chunk c later) w e in
    subst (λ c. Sent c c w w') (take_all n before (omega arith))
      (after_chunk chunk_size n later chunk w v w' (omega arith) (omega arith) first last
        (λ z e' pos all.
          let shorter : length before ≡ length chunk + length (content z.client_in) =
            ap length all ∙ length-append chunk (content z.client_in) in
          subst (λ c. Sent c c z w')
            (sym (take_all (n - length chunk) (content z.client_in) (omega arith)))
            (stream_all-Sent fuel z w' (omega arith) e')))
