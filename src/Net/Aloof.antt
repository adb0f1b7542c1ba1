-- ===== src/Net/Aloof.antt =====
-- What shows nothing of the clock and of the four streams is the same after every stream operation.
use mini_nginx.Common.{ℕ, ◌≡◌, refl, List, [], ◌∷◌}
use mini_nginx.Python.Utf8.{Bytes}
use mini_nginx.Net.{
  World, Reader, Writer, Arrival, arrived, broken, pure, raise, wait, next_data, read_parts, cut,
  read, client_read, upstream_read, client_write, upstream_write, client_drain, upstream_drain,
  later_drains, close_client, close_upstream,
}
use mini_nginx.Net.Frames.{
  Fixes, IsTimeless, Fixes->>=, Fixes-wait, Fixes-client_drain, Fixes-upstream_drain,
  Fixes-close_client, Fixes-close_upstream,
}

-- `f` shows nothing of the clock, the deadlines and the streams.
pub record IsAloof {X : Type 0} (f : World → X) : Type 0 where
  pub timeless : IsTimeless f
  pub from_client : (w : World) (r : Reader) → f (record w { client_in = r }) ≡ f w
  pub to_client : (w : World) (o : Writer) → f (record w { client_out = o }) ≡ f w
  pub from_upstream : (w : World) (r : Reader) → f (record w { upstream_in = r }) ≡ f w
  pub to_upstream : (w : World) (o : Writer) → f (record w { upstream_out = o }) ≡ f w

module _ {X : Type 0} (f : World → X) (h : IsAloof f) where
  Fixes-next_data : (parts : List (ℕ × Arrival)) → Fixes f (next_data parts)
  unfolding next_data
  Fixes-next_data [] = λ w. refl
  Fixes-next_data ((d, broken e) ∷ rest) =
      Fixes->>= f (wait d) (λ x. raise e) (Fixes-wait f h.timeless d) (λ x w. refl)
  Fixes-next_data ((d, arrived []) ∷ rest) =
      Fixes->>= f (wait d) (λ x. next_data rest) (Fixes-wait f h.timeless d)
        (λ x. Fixes-next_data rest)
  Fixes-next_data ((d, arrived (b ∷ bytes)) ∷ rest) =
      Fixes->>= f (wait d) (λ x. pure (b ∷ bytes, rest)) (Fixes-wait f h.timeless d) (λ x w. refl)

  Fixes-read_parts :
      (n : ℕ) (bytes : Bytes) (parts : List (ℕ × Arrival)) → Fixes f (read_parts n bytes parts)
  unfolding read_parts
  Fixes-read_parts n [] parts =
      Fixes->>= f (next_data parts) (λ part. pure (cut n part)) (Fixes-next_data parts)
        (λ part w. refl)
  Fixes-read_parts n (b ∷ bytes) parts = λ w. refl

  Fixes-read : (n : ℕ) (r : Reader) → Fixes f (read n r)
  unfolding read
  Fixes-read n r = Fixes-read_parts n r.buffer r.arrivals

  pub Fixes-client_read : (n : ℕ) → Fixes f (client_read n)
  unfolding client_read
  Fixes-client_read n w =
      Fixes->>= f (read n w.client_in) (λ part v. pure part.0 (record v { client_in = part.1 }))
        (Fixes-read n w.client_in) (λ part v. h.from_client v part.1) w

  pub Fixes-upstream_read : (n : ℕ) → Fixes f (upstream_read n)
  unfolding upstream_read
  Fixes-upstream_read n w =
      Fixes->>= f (read n w.upstream_in) (λ part v. pure part.0 (record v { upstream_in = part.1 }))
        (Fixes-read n w.upstream_in) (λ part v. h.from_upstream v part.1) w

  pub Fixes-client_write : (bytes : Bytes) → Fixes f (client_write bytes)
  Fixes-client_write bytes w = h.to_client w _

  pub Fixes-upstream_write : (bytes : Bytes) → Fixes f (upstream_write bytes)
  Fixes-upstream_write bytes w = h.to_upstream w _

  pub Fixes-client_drain_aloof : Fixes f client_drain
  Fixes-client_drain_aloof =
      Fixes-client_drain f h.timeless (λ w. h.to_client w (later_drains w.client_out))

  pub Fixes-upstream_drain_aloof : Fixes f upstream_drain
  Fixes-upstream_drain_aloof =
      Fixes-upstream_drain f h.timeless (λ w. h.to_upstream w (later_drains w.upstream_out))

  pub Fixes-close_client_aloof : Fixes f close_client
  Fixes-close_client_aloof = Fixes-close_client f h.timeless (λ w. h.to_client w _)

  pub Fixes-close_upstream_aloof : Fixes f close_upstream
  Fixes-close_upstream_aloof = Fixes-close_upstream f h.timeless (λ w. h.to_upstream w _)
