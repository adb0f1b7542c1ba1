-- ===== src/Net/Reading.antt =====
-- What a read takes from a stream, whatever the parts in which the stream arrives.
use mini_nginx.Common.{
  ℕ, zero, suc, ◌+◌, ◌<◌, ◌≤◌, ◌≡◌, refl, sym, ap, subst, ◌∙◌, none, List, [], ◌∷◌, ◌++◌,
  append_assoc, arith, length, take, drop, length-take, take-append-drop,
}
use mini_nginx.Python.Utf8.{Bytes}
use mini_nginx.Net.Binds.{>>=-eq-ok, >>=-ok}
use mini_nginx.Net.{
  Arrival, arrived, broken, Reader, World, ok, wait, next_data, cut, read, read_parts, client_read,
  pure, raise, upstream_read,
}

abbrev pub arrivals_content : List (ℕ × Arrival) → Bytes
arrivals_content [] = []
arrivals_content ((d, broken e) ∷ rest) = []
arrivals_content ((d, arrived bytes) ∷ rest) = bytes ++ arrivals_content rest

-- The bytes that a stream holds up to its end, or up to where it breaks.
abbrev pub content : Reader → Bytes
content r = r.buffer ++ arrivals_content r.arrivals

-- No part breaks the stream.
abbrev pub IsIntactFrom : List (ℕ × Arrival) → Type 0
IsIntactFrom [] = Unit
IsIntactFrom ((d, broken e) ∷ rest) = ⊥
IsIntactFrom ((d, arrived bytes) ∷ rest) = IsIntactFrom rest

abbrev pub IsIntact : Reader → Type 0
IsIntact r = IsIntactFrom r.arrivals

-- No deadline is set.
pub record IsUnhurried (w : World) : Type 0 where
  pub no_step : w.step_deadline ≡ none
  pub no_total : w.total_deadline ≡ none

pub wait-ok : (d : ℕ) (w w' : World) → wait d w ≡ (ok tt, w') → w' ≡ record w { now = w.now + d }
unfolding wait
wait-ok d w w' e = ground arith

pub wait-IsUnhurried :
    (d : ℕ) (w : World) → IsUnhurried w → wait d w ≡ (ok tt, record w { now = w.now + d })
unfolding wait
wait-IsUnhurried d w u = rw (u.no_step, u.no_total)

empty_take : (n : ℕ) (bytes : Bytes) → 0 < n → take n bytes ≡ [] → bytes ≡ []
empty_take zero bytes h e = absurd (omega arith)
empty_take (suc n) [] h e = refl
empty_take (suc n) (b ∷ bytes) h e = cc

-- What a successful read leaves, for a stream of the content `before`.
pub record Taken (n : ℕ) (before : Bytes) (chunk : Bytes) (r : Reader) : Type 0 where
  pub split : chunk ++ content r ≡ before
  pub bounded : length chunk ≤ n
  pub at_end : 0 < n → chunk ≡ [] → before ≡ []

next_data-ok :
    (parts : List (ℕ × Arrival)) (w w' : World) (bytes : Bytes) (rest : List (ℕ × Arrival))
    → next_data parts w ≡ (ok (bytes, rest), w')
    → (t : ℕ) × (w' ≡ record w { now = t })
      × (bytes ++ arrivals_content rest ≡ arrivals_content parts)
      × (bytes ≡ [] → arrivals_content parts ≡ [])
unfolding next_data
next_data-ok [] w w' bytes rest e = (w.now, ground arith, ground arith, ground arith)
next_data-ok ((d, broken x) ∷ parts) w w' bytes rest e =
    let (done, v, first, later) = >>=-eq-ok (wait d) (λ z. raise x) w e in cc later
next_data-ok ((d, arrived []) ∷ parts) w w' bytes rest e =
    let (done, v, first, later) = >>=-eq-ok (wait d) (λ z. next_data parts) w e in
    let (t, same, split, at_end) = next_data-ok parts v w' bytes rest later in
    (t, same ∙ ap (λ (x : World). record x { now = t }) (wait-ok d w v first), split, at_end)
next_data-ok ((d, arrived (b ∷ bs)) ∷ parts) w w' bytes rest e =
    let (done, v, first, later) = >>=-eq-ok (wait d) (λ z. pure (b ∷ bs, parts)) w e in
    let same : w' ≡ v = cc later in
    let found : bytes ≡ b ∷ bs = cc later in
    let left : rest ≡ parts = cc later in
    (w.now + d, same ∙ wait-ok d w v first, rw (found, left) refl, λ empty. cc (found, empty))

cut-Taken :
    (n : ℕ) (bytes : Bytes) (rest : List (ℕ × Arrival)) (before : Bytes)
    → bytes ++ arrivals_content rest ≡ before
    → (bytes ≡ [] → before ≡ [])
    → Taken n before (cut n (bytes, rest)).0 (cut n (bytes, rest)).1
cut-Taken n bytes rest before split at_end = record {
  split =
      sym (append_assoc (take n bytes) (drop n bytes) (arrivals_content rest))
      ∙ ap (λ x. x ++ arrivals_content rest) (take-append-drop n bytes)
      ∙ split;
  bounded = omega (arith, length-take n bytes);
  at_end = λ pos empty. at_end (empty_take n bytes pos empty);
}

read_parts-ok :
    (n : ℕ) (bytes : Bytes) (parts : List (ℕ × Arrival)) (w w' : World) (chunk : Bytes) (r : Reader)
    → read_parts n bytes parts w ≡ (ok (chunk, r), w')
    → (t : ℕ) × (w' ≡ record w { now = t }) × Taken n (bytes ++ arrivals_content parts) chunk r
unfolding read_parts
read_parts-ok n [] parts w w' chunk r e =
    let ((bytes, rest), v, first, later) =
      >>=-eq-ok (next_data parts) (λ part. pure (cut n part)) w e in
    let (t, same, split, at_end) = next_data-ok parts w v bytes rest first in
    let chunk_is : chunk ≡ take n bytes = cc later in
    let rest_is : r ≡ record { buffer = drop n bytes; arrivals = rest } = cc later in
    let world_is : w' ≡ v = cc later in
    (t, world_is ∙ same, rw (chunk_is, rest_is) (cut-Taken n bytes rest _ split at_end))
read_parts-ok n (b ∷ bytes) parts w w' chunk r e =
    let chunk_is : chunk ≡ take n (b ∷ bytes) = cc e in
    let rest_is : r ≡ record { buffer = drop n (b ∷ bytes); arrivals = parts } = cc e in
    (w.now, cc e, rw (chunk_is, rest_is) (cut-Taken n (b ∷ bytes) parts _ refl (λ empty. cc empty)))

-- A read of the client's stream that succeeds takes a piece from its front, of at most `n` bytes
-- and empty only at the end, and changes nothing else but the clock.
pub client_read-ok :
    (n : ℕ) (w w' : World) (chunk : Bytes)
    → client_read n w ≡ (ok chunk, w')
    → (t : ℕ) × (r : Reader) × (w' ≡ record w { now = t; client_in = r })
      × Taken n (content w.client_in) chunk r
unfolding client_read
client_read-ok n w w' chunk e =
    let ((bytes, r), v, first, later) =
      >>=-eq-ok (read n w.client_in) (λ part x. (ok part.0, record x { client_in = part.1 })) w e in
    let (t, same, taken) =
      read_parts-ok n w.client_in.buffer w.client_in.arrivals w v bytes r first in
    let chunk_is : chunk ≡ bytes = cc later in
    let world_is : w' ≡ record v { client_in = r } = cc later in
    (t, r, world_is ∙ ap (λ (x : World). record x { client_in = r }) same, rw chunk_is taken)

-- The same of the upstream's stream.
pub upstream_read-ok :
    (n : ℕ) (w w' : World) (chunk : Bytes)
    → upstream_read n w ≡ (ok chunk, w')
    → (t : ℕ) × (r : Reader) × (w' ≡ record w { now = t; upstream_in = r })
      × Taken n (content w.upstream_in) chunk r
unfolding upstream_read
upstream_read-ok n w w' chunk e =
    let ((bytes, r), v, first, later) =
      >>=-eq-ok (read n w.upstream_in) (λ part x. (ok part.0, record x { upstream_in = part.1 })) w
        e in
    let (t, same, taken) =
      read_parts-ok n w.upstream_in.buffer w.upstream_in.arrivals w v bytes r first in
    let chunk_is : chunk ≡ bytes = cc later in
    let world_is : w' ≡ record v { upstream_in = r } = cc later in
    (t, r, world_is ∙ ap (λ (x : World). record x { upstream_in = r }) same, rw chunk_is taken)

next_data-IsUnhurried :
    (parts : List (ℕ × Arrival)) (w : World)
    → IsUnhurried w
    → IsIntactFrom parts
    → (t : ℕ) × (bytes : Bytes) × (rest : List (ℕ × Arrival)) × (next_data parts w
        ≡ (ok (bytes, rest), record w { now = t }))
      × IsIntactFrom rest
unfolding next_data
next_data-IsUnhurried [] w u h = (w.now, [], [], refl, tt)
next_data-IsUnhurried ((d, broken x) ∷ parts) w u h = absurd h
next_data-IsUnhurried ((d, arrived []) ∷ parts) w u h =
    let later : World = record w { now = w.now + d } in
    let (t, bytes, rest, e, k) =
      next_data-IsUnhurried parts later (record { no_step = u.no_step; no_total = u.no_total }) h in
    (t, bytes, rest, >>=-ok (wait d) (λ z. next_data parts) w (wait-IsUnhurried d w u) ∙ e, k)
next_data-IsUnhurried ((d, arrived (b ∷ bs)) ∷ parts) w u h = (
  w.now + d,
  b ∷ bs,
  parts,
  >>=-ok (wait d) (λ z. pure (b ∷ bs, parts)) w (wait-IsUnhurried d w u),
  h,
)

read_parts-IsUnhurried :
    (n : ℕ) (bytes : Bytes) (parts : List (ℕ × Arrival)) (w : World)
    → IsUnhurried w
    → IsIntactFrom parts
    → (t : ℕ) × (chunk : Bytes) × (r : Reader) × (read_parts n bytes parts w
        ≡ (ok (chunk, r), record w { now = t }))
      × IsIntact r
unfolding read_parts
read_parts-IsUnhurried n [] parts w u h =
    let (t, bytes, rest, e, k) = next_data-IsUnhurried parts w u h in
    (t, take n bytes, _, >>=-ok (next_data parts) (λ part. pure (cut n part)) w e, k)
read_parts-IsUnhurried n (b ∷ bytes) parts w u h = (w.now, take n (b ∷ bytes), _, refl, h)

-- With no deadline set, a read of a client's stream that nothing breaks succeeds.
pub client_read-IsUnhurried :
    (n : ℕ) (w : World)
    → IsUnhurried w
    → IsIntact w.client_in
    → (t : ℕ) × (chunk : Bytes) × (r : Reader) × (client_read n w
        ≡ (ok chunk, record w { now = t; client_in = r }))
      × IsIntact r
unfolding client_read
client_read-IsUnhurried n w u h =
    let (t, chunk, r, e, k) =
      read_parts-IsUnhurried n w.client_in.buffer w.client_in.arrivals w u h in
    (
      t,
      chunk,
      r,
      >>=-ok (read n w.client_in) (λ part x. (ok part.0, record x { client_in = part.1 })) w e,
      k,
    )

-- The two together: with no deadline set, a read of a stream that nothing breaks takes a piece from
-- its front.
pub client_read-returns :
    (n : ℕ) (w : World)
    → IsUnhurried w
    → IsIntact w.client_in
    → (t : ℕ) × (chunk : Bytes) × (r : Reader) × (client_read n w
        ≡ (ok chunk, record w { now = t; client_in = r }))
      × IsIntact r
      × Taken n (content w.client_in) chunk r
client_read-returns n w u h =
    let (t, chunk, r, e, k) = client_read-IsUnhurried n w u h in
    let (t', r', same, taken) = client_read-ok n w (record w { now = t; client_in = r }) chunk e in
    let r_is : r' ≡ r = sym (ap (λ (x : World). x.client_in) same) in
    (t, chunk, r, e, k, subst (Taken n (content w.client_in) chunk) r_is taken)
