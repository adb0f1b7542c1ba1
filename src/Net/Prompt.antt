-- ===== src/Net/Prompt.antt =====
-- A network that is quick enough: nothing breaks on it, and what is waited for comes in time, since all
-- delays that are still to come end before each deadline.
pub mod Streams
use mini_nginx.Common.{
  true, ℕ, ◌+◌, ◌<◌, ◌≤◌, ◌≡◌, refl, sym, ap, subst, ◌∙◌, Option, none, some, List, [], ◌∷◌, arith,
}
use mini_nginx.Python.Utf8.{Bytes}
use mini_nginx.Limits.{HasSlots}
use mini_nginx.Net.{
  World, Reader, Writer, Io, ok, Exception, Arrival, arrived, broken, ◌>>=◌, ◌>>◌, pure, wait,
  first_due, pass, next_data, read_parts, cut, read, client_read, upstream_read, drain, ends_with,
  client_drain, upstream_drain, later_drains, close_upstream, suppress,
}
use mini_nginx.Net.Binds.{>>=-ok, catch-ok}
use mini_nginx.Net.Reading.{IsIntactFrom}

-- How long the slot of the upstream, the connecting and the closing make a request wait, and a bound
-- of all delays together.
pub record Delays : Type 0 where
  pub slot : ℕ
  pub connecting : ℕ
  pub closing : ℕ
  pub slack : ℕ

-- The deadline, if there is one, is later.
abbrev pub Later : ℕ → Option ℕ → Type 0
Later time none = Unit
Later time (some t) = time < t

pub Later-earlier : (time soon : ℕ) (o : Option ℕ) → soon ≤ time → Later time o → Later soon o
Later-earlier time soon none h k = tt
Later-earlier time soon (some t) h k = omega arith

-- All drains succeed.
abbrev pub Flows : List (ℕ × Option Exception) → Type 0
Flows [] = Unit
Flows ((d, none) ∷ drains) = Flows drains
Flows ((d, some e) ∷ drains) = ⊥

abbrev pub delays {ℓ} : {A : Type ℓ} → List (ℕ × A) → ℕ
delays [] = 0
delays ((d, a) ∷ later) = d + delays later

-- The delays of the four streams that are still to come.
abbrev pub pending : World → ℕ
pending w =
    delays w.client_in.arrivals
    + delays w.upstream_in.arrivals
    + delays w.client_out.drains
    + delays w.upstream_out.drains

-- A deadline that is set is later than all delays that are still to come, `b` more among them, and the
-- limit of the upstreams lets a task in.
abbrev pub IsPrompt : Delays → ℕ → World → Type 0
IsPrompt t b w =
    Later (w.now + (b + pending w)) w.step_deadline
    × Later (w.now + (b + pending w)) w.total_deadline
    × IsIntactFrom w.client_in.arrivals
    × IsIntactFrom w.upstream_in.arrivals
    × Flows w.client_out.drains
    × Flows w.upstream_out.drains
    × (w.connection ≡ (t.connecting, none))
    × (w.upstream_out.closing ≡ (t.closing, none))
    × ((w.upstream_slot_wait ≡ t.slot) × HasSlots w.manager)
    × (b + pending w ≤ t.slack)

-- The action succeeds on such a network, and leaves one.
abbrev pub Succeeds : {A : Type 0} → Delays → ℕ → Io A → World → Type 0
Succeeds {A = A} t b m w = (a : A) × (w' : World) × (m w ≡ (ok a, w')) × IsPrompt t b w'

pub Succeeds->>= :
    (t : Delays) (b c : ℕ) {A B : Type 0} (m : Io A) (f : A → Io B) (w : World)
    → Succeeds t b m w
    → ((a : A) (w' : World) → m w ≡ (ok a, w') → IsPrompt t b w' → Succeeds t c (f a) w')
    → Succeeds t c (m >>= f) w
Succeeds->>= t b c m f w (a, w', e, p) later =
    let (a', w'', e', p') = later a w' e p in (a', w'', >>=-ok m f w e ∙ e', p')

first_due-none : (s t : Option ℕ) (now : ℕ) → Later now s → Later now t → first_due s t now ≡ none
first_due-none none none now h k = refl
first_due-none none (some t) now h k = ground arith
first_due-none (some s) none now h k = ground arith
first_due-none (some s) (some t) now h k = ground arith

-- A wait that ends before both deadlines.
pub wait-within :
    (d : ℕ) (w : World)
    → Later (w.now + d) w.step_deadline
    → Later (w.now + d) w.total_deadline
    → wait d w ≡ (ok tt, record w { now = w.now + d })
unfolding wait
wait-within d w h k =
    ap (λ o. pass o (w.now + d) w) (first_due-none w.step_deadline w.total_deadline (w.now + d) h k)

-- A moment that is not after all delays that are still to come is before the deadlines.
pub in_time :
    (t : Delays) (b : ℕ) (w : World)
    → IsPrompt t b w
    → (time : ℕ) → time ≤ w.now + (b + pending w)
    → Later time w.step_deadline × Later time w.total_deadline
in_time t b w p time h = (
  Later-earlier (w.now + (b + pending w)) time w.step_deadline h p.0,
  Later-earlier (w.now + (b + pending w)) time w.total_deadline h p.1,
)

module _ (t : Delays) where
  -- A wait that was among the delays to come.
  pub wait-keeps :
      (d b : ℕ) (w : World)
      → IsPrompt t (d + b) w
      → (wait d w ≡ (ok tt, record w { now = w.now + d }))
        × IsPrompt t b (record w { now = w.now + d })
  wait-keeps d b w p =
      let (k, l) = in_time t (d + b) w p (w.now + d) (omega arith) in
      let (k', l') = in_time t (d + b) w p (w.now + d + (b + pending w)) (omega arith) in
      (wait-within d w k l, (k', l', p.2, p.3, p.4, p.5, p.6, p.7, p.8, omega (arith, p.9)))

  pub wait-Succeeds : (d b : ℕ) (w : World) → IsPrompt t (d + b) w → Succeeds t b (wait d) w
  wait-Succeeds d b w p =
      let (e, q) = wait-keeps d b w p in (tt, record w { now = w.now + d }, e, q)

  -- Less is to come.
  pub IsPrompt-less : (d b : ℕ) (w : World) → IsPrompt t (d + b) w → IsPrompt t b w
  IsPrompt-less d b w p =
      let (k, l) = in_time t (d + b) w p (w.now + (b + pending w)) (omega arith) in
      (k, l, p.2, p.3, p.4, p.5, p.6, p.7, p.8, omega (arith, p.9))

-- What a read of the next part takes from the delays.
abbrev Gives : List (ℕ × Arrival) → World → Type 0
Gives parts w =
    (time : ℕ) × (bytes : Bytes) × (rest : List (ℕ × Arrival)) × (next_data parts w
      ≡ (ok (bytes, rest), record w { now = time }))
    × IsIntactFrom rest
    × (time + delays rest ≡ w.now + delays parts)
    × (w.now ≤ time)

next_data-Gives :
    (parts : List (ℕ × Arrival)) (w : World)
    → IsIntactFrom parts
    → Later (w.now + delays parts) w.step_deadline
    → Later (w.now + delays parts) w.total_deadline
    → Gives parts w
unfolding next_data
next_data-Gives [] w h k l = (w.now, [], [], refl, tt, refl, omega arith)
next_data-Gives ((d, broken e) ∷ parts) w h k l = absurd h
next_data-Gives ((d, arrived []) ∷ parts) w h k l =
    let v : World = record w { now = w.now + d } in
    let e =
      wait-within d w
        (Later-earlier (w.now + (d + delays parts)) (w.now + d) w.step_deadline (omega arith) k)
        (Later-earlier (w.now + (d + delays parts)) (w.now + d) w.total_deadline (omega arith) l) in
    let (time, bytes, rest, e', intact, same, later) =
      next_data-Gives parts v h
        (Later-earlier (w.now + (d + delays parts)) (w.now + d + delays parts) w.step_deadline
          (omega arith) k)
        (Later-earlier (w.now + (d + delays parts)) (w.now + d + delays parts) w.total_deadline
          (omega arith) l) in
    (
      time,
      bytes,
      rest,
      >>=-ok (wait d) (λ x. next_data parts) w e ∙ e',
      intact,
      omega (arith, same),
      omega (arith, later),
    )
next_data-Gives ((d, arrived (b ∷ bytes)) ∷ parts) w h k l = (
  w.now + d,
  b ∷ bytes,
  parts,
  >>=-ok (wait d) (λ x. pure (b ∷ bytes, parts)) w
      (wait-within d w
        (Later-earlier (w.now + (d + delays parts)) (w.now + d) w.step_deadline (omega arith) k)
        (Later-earlier (w.now + (d + delays parts)) (w.now + d) w.total_deadline (omega arith) l)),
  h,
  omega arith,
  omega arith,
)

pub read_parts-Gives :
    (n : ℕ) (bytes : Bytes) (parts : List (ℕ × Arrival)) (w : World)
    → IsIntactFrom parts
    → Later (w.now + delays parts) w.step_deadline
    → Later (w.now + delays parts) w.total_deadline
    → (time : ℕ) × (chunk : Bytes) × (r : Reader) × (read_parts n bytes parts w
        ≡ (ok (chunk, r), record w { now = time }))
      × IsIntactFrom r.arrivals
      × (time + delays r.arrivals ≡ w.now + delays parts)
      × (w.now ≤ time)
unfolding read_parts
read_parts-Gives n [] parts w h k l =
    let (time, bytes, rest, e, intact, same, later) = next_data-Gives parts w h k l in
    (time, _, _, >>=-ok (next_data parts) (λ part. pure (cut n part)) w e, intact, same, later)
read_parts-Gives n (b ∷ bytes) parts w h k l = (w.now, _, _, refl, h, refl, omega arith)
