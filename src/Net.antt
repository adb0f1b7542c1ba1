-- ===== src/Net.antt =====
-- The streams of one client connection and its upstream connection, the clock, and exceptions: what
-- the handlers of proxy/ use of asyncio.
--
-- A stream's reader has what has arrived and what will arrive, each part with the time that passes
-- while the program waits for it; a part stands for all that has come when the buffer is found
-- empty. A deadline that passes while the program waits cancels it there, once.
pub mod Binds
pub mod Frames
pub mod Reading
pub mod Aloof
pub mod Prompt
pub mod Readline
use mini_nginx.Common.{
  ℕ, zero, suc, ◌+◌, ◌<◌, Bool, true, false, Option, none, some, List, [], ◌∷◌, ◌++◌, ltb, leb,
  if◌then◌else◌, ◌==◌, nat_eq, take, drop, length,
}
use mini_nginx.Python.Text.{Text}
use mini_nginx.Python.Utf8.{Bytes}
use mini_nginx.Pool.{UpstreamPool}
use mini_nginx.Limits.{ConnectionLimitManager}
use mini_nginx.Metrics.{Metrics}

-- Which deadline cancels: that of one operation, that of the whole request, or none of this
-- program's (the task is cancelled from outside).
pub data Scope : Type 0 where
  step total outside : Scope

-- `asyncio.TimeoutError`, `ConnectionRefusedError`, another `OSError`, `CancelledError`, and any
-- other exception, with its text.
pub data Exception : Type 0 where
  timed_out : Exception
  refused : Text → Exception
  os_error : Text → Exception
  cancelled : Scope → Exception
  failure : Text → Exception

pub data Arrival : Type 0 where
  arrived : Bytes → Arrival
  broken : Exception → Arrival

-- After the last part the stream is at its end.
pub record Reader : Type 0 where
  pub buffer : Bytes
  pub arrivals : List (ℕ × Arrival)

-- What has been written, how long each later `drain` takes and what it raises, and the same of
-- `wait_closed`.
pub record Writer : Type 0 where
  pub written : Bytes
  pub drains : List (ℕ × Option Exception)
  pub closed : Bool
  pub closing : ℕ × Option Exception

pub record World : Type 0 where
  pub now : ℕ
  pub step_deadline : Option ℕ
  pub total_deadline : Option ℕ
  pub client_in : Reader
  pub client_out : Writer
  -- How long `open_connection` takes, and what it raises; then the streams of the connection.
  pub connection : ℕ × Option Exception
  pub upstream_in : Reader
  pub upstream_out : Writer
  -- Whether `upstream_writer` has been set.
  pub connected : Bool
  -- How long the semaphores make the request wait when they have no free slot.
  pub client_slot_wait : ℕ
  pub upstream_slot_wait : ℕ
  pub manager : ConnectionLimitManager
  pub pool : UpstreamPool
  pub metrics : Metrics

pub data Result (A : Type 0) : Type 0 where
  ok : A → Result A
  raised : Exception → Result A

abbrev pub Io : Type 0 → Type 0
Io A = World → Result A × World

abbrev pub pure : {A : Type 0} → A → Io A
pure a w = (ok a, w)

abbrev pub raise : {A : Type 0} → Exception → Io A
raise e w = (raised e, w)

-- An action after another's outcome: an exception passes it over.
abbrev pub resume : {A B : Type 0} → Result A × World → (A → Io B) → Result B × World
resume (ok a, w) f = f a w
resume (raised e, w) f = (raised e, w)

infixl 5 ◌>>=◌ ◌>>◌
abbrev pub ◌>>=◌ : {A B : Type 0} → Io A → (A → Io B) → Io B
◌>>=◌ m f w = resume (m w) f

abbrev pub ◌>>◌ : {A B : Type 0} → Io A → Io B → Io B
m >> k = m >>= λ _. k

abbrev pub modify : (World → World) → Io (Unit {0})
modify f w = (ok tt, f w)

abbrev pub handle : {A : Type 0} → Result A × World → (Exception → Io A) → Result A × World
handle (ok a, w) handler = (ok a, w)
handle (raised e, w) handler = handler e w

-- `try: m except …: handler`
abbrev pub catch : {A : Type 0} → Io A → (Exception → Io A) → Io A
catch m handler w = handle (m w) handler

-- What is left of `try: m finally: cleanup` once `m` has ended: an exception of `cleanup` replaces
-- the outcome of `m`.
abbrev pub after : {A : Type 0} → Result A → Result (Unit {0}) × World → Result A × World
after r (ok _, w) = (r, w)
after r (raised e, w) = (raised e, w)

abbrev pub finally : {A : Type 0} → Io A → Io (Unit {0}) → Io A
finally m cleanup w = let (r, w') = m w in after r (cleanup w')

-- `except Exception: pass`; a cancellation is no `Exception`.
abbrev pub suppress : Exception → Io (Unit {0})
suppress (cancelled s) = raise (cancelled s)
suppress timed_out = pure tt
suppress (refused msg) = pure tt
suppress (os_error msg) = pure tt
suppress (failure msg) = pure tt

abbrev pub due : Option ℕ → ℕ → Bool
due none time = false
due (some deadline) time = leb deadline time

-- The deadline that passes first, if one has passed at `time`.
abbrev pub first_due : Option ℕ → Option ℕ → ℕ → Option (Scope × ℕ)
first_due none none time = none
first_due none (some t) time = if leb t time then some (total, t) else none
first_due (some s) none time = if leb s time then some (step, s) else none
first_due (some s) (some t) time =
    if leb s t
    then (if leb s time then some (step, s) else none)
    else if leb t time
    then some (total, t)
    else none

abbrev pub disarm : Scope → World → World
disarm step w = record w { step_deadline = none }
disarm total w = record w { total_deadline = none }
disarm outside w = w

-- Time passes, up to `time` or up to the deadline that is due.
abbrev pub pass : Option (Scope × ℕ) → ℕ → Io (Unit {0})
pass none time w = (ok tt, record w { now = time })
pass (some (scope, deadline)) time w =
    (raised (cancelled scope), disarm scope (record w { now = deadline }))

-- `await` something that takes `d` milliseconds.
unfoldable pub wait : ℕ → Io (Unit {0})
wait d w = pass (first_due w.step_deadline w.total_deadline (w.now + d)) (w.now + d) w

-- The deadline that will pass first.
abbrev pub earliest : Option ℕ → Option ℕ → Option (Scope × ℕ)
earliest none none = none
earliest none (some t) = some (total, t)
earliest (some s) none = some (step, s)
earliest (some s) (some t) = if leb s t then some (step, s) else some (total, t)

abbrev pub expire : Option (Scope × ℕ) → Io (Unit {0})
expire none = raise (cancelled outside)
expire (some (scope, deadline)) = pass (some (scope, deadline)) deadline

-- `await` something that never comes: a deadline ends it, or else only a cancellation from outside.
abbrev pub hang : Io (Unit {0})
hang w = expire (earliest w.step_deadline w.total_deadline) w

-- The first part that is not empty, and the parts behind it.
unfoldable pub next_data : List (ℕ × Arrival) → Io (Bytes × List (ℕ × Arrival))
next_data [] = pure ([], [])
next_data ((d, broken e) ∷ rest) = wait d >> raise e
next_data ((d, arrived []) ∷ rest) = wait d >> next_data rest
next_data ((d, arrived (b ∷ bytes)) ∷ rest) = wait d >> pure (b ∷ bytes, rest)

abbrev pub cut : ℕ → Bytes × List (ℕ × Arrival) → Bytes × Reader
cut n (bytes, rest) = (take n bytes, record { buffer = drop n bytes; arrivals = rest })

pub read_parts : ℕ → Bytes → List (ℕ × Arrival) → Io (Bytes × Reader)
read_parts n [] parts = do part ← next_data parts; pure (cut n part)
read_parts n (b ∷ bytes) parts = pure (cut n (b ∷ bytes, parts))

-- `StreamReader.read(n)`: at most `n` bytes of the buffer, once it is not empty; none at the end.
unfoldable pub read : ℕ → Reader → Io (Bytes × Reader)
unfolding next_data read_parts
read n r = read_parts n r.buffer r.arrivals

unfoldable pub client_read : ℕ → Io Bytes
unfolding read
client_read n w =
    resume (read n w.client_in w) (λ (chunk, r) v. (ok chunk, record v { client_in = r }))

unfoldable pub upstream_read : ℕ → Io Bytes
unfolding read
upstream_read n w =
    resume (read n w.upstream_in w) (λ (chunk, r) v. (ok chunk, record v { upstream_in = r }))

-- `StreamWriter.write` only appends to the transport's buffer.
abbrev pub append_to : Writer → Bytes → Writer
append_to out bytes = record out { written = out.written ++ bytes }

abbrev pub client_write : Bytes → Io (Unit {0})
client_write bytes = modify (λ w. record w { client_out = append_to w.client_out bytes })

abbrev pub upstream_write : Bytes → Io (Unit {0})
upstream_write bytes = modify (λ w. record w { upstream_out = append_to w.upstream_out bytes })

abbrev pub ends_with : Option Exception → Io (Unit {0})
ends_with none = pure tt
ends_with (some e) = raise e

abbrev pub later_drains : Writer → Writer
later_drains out = elim out.drains [ [] ↦ out | d ∷ ds ↦ record out { drains = ds } ]

-- `StreamWriter.drain`
unfoldable pub drain : List (ℕ × Option Exception) → Io (Unit {0})
drain [] = pure tt
drain ((d, outcome) ∷ later) = wait d >> ends_with outcome

unfoldable pub client_drain : Io (Unit {0})
unfolding drain
client_drain w =
    (do
      modify (λ v. record v { client_out = later_drains v.client_out })
      drain w.client_out.drains)
      w

unfoldable pub upstream_drain : Io (Unit {0})
unfolding drain
upstream_drain w =
    (do
      modify (λ v. record v { upstream_out = later_drains v.upstream_out })
      drain w.upstream_out.drains)
      w

-- `writer.close()`, then `await writer.wait_closed()` with its `except Exception: pass`.
unfoldable pub close_client : Io (Unit {0})
unfolding wait
close_client w =
    (do
      modify (λ v. record v { client_out = record v.client_out { closed = true } })
      catch (wait w.client_out.closing.0 >> ends_with w.client_out.closing.1) suppress)
      w

unfoldable pub close_upstream : Io (Unit {0})
unfolding wait
close_upstream w =
    (do
      modify (λ v. record v { upstream_out = record v.upstream_out { closed = true } })
      catch (wait w.upstream_out.closing.0 >> ends_with w.upstream_out.closing.1) suppress)
      w
