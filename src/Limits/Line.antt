-- ===== src/Limits/Line.antt =====
-- The clients' gate is one line of tasks in the order of their arrival, of which the first
-- `max_client_conns` are served.
pub mod Steps
pub mod Refinement
use mini_nginx.Common.{
  ℕ, ◌+◌, ◌-◌, ◌<◌, ◌≤◌, ◌≡◌, ◌≢◌, ◌⊎◌, inl, inr, refl, sym, ap, ◌∙◌, subst, true, false,
  Bool-cases, Option, none, some, List, [], ◌∷◌, ◌++◌, append-nil, append_assoc, arith, length,
  length-append, take, drop, lt→ltb, take_all, drop_all, take-append_long, drop-append_long,
  if◌then◌else◌, ◌==◌, nat_eq,
}
use mini_nginx.Limits.{ConnectionLimits, Semaphore, create, acquire, release}
use mini_nginx.Limits.Queue.{
  remove, count, count-append, count-remove, remove-append, length-remove,
}
use mini_nginx.Limits.Clients.{
  Event, entered, left, gave_up, Gate, enter, leave, give_up, Step, enters, leaves, gives_up, Reach,
  here, next, opened, IsValid,
}

module _ (limit : ℕ) where
  abbrev pub served : List ℕ → List ℕ
  served line = take limit line

  abbrev pub waiting : List ℕ → List ℕ
  waiting line = drop limit line

  -- The abstract moves, one for each event: a task joins the line at its end, a served task leaves it,
  -- and so does one that waits.
  pub data Move : Event → List ℕ → List ℕ → Type 0 where
    joins : (task : ℕ) {line : List ℕ} → Move (entered task) line (line ++ task ∷ [])
    departs :
        (task : ℕ) {line : List ℕ}
        → count task (served line) ≢ 0
        → Move (left task) line (remove task line)
    abandons :
        (task : ℕ) {line : List ℕ}
        → count task (waiting line) ≢ 0
        → Move (gave_up task) line (served line ++ remove task (waiting line))

  -- The line to which the moves of these events lead.
  pub data Moves : List Event → List ℕ → Type 0 where
    empty : Moves [] []
    followed :
        {events : List Event} {event : Event} {line line' : List ℕ}
        → Moves events line
        → Move event line line'
        → Moves (event ∷ events) line'

  -- A gate implements a line: its queue is the part that waits, in order, and those inside are the part
  -- that is served, in any order.
  pub record Implements (g : Gate) (line : List ℕ) : Type 0 where
    pub queue : g.sem.waiters ≡ waiting line
    pub inside : (task : ℕ) → count task g.inside ≡ count task (served line)
    pub free : g.sem.value + length (served line) ≡ limit

  -- The line as two parts.
  pub record Parts (g : Gate) (line front : List ℕ) : Type 0 where
    pub whole : line ≡ front ++ g.sem.waiters
    pub counted : (task : ℕ) → count task g.inside ≡ count task front
    pub free : g.sem.value + length front ≡ limit
    pub full : (g.sem.waiters ≡ []) ⊎ (g.sem.value ≡ 0)

  parts-split :
      (front back : List ℕ)
      → length front ≤ limit
      → (back ≡ []) ⊎ (length front ≡ limit)
      → (served (front ++ back) ≡ front) × (waiting (front ++ back) ≡ back)
  parts-split front back h (inl e) =
      let same : front ++ back ≡ front = ap (λ b. front ++ b) e ∙ append-nil front in
      (ap served same ∙ take_all limit front h, ap waiting same ∙ drop_all limit front h ∙ sym e)
  parts-split front back h (inr e) =
      let none_left : limit - length front ≡ 0 = omega arith in
      (
        take-append_long limit front back h
            ∙ ap (λ n. front ++ take n back) none_left
            ∙ append-nil front,
        drop-append_long limit front back h ∙ ap (λ n. drop n back) none_left,
      )

  full-split :
      (g : Gate) (line front : List ℕ)
      → Parts g line front
      → (g.sem.waiters ≡ []) ⊎ (length front ≡ limit)
  full-split g line front p = elim p.full [
    | inl none_waits ↦ inl none_waits
    | inr none_free ↦ inr (omega (arith, p.free))
  ]

  pub Parts-served :
      (g : Gate) (line front : List ℕ)
      → Parts g line front
      → (served line ≡ front) × (waiting line ≡ g.sem.waiters)
  Parts-served g line front p =
      let (first, rest) =
        parts-split front g.sem.waiters (omega (arith, p.free)) (full-split g line front p) in
      (ap served p.whole ∙ first, ap waiting p.whole ∙ rest)

  pub Parts-Implements : (g : Gate) (line front : List ℕ) → Parts g line front → Implements g line
  Parts-Implements g line front p =
      let (first, rest) = Parts-served g line front p in
      record {
        queue = sym rest;
        inside = λ task. p.counted task ∙ ap (count task) (sym first);
        free = ap (λ xs. g.sem.value + length xs) first ∙ p.free;
      }
