-- ===== src/Limits/Clients.antt =====
-- The client side of the limits: which tasks hold a slot while they serve a client
-- (`async with cfg.connection_limits.client_connection()` in proxy/proxy_server.py).
use mini_nginx.Common.{
  ℕ, ◌+◌, ◌≤◌, ◌≡◌, ◌≢◌, ◌⊎◌, inr, refl, Option, none, some, List, [], ◌∷◌, ◌++◌, arith, length,
  if◌then◌else◌,
}
use mini_nginx.Limits.{ConnectionLimits, Semaphore, create, acquire, release}
use mini_nginx.Limits.Queue.{remove, count, length-remove}

-- The semaphore, and the tasks inside its `async with` block.
pub record Gate : Type 0 where
  pub sem : Semaphore
  pub inside : List ℕ

-- A gate before any client has come, at the semaphore of a manager.
abbrev pub opened : ConnectionLimits → Gate
opened limits = record { sem = (create limits).client_semaphore; inside = [] }

-- `__aenter__`
unfoldable pub enter : ℕ → Gate → Gate
enter task g =
    let (granted, sem') = acquire task g.sem in
    record { sem = sem'; inside = if granted then task ∷ g.inside else g.inside }

abbrev pub woken : Option ℕ → List ℕ → List ℕ
woken none tasks = tasks
woken (some task) tasks = task ∷ tasks

-- `__aexit__`, with the entry of the task that it wakes.
unfoldable pub leave : ℕ → Gate → Gate
leave task g =
    let (next, sem') = release g.sem in
    record { sem = sem'; inside = woken next (remove task g.inside) }

-- A waiting task is cancelled.
unfoldable pub give_up : ℕ → Gate → Gate
give_up task g = record g {
  sem = record { value = g.sem.value; waiters = remove task g.sem.waiters };
}

-- Clients come, those inside leave, and those that wait may be cancelled, in any order.
pub data Step : Gate → Gate → Type 0 where
  enters : (task : ℕ) {g : Gate} → Step g (enter task g)
  leaves : (task : ℕ) {g : Gate} → count task g.inside ≢ 0 → Step g (leave task g)
  gives_up : (task : ℕ) {g : Gate} → count task g.sem.waiters ≢ 0 → Step g (give_up task g)

pub data Reach (g : Gate) : Gate → Type 0 where
  here : Reach g g
  next : {h k : Gate} → Reach g h → Step h k → Reach g k

-- What has happened, the latest first.
pub data Event : Type 0 where
  entered left gave_up : ℕ → Event

abbrev pub event : {g h : Gate} → Step g h → Event
event (enters task) = entered task
event (leaves task h) = left task
event (gives_up task h) = gave_up task

abbrev pub history : {g h : Gate} → Reach g h → List Event
history here = []
history (next r s) = event s ∷ history r

-- Every slot is free or held, and no slot is free while a task waits.
pub record IsValid (limit : ℕ) (g : Gate) : Type 0 where
  pub slots : g.sem.value + length g.inside ≡ limit
  pub busy : (g.sem.value ≡ 0) ⊎ (g.sem.waiters ≡ [])

pub enter-IsValid : (limit task : ℕ) (g : Gate) → IsValid limit g → IsValid limit (enter task g)
unfolding enter acquire
enter-IsValid limit task g v = ground arith

pub leave-IsValid :
    (limit task : ℕ) (g : Gate)
    → count task g.inside ≢ 0
    → IsValid limit g
    → IsValid limit (leave task g)
unfolding leave release
leave-IsValid limit task g h v = ground (arith, length-remove task g.inside)

pub give_up-IsValid :
    (limit task : ℕ) (g : Gate)
    → count task g.sem.waiters ≢ 0
    → IsValid limit g
    → IsValid limit (give_up task g)
unfolding give_up
give_up-IsValid limit task g h v = ground arith

Step-IsValid : (limit : ℕ) {g h : Gate} → Step g h → IsValid limit g → IsValid limit h
Step-IsValid limit (enters task {g}) v = enter-IsValid limit task g v
Step-IsValid limit (leaves task {g} h) v = leave-IsValid limit task g h v
Step-IsValid limit (gives_up task {g} h) v = give_up-IsValid limit task g h v

pub Reach-IsValid : (limit : ℕ) {g h : Gate} → IsValid limit g → Reach g h → IsValid limit h
Reach-IsValid limit v here = v
Reach-IsValid limit v (next r s) = Step-IsValid limit s (Reach-IsValid limit v r)

-- However clients come, leave and are cancelled, the tasks that serve a client are never more than
-- `max_client_conns`, the free slots and the held ones add up to it, and while a task waits for a
-- slot none is free.
pub client_limit :
    (limits : ConnectionLimits) (g : Gate)
    → Reach (opened limits) g
    → (length g.inside ≤ limits.max_client_conns)
      × (g.sem.value + length g.inside ≡ limits.max_client_conns)
      × ((g.sem.value ≡ 0) ⊎ (g.sem.waiters ≡ []))
unfolding create
client_limit limits g r =
    let v =
      Reach-IsValid limits.max_client_conns {g = opened limits}
        (record { slots = omega arith; busy = inr refl }) r in
    (omega (arith, v.slots), v.slots, v.busy)

-- While tasks wait, a task that comes goes behind all of them and does not enter, and a task that
-- leaves hands its slot to the one that has waited longest, with the order of the others kept.
pub first_come :
    (limits : ConnectionLimits) (g : Gate) (task other : ℕ) (tasks : List ℕ)
    → Reach (opened limits) g
    → g.sem.waiters ≡ other ∷ tasks
    → ((enter task g).sem.waiters ≡ other ∷ (tasks ++ task ∷ []))
      × ((enter task g).inside ≡ g.inside)
      × ((leave task g).sem.waiters ≡ tasks)
      × ((leave task g).inside ≡ other ∷ remove task g.inside)
unfolding create enter leave acquire release
first_come limits g task other tasks r e =
    let v =
      Reach-IsValid limits.max_client_conns {g = opened limits}
        (record { slots = omega arith; busy = inr refl }) r in
    (ground arith, ground arith, ground arith, ground arith)
