-- ===== src/Limits/Upstreams.antt =====
-- The connections to one upstream, as `_proxy_to_upstream_internal` of proxy/client_handler.py
-- opens them: the slot is taken for `open_connection` alone and given back before the request.
use mini_nginx.Common.{
  ℕ, zero, suc, ◌<◌, ◌≤◌, ◌≡◌, ◌≢◌, refl, ap, subst, List, [], ◌∷◌, arith, length, inr,
}
use mini_nginx.Limits.{semaphore, acquire, release}
use mini_nginx.Limits.Queue.{remove, count}
use mini_nginx.Limits.Clients.{
  Gate, enter, leave, give_up, IsValid, enter-IsValid, leave-IsValid, give_up-IsValid,
}

-- Who is inside `async with upstream_semaphore`, and the tasks with an open connection.
pub record Connections : Type 0 where
  pub gate : Gate
  pub connected : List ℕ

abbrev pub idle : ℕ → Connections
idle limit = record { gate = record { sem = semaphore limit; inside = [] }; connected = [] }

-- A request asks for a slot; `open_connection` succeeds or fails inside the block; a request ends
-- and closes its connection; a request that waits for its slot is cancelled by the total timeout.
pub data Step : Connections → Connections → Type 0 where
  asks : (task : ℕ) {c : Connections} → Step c (record c { gate = enter task c.gate })
  connects :
      (task : ℕ) {c : Connections}
      → count task c.gate.inside ≢ 0
      → Step c (record { gate = leave task c.gate; connected = task ∷ c.connected })
  fails :
      (task : ℕ) {c : Connections}
      → count task c.gate.inside ≢ 0
      → Step c (record c { gate = leave task c.gate })
  gives_up :
      (task : ℕ) {c : Connections}
      → count task c.gate.sem.waiters ≢ 0
      → Step c (record c { gate = give_up task c.gate })
  closes :
      (task : ℕ) {c : Connections}
      → count task c.connected ≢ 0
      → Step c (record c { connected = remove task c.connected })

pub data Reach (c : Connections) : Connections → Type 0 where
  here : Reach c c
  next : {d e : Connections} → Reach c d → Step d e → Reach c e

Step-IsValid :
    (limit : ℕ) {c d : Connections} → Step c d → IsValid limit c.gate → IsValid limit d.gate
Step-IsValid limit (asks task {c}) v = enter-IsValid limit task c.gate v
Step-IsValid limit (connects task {c} h) v = leave-IsValid limit task c.gate h v
Step-IsValid limit (fails task {c} h) v = leave-IsValid limit task c.gate h v
Step-IsValid limit (gives_up task {c} h) v = give_up-IsValid limit task c.gate h v
Step-IsValid limit (closes task h) v = v

Reach-IsValid :
    (limit : ℕ) {c d : Connections} → IsValid limit c.gate → Reach c d → IsValid limit d.gate
Reach-IsValid limit v here = v
Reach-IsValid limit v (next r s) = Step-IsValid limit s (Reach-IsValid limit v r)

-- The attempts to connect to one upstream that are under way are never more than its limit.
pub connecting_limit :
    (limit : ℕ) (c : Connections) → Reach (idle limit) c → length c.gate.inside ≤ limit
connecting_limit limit c r =
    let start : IsValid limit (idle limit).gate = record { slots = omega arith; busy = inr refl } in
    omega (arith, (Reach-IsValid limit start r).slots)

-- A task that finds all slots free takes one and gives it back.
enter-leave :
    (limit task : ℕ)
    → 0 < limit
    → (leave task (enter task (idle limit).gate) ≡ (idle limit).gate)
      × (count task (enter task (idle limit).gate).inside ≢ 0)
unfolding enter leave acquire release
enter-leave zero task h = absurd (omega arith)
enter-leave (suc limit) task h = (ground arith, ground arith)

abbrev holding : ℕ → List ℕ → Connections
holding limit tasks = record (idle limit) { connected = tasks }

open_all :
    (limit : ℕ)
    → 0 < limit
    → (n : ℕ) → (tasks : List ℕ) × Reach (idle limit) (holding limit tasks) × (length tasks ≡ n)
open_all limit h zero = ([], here, refl)
open_all limit h (suc n) =
    let (tasks, r, e) = open_all limit h n in
    let (same, inside) = enter-leave limit n h in
    (
      n ∷ tasks,
      subst (λ (g : Gate). Reach (idle limit) (record { gate = g; connected = n ∷ tasks })) same
          (next (next r (asks n)) (connects n inside)),
      ap suc e,
    )

-- The open connections to one upstream are not limited: with any limit but zero, and for any number
-- `n`, a state is reached in which `n` connections are open, all slots are free and nobody waits.
pub connections_unlimited :
    (limit n : ℕ)
    → 0 < limit
    → (c : Connections) × Reach (idle limit) c
      × (length c.connected ≡ n)
      × (c.gate ≡ (idle limit).gate)
connections_unlimited limit n h =
    let (tasks, r, e) = open_all limit h n in (holding limit tasks, r, e, refl)
