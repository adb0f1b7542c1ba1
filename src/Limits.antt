-- ===== src/Limits.antt =====
-- Connection limits (proxy/limits.py): a semaphore for the clients and one for each upstream.
-- `asyncio.Semaphore` is that of Python 3.12, with its queue of waiting tasks.
pub mod Queue
pub mod Manager
pub mod Semaphores
pub mod Clients
pub mod Waiting
pub mod Line
pub mod Upstreams
mod Tests
use mini_nginx.Common.{
  zero, suc, ◌≡◌, ℕ, ◌+◌, ◌-◌, Bool, true, false, ◌&&◌, Option, none, some, List, [], ◌∷◌, ◌++◌,
  map, ℤ, pos, negsuc, if◌then◌else◌, ltb, nat_eq, list_eq, int_eq, pair_eq, Dict, insert, lookup,
  contains, get_or,
}
use mini_nginx.Python.Text.{Text}
use mini_nginx.Pool.{Upstream}

pub record ConnectionLimits : Type 0 where
  pub max_client_conns : ℕ
  pub max_conns_per_upstream : ℤ

-- `DEFAULT_LIMITS`
abbrev pub default_limits : ConnectionLimits
default_limits = record { max_client_conns = 1000; max_conns_per_upstream = pos 100 }

-- The counter, and the tasks that wait in `acquire`, the longest waiting first.
pub record Semaphore : Type 0 where
  pub value : ℕ
  pub waiters : List ℕ

abbrev pub semaphore : ℕ → Semaphore
semaphore value = record { value = value; waiters = [] }

-- `asyncio.Semaphore(value)`; `none` is the `ValueError` for a negative value.
abbrev pub new_semaphore : ℤ → Option Semaphore
new_semaphore (pos n) = some (semaphore n)
new_semaphore (negsuc n) = none

abbrev pub is_empty {ℓ} : {A : Type ℓ} → List A → Bool
is_empty [] = true
is_empty (x ∷ xs) = false

-- `acquire` by a task: `true` when it goes on at once, `false` when it waits in the queue.
unfoldable pub acquire : ℕ → Semaphore → Bool × Semaphore
acquire task sem =
    if ltb 0 sem.value && is_empty sem.waiters
    then (true, record sem { value = sem.value - 1 })
    else (false, record sem { waiters = sem.waiters ++ task ∷ [] })

-- The release hands the slot to the first waiter, if there is one.
abbrev pub hand_over : ℕ → List ℕ → Option ℕ × Semaphore
hand_over value [] = (none, record { value = value + 1; waiters = [] })
hand_over value (task ∷ tasks) = (some task, record { value = value; waiters = tasks })

-- `release`: the task that is woken, if any.
unfoldable pub release : Semaphore → Option ℕ × Semaphore
release sem = hand_over sem.value sem.waiters

pub record ConnectionLimitManager : Type 0 where
  pub limits : ConnectionLimits
  pub client_semaphore : Semaphore
  pub upstream_semaphores : Dict (Text × ℤ) Semaphore

-- The constructor, for limits whose `max_client_conns` is not negative.
unfoldable pub create : ConnectionLimits → ConnectionLimitManager
create limits = record {
  limits = limits;
  client_semaphore = semaphore limits.max_client_conns;
  upstream_semaphores = [];
}

abbrev pub client_connection : ConnectionLimitManager → Semaphore
client_connection m = m.client_semaphore

abbrev pub upstream_key : Upstream → Text × ℤ
upstream_key upstream = (upstream.host, upstream.port)

-- The semaphore of an upstream: the stored one, or a new one that is stored.
abbrev pub got :
    Upstream
    → ConnectionLimitManager
    → Option Semaphore
    → Option Semaphore
    → Option (Semaphore × ConnectionLimitManager)
got upstream m (some sem) made = some (sem, m)
got upstream m none none = none
got upstream m none (some sem) = some (
  sem,
  record m { upstream_semaphores = insert (upstream_key upstream) sem m.upstream_semaphores },
)

-- A semaphore is made on the first call for a host and a port; `none` is the `ValueError` that it
-- raises for a negative limit.
unfoldable pub upstream_connection :
    Upstream → ConnectionLimitManager → Option (Semaphore × ConnectionLimitManager)
upstream_connection upstream m =
    got upstream m (lookup (upstream_key upstream) m.upstream_semaphores)
      (new_semaphore m.limits.max_conns_per_upstream)

-- Whether a limit lets any task in.
abbrev pub has_slots : ℤ → Bool
has_slots (pos zero) = false
has_slots (pos (suc n)) = true
has_slots (negsuc n) = false

-- The limit of an upstream is more than zero.
abbrev pub HasSlots : ConnectionLimitManager → Type 0
HasSlots m = has_slots m.limits.max_conns_per_upstream ≡ true

pub record UpstreamStats : Type 0 where
  pub available : ℕ
  pub limit : ℤ

pub record Stats : Type 0 where
  pub client_connections_available : ℕ
  pub client_connections_limit : ℕ
  pub upstream_stats : List ((Text × ℤ) × UpstreamStats)

stats_of : ℤ → Dict (Text × ℤ) Semaphore → List ((Text × ℤ) × UpstreamStats)
stats_of limit [] = []
stats_of limit ((key, sem) ∷ sems) =
    (key, record { available = sem.value; limit = limit }) ∷ stats_of limit sems

-- `get_stats`; the keys stay pairs, where the code prints them.
unfoldable pub get_stats : ConnectionLimitManager → Stats
unfolding stats_of
get_stats m = record {
  client_connections_available = m.client_semaphore.value;
  client_connections_limit = m.limits.max_client_conns;
  upstream_stats = stats_of m.limits.max_conns_per_upstream m.upstream_semaphores;
}
