-- ===== src/Limits/Tests.antt =====
-- Runs of the limits, and their theorems at concrete gates.
use mini_nginx.Common.{ℕ, ◌+◌, ◌≤◌, ◌≡◌, ◌≢◌, ◌⊎◌, refl, List, [], ◌∷◌, arith, length, pos}
use mini_nginx.Python.Text.{codes}
use mini_nginx.Pool.{Upstream}
use mini_nginx.Limits.{ConnectionLimits, create, acquire}
use mini_nginx.Limits.Queue.{count}
use mini_nginx.Limits.Manager.{Outcome, upstream_connection-Returns}
use mini_nginx.Limits.Clients.{
  Gate, opened, enter, leave, Reach, here, next, enters, leaves, client_limit, history,
}
use mini_nginx.Limits.Waiting.{Entered, waiting_served}
use mini_nginx.Limits.Line.{Moves, Implements}
use mini_nginx.Limits.Line.Refinement.{gate_refines}
use mini_nginx.Limits.Upstreams
use mini_nginx.Limits.Upstreams.{Connections, idle, connecting_limit, connections_unlimited}

abbrev one_slot : ConnectionLimits
one_slot = record { max_client_conns = 1; max_conns_per_upstream = pos 1 }

-- Task 1 is inside, task 2 waits.
abbrev crowded : Gate
crowded = enter 2 (enter 1 (opened one_slot))

abbrev crowded-Reach : Reach (opened one_slot) crowded
crowded-Reach = next (next here (enters 1)) (enters 2)

client_limit_example :
    (length crowded.inside ≤ 1)
    × (crowded.sem.value + length crowded.inside ≡ 1)
    × ((crowded.sem.value ≡ 0) ⊎ (crowded.sem.waiters ≡ []))
client_limit_example = client_limit one_slot crowded crowded-Reach

crowded_waiters : crowded.sem.waiters ≡ 2 ∷ []
unfolding enter acquire create
crowded_waiters = refl

abbrev local : Upstream
local = record { host = codes "127.0.0.1"; port = pos 9001 }

upstream_connection-Returns_example : Outcome local (create one_slot)
upstream_connection-Returns_example = upstream_connection-Returns local (create one_slot)

abbrev asked : Connections
asked = record (idle 1) { gate = enter 7 (idle 1).gate }

connecting_limit_example : length asked.gate.inside ≤ 1
connecting_limit_example =
    connecting_limit 1 asked (Upstreams.next Upstreams.here (Upstreams.asks 7))

connections_unlimited_example :
    (c : Connections) × Upstreams.Reach (idle 1) c
    × (length c.connected ≡ 3)
    × (c.gate ≡ (idle 1).gate)
connections_unlimited_example = connections_unlimited 1 3 (omega arith)

-- Task 1 leaves.
crowded-inside : count 1 crowded.inside ≢ 0
unfolding enter acquire create
crowded-inside e = cc

crowded_by_three : count 1 (enter 3 crowded).inside ≢ 0
unfolding enter acquire create
crowded_by_three e = cc

abbrev run : Reach crowded (leave 1 crowded)
run = next here (leaves 1 crowded-inside)

waiting_served_example : Entered 2 run
waiting_served_example = waiting_served 2 [] [] run crowded_waiters tt (omega arith)

-- A third task comes, the first leaves.
abbrev busy : Gate
busy = leave 1 (enter 3 crowded)

abbrev busy-Reach : Reach (opened one_slot) busy
busy-Reach = next (next crowded-Reach (enters 3)) (leaves 1 crowded_by_three)

gate_refines_example : (line : List ℕ) × Moves 1 (history busy-Reach) line × Implements 1 busy line
gate_refines_example = gate_refines one_slot busy busy-Reach
