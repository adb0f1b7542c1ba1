-- ===== src/Pool/Tests.antt =====
-- Runs of the pool, and the theorems at concrete pools.
use mini_nginx.Common.{◌≡◌, refl, some, List, [], ◌∷◌, pos, arith}
use mini_nginx.Python.Text.{codes}
use mini_nginx.Pool.{Upstream, UpstreamPool, get_next, picks}
use mini_nginx.Pool.RoundRobin.{IsValid, RoundRobin, picks-RoundRobin}

abbrev first : Upstream
first = record { host = codes "127.0.0.1"; port = pos 9001 }

abbrev second : Upstream
second = record { host = codes "127.0.0.1"; port = pos 9002 }

abbrev two : UpstreamPool
two = record { upstreams = first ∷ second ∷ []; current_index = 1 }

two-IsValid : IsValid two
two-IsValid = record { in_range = omega arith }

picks-RoundRobin_example :
    (us : List Upstream) × (pool' : UpstreamPool) × (picks 5 two ≡ some (us, pool'))
    × RoundRobin two 5 us pool'
picks-RoundRobin_example = picks-RoundRobin 5 two two-IsValid

-- The third call of a pool of two returns the first upstream again.
picks_three : picks 3 (record two { current_index = 0 }) ≡ some (first ∷ second ∷ first ∷ [], two)
unfolding picks get_next
picks_three = refl
