-- ===== src/Pool.antt =====
-- The upstream servers and their round-robin pool (proxy/upstream_pool.py).
-- The lock makes each call of `get_next` one atomic step, so concurrent callers are a sequence.
pub mod RoundRobin
pub mod Fairness
mod Tests
use mini_nginx.Common.{
  ℕ, zero, suc, ◌+◌, ◌%◌, Option, none, some, List, [], ◌∷◌, ℤ, length, get_elem?, ◌>>=◌,
}

pub record Upstream : Type 0 where
  pub host : List ℕ
  pub port : ℤ

pub record UpstreamPool : Type 0 where
  pub upstreams : List Upstream
  pub current_index : ℕ

-- The constructor; `none` is the `ValueError` for an empty list.
unfoldable pub create : List Upstream → Option UpstreamPool
create [] = none
create (u ∷ us) = some (record { upstreams = u ∷ us; current_index = 0 })

-- `none` is the `IndexError` of a read past the end.
unfoldable pub get_next : UpstreamPool → Option (Upstream × UpstreamPool)
get_next pool = do
  upstream ← get_elem? pool.upstreams pool.current_index
  some (upstream, record pool { current_index = (pool.current_index + 1) % length pool.upstreams })

-- `UpstreamPool.__len__`
abbrev pub size : UpstreamPool → ℕ
size pool = length pool.upstreams

-- A number of calls in a row, by whichever tasks: what they return, in order.
unfoldable pub picks : ℕ → UpstreamPool → Option (List Upstream × UpstreamPool)
picks zero pool = some ([], pool)
picks (suc n) pool = do
  (upstream, pool') ← get_next pool
  (rest, pool'') ← picks n pool'
  some (upstream ∷ rest, pool'')
