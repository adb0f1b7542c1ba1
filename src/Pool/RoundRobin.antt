-- ===== src/Pool/RoundRobin.antt =====
-- The order in which the pool hands out its upstreams.
use native.Mathlib.Nat.{mod-lt, mod-eq_of_lt, mod-add-mod, add-zero}
use mini_nginx.Common.{
  ℕ, zero, suc, ◌+◌, ◌%◌, ◌<◌, ◌≡◌, ◌↔◌, refl, sym, ap, ◌∙◌, none, some, List, [], ◌∷◌, arith,
  length, get_elem?, ◌>>=◌,
}
use mini_nginx.Pool.{Upstream, UpstreamPool, create, get_next, picks}

-- The index points into the list, which so is not empty.
pub record IsValid (pool : UpstreamPool) : Type 0 where
  pub in_range : pool.current_index < length pool.upstreams

-- A read inside the list succeeds.
get_elem?-some {ℓ} :
    {A : Type ℓ} (xs : List A) (i : ℕ) → i < length xs → (x : A) × (get_elem? xs i ≡ some x)
get_elem?-some [] i h = absurd (omega arith)
get_elem?-some (x ∷ xs) zero h = (x, refl)
get_elem?-some (x ∷ xs) (suc i) h = get_elem?-some xs i (omega arith)

-- What one call does to a valid pool.
pub get_next_lem :
    (pool : UpstreamPool)
    → IsValid pool
    → (u : Upstream) × (get_elem? pool.upstreams pool.current_index ≡ some u)
      × (get_next pool
          ≡ some
              (u, record pool { current_index = (pool.current_index + 1) % length pool.upstreams }))
unfolding get_next
get_next_lem pool v =
    let (u, e) = get_elem?-some pool.upstreams pool.current_index v.in_range in
    (u, e, rw (e, ◌>>=◌))

-- A call returns the upstream at the index, moves the index to the next place (round the end), and
-- keeps the list and the invariant; on a valid pool it never fails.
pub get_next-IsValid :
    (pool : UpstreamPool)
    → IsValid pool
    → (u : Upstream) × (pool' : UpstreamPool) × (get_next pool ≡ some (u, pool'))
      × (get_elem? pool.upstreams pool.current_index ≡ some u)
      × (pool'.upstreams ≡ pool.upstreams)
      × IsValid pool'
get_next-IsValid pool v =
    let (u, found, e) = get_next_lem pool v in
    (u, _, e, found, refl, record { in_range = mod-lt _ (omega (arith, v.in_range)) })

-- The constructor fails exactly on the empty list, and otherwise gives a valid pool over the list.
pub create-IsValid :
    (us : List Upstream)
    → ((create us ≡ none) ↔ (us ≡ []))
      × ((pool : UpstreamPool) → create us ≡ some pool → IsValid pool × (pool.upstreams ≡ us))
unfolding create
create-IsValid [] = (((λ e. refl), (λ e. refl)), (λ pool e. cc))
create-IsValid (u ∷ us) = (((λ e. cc), (λ e. cc)), (λ pool e. ground arith))

-- What `n` calls in a row do.
pub record RoundRobin (pool : UpstreamPool) (n : ℕ) (us : List Upstream) (pool' : UpstreamPool)
    : Type 0 where
  pub returned : length us ≡ n
  pub kept : pool'.upstreams ≡ pool.upstreams
  pub moved : pool'.current_index ≡ (pool.current_index + n) % length pool.upstreams
  pub in_turn :
      (k : ℕ)
      → k < n
      → get_elem? us k ≡ get_elem? pool.upstreams ((pool.current_index + k) % length pool.upstreams)

-- The index after one call, and then `n` more.
shifted : (i n len : ℕ) → ((i + 1) % len + n) % len ≡ (i + suc n) % len
shifted i n len =
    let e : i + 1 + n ≡ i + suc n = omega arith in mod-add-mod (i + 1) len n ∙ ap (λ j. j % len) e

module _ (pool : UpstreamPool) (u : Upstream) (us : List Upstream) (n : ℕ) (v : IsValid pool) where
  in_turn-cons :
      get_elem? pool.upstreams pool.current_index ≡ some u
      → ((k : ℕ)
          → k < n
          → get_elem? us k
            ≡ get_elem? pool.upstreams
                (((pool.current_index + 1) % length pool.upstreams + k) % length pool.upstreams))
      → (k : ℕ) → k < suc n
      → get_elem? (u ∷ us) k
        ≡ get_elem? pool.upstreams ((pool.current_index + k) % length pool.upstreams)
  in_turn-cons found later zero h = rw (add-zero, mod-eq_of_lt v.in_range) (sym found)
  in_turn-cons found later (suc k) h =
      later k (omega arith)
      ∙ ap (get_elem? pool.upstreams) (shifted pool.current_index k (length pool.upstreams))

-- From a valid pool, `n` calls succeed, and the call with number `k` returns the upstream that
-- stands `k` places after the index, counted round the end; the index ends `n` places further.
pub picks-RoundRobin :
    (n : ℕ) (pool : UpstreamPool)
    → IsValid pool
    → (us : List Upstream) × (pool' : UpstreamPool) × (picks n pool ≡ some (us, pool'))
      × RoundRobin pool n us pool'
unfolding picks
picks-RoundRobin zero pool v = (
  [],
  pool,
  refl,
  record {
    returned = refl;
    kept = refl;
    moved = sym (ap (λ i. i % length pool.upstreams) (add-zero _) ∙ mod-eq_of_lt v.in_range);
    in_turn = λ k h. absurd (omega arith);
  },
)
picks-RoundRobin (suc n) pool v =
    let (u, found, e) = get_next_lem pool v in
    let len = length pool.upstreams in
    let next : UpstreamPool = record pool { current_index = (pool.current_index + 1) % len } in
    let (us, pool', e', r) =
      picks-RoundRobin n next (record { in_range = mod-lt _ (omega (arith, v.in_range)) }) in
    (
      u ∷ us,
      pool',
      rw (e, e'),
      record {
        returned = ap suc r.returned;
        kept = r.kept;
        moved = r.moved ∙ shifted pool.current_index n len;
        in_turn = in_turn-cons pool u us n v found r.in_turn;
      },
    )
