-- ===== src/Pool/Fairness.antt =====
-- Full rounds: how often each upstream is handed out.
use Prim.Native.Nat.add
use Prim.Native.Nat.mul
use native.Mathlib.Nat.{zero-mod, mod_self, mod-eq_of_lt}
use mini_nginx.Common.{
  ℕ, zero, suc, ◌+◌, ◌*◌, ◌%◌, ◌<◌, ◌≡◌, refl, sym, ap, ◌∙◌, some, List, [], ◌∷◌, ◌++◌, arith,
  length, length-append, get_elem?, >>=-eq-some, append_assoc,
}
use mini_nginx.Pool.{Upstream, UpstreamPool, create, get_next, picks}

-- The pool over a list, `i` calls after its creation.
abbrev after : List Upstream → ℕ → UpstreamPool
after us i = record { upstreams = us; current_index = i % length us }

-- The list, a number of times over.
abbrev pub repeat {ℓ} : {A : Type ℓ} → ℕ → List A → List A
repeat zero xs = []
repeat (suc n) xs = xs ++ repeat n xs

lt-length {ℓ} : {A : Type ℓ} (xs : List A) (i : ℕ) {x : A} → get_elem? xs i ≡ some x → i < length xs
lt-length [] i e = cc
lt-length (x ∷ xs) zero e = omega arith
lt-length (x ∷ xs) (suc i) e = omega (arith, lt-length xs i e)

get_next-after :
    (us : List Upstream) (i : ℕ) (u : Upstream)
    → get_elem? us i ≡ some u
    → get_next (after us i) ≡ some (u, after us (suc i))
unfolding get_next
get_next-after us i u e =
    let inside : i % length us ≡ i = mod-eq_of_lt (lt-length us i e) in
    let moved : (i + 1) % length us ≡ suc i % length us = ap (λ j. j % length us) (omega arith) in
    rw inside (rw (e, moved))

get_elem?-append {ℓ} :
    {A : Type ℓ} (pre : List A) (x : A) (post : List A)
    → get_elem? (pre ++ x ∷ post) (length pre) ≡ some x
get_elem?-append [] x post = refl
get_elem?-append (y ∷ pre) x post = get_elem?-append pre x post

-- The calls from a place in the list to its end return what stands there, in order.
picks_rest :
    (us pre rest : List Upstream)
    → us ≡ pre ++ rest
    → picks (length rest) (after us (length pre)) ≡ some (rest, after us (length us))
unfolding picks
picks_rest us pre [] e =
    let len : length pre ≡ length us =
      omega
        (arith, ap length e, length-append pre (let none_left : List Upstream = [] in none_left)) in
    rw len
picks_rest us pre (u ∷ rest) e =
    let len : suc (length pre) ≡ length (pre ++ u ∷ []) =
      omega (arith, length-append pre (u ∷ [])) in
    let found : get_elem? us (length pre) ≡ some u = rw e (get_elem?-append pre u rest) in
    rw (
      get_next-after us (length pre) u found,
      len,
      picks_rest us (pre ++ u ∷ []) rest (e ∙ sym (append_assoc pre (u ∷ []) rest)),
    )

picks-add :
    (m n : ℕ) (pool pool' pool'' : UpstreamPool) (us vs : List Upstream)
    → picks m pool ≡ some (us, pool')
    → picks n pool' ≡ some (vs, pool'')
    → picks (m + n) pool ≡ some (us ++ vs, pool'')
unfolding picks
picks-add zero n pool pool' pool'' us vs e f = ground (arith, add.zero n)
picks-add (suc m) n pool pool' pool'' us vs e f =
    let (next, e1, e2) = >>=-eq-some (get_next pool) _ e in
    let (later, e3, e4) = >>=-eq-some (picks m next.1) _ e2 in
    let listed : us ≡ next.0 ∷ later.0 = cc e4 in
    let ended : picks m next.1 ≡ some (later.0, pool') = e3 ∙ cc e4 in
    let both = picks-add m n next.1 pool' pool'' later.0 vs ended f in
    rw (add.suc m n, e1, both) (cc listed)

-- The pool after full rounds.
picks_rounds :
    (r : ℕ) (us : List Upstream)
    → picks (r * length us) (after us 0) ≡ some (repeat r us, after us 0)
unfolding picks
picks_rounds zero us = rw mul.zero
picks_rounds (suc r) us =
    let split : suc r * length us ≡ length us + r * length us = grind arith in
    let back : after us (length us) ≡ after us 0 =
      ap (λ i. record { upstreams = us; current_index = i }) (mod_self _ ∙ sym (zero-mod _)) in
    rw split (
      picks-add (length us) (r * length us) _ _ _ us (repeat r us)
        (picks_rest us [] us refl ∙ ap (λ p. some (us, p)) back) (picks_rounds r us))

-- From its creation, a pool hands out its list in order, and after `r` rounds each entry of the
-- list has been handed out exactly `r` times, in `r` copies of the list; the pool is as created.
pub create-picks :
    (r : ℕ) (us : List Upstream) (pool : UpstreamPool)
    → create us ≡ some pool
    → picks (r * length us) pool ≡ some (repeat r us, pool)
unfolding create
create-picks r [] pool e = cc
create-picks r (u ∷ us) pool e =
    let same : pool ≡ after (u ∷ us) 0 = ground (arith, zero-mod (length (u ∷ us))) in
    rw same (picks_rounds r (u ∷ us))
