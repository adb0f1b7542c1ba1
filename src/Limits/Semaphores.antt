-- ===== src/Limits/Semaphores.antt =====
-- The semaphores that the manager gives, one for the clients and one for each upstream.
use mini_nginx.Common.{
  ◌≡◌, ◌≢◌, refl, sym, ap, ◌∙◌, true, Option, none, some, lookup, inl, inr, Bool-cases, ◌==◌,
  nat_eq, list_eq, int_eq, pair_eq, ==_iff,
}
use mini_nginx.Pool.{Upstream}
use mini_nginx.Limits.{
  Semaphore, new_semaphore, got, ConnectionLimitManager, acquire, upstream_connection, upstream_key,
}
use mini_nginx.Limits.Manager.{Returns, Outcome-Returns, upstream_connection-Returns}

abbrev pub first : Option (Semaphore × ConnectionLimitManager) → Option Semaphore
first none = none
first (some (sem, m)) = some sem

-- The semaphore that the manager gives for an upstream; none where the limit is negative.
abbrev pub semaphore_of : Upstream → ConnectionLimitManager → Option Semaphore
semaphore_of upstream m = first (upstream_connection upstream m)

-- Every slot that a task may ask for is free at once.
pub record IsFree (m : ConnectionLimitManager) : Type 0 where
  pub clients : (acquire 0 m.client_semaphore).0 ≡ true
  pub upstreams :
      (upstream : Upstream) (sem : Semaphore)
      → semaphore_of upstream m ≡ some sem
      → (acquire 0 sem).0 ≡ true

-- The semaphores of the clients and of every upstream are the same.
pub record IsSame (m m' : ConnectionLimitManager) : Type 0 where
  pub clients : m'.client_semaphore ≡ m.client_semaphore
  pub upstreams : (upstream : Upstream) → semaphore_of upstream m' ≡ semaphore_of upstream m

-- A semaphore from the dict's entry.
abbrev given : Option Semaphore → Option Semaphore → Option Semaphore
given none made = made
given (some sem) made = some sem

first-got :
    (upstream : Upstream) (m : ConnectionLimitManager) (known made : Option Semaphore)
    → first (got upstream m known made) ≡ given known made
first-got upstream m (some sem) made = refl
first-got upstream m none none = refl
first-got upstream m none (some sem) = refl

pub semaphore_of_lem :
    (upstream : Upstream) (m : ConnectionLimitManager)
    → semaphore_of upstream m
      ≡ given
          (lookup (upstream_key upstream) m.upstream_semaphores)
          (new_semaphore m.limits.max_conns_per_upstream)
unfolding upstream_connection
semaphore_of_lem upstream m =
    first-got upstream m (lookup (upstream_key upstream) m.upstream_semaphores)
      (new_semaphore m.limits.max_conns_per_upstream)

-- Asking for the semaphore of one upstream changes that of none.
pub semaphore_of-upstream_connection :
    (upstream other : Upstream) (m : ConnectionLimitManager) (sem : Semaphore)
    (m' : ConnectionLimitManager)
    → upstream_connection upstream m ≡ some (sem, m')
    → semaphore_of other m' ≡ semaphore_of other m
semaphore_of-upstream_connection upstream other m sem m' e =
    let got : Returns upstream m sem m' =
      Outcome-Returns sem m' e (upstream_connection-Returns upstream m) in
    let made : ConnectionLimitManager → Option Semaphore =
      λ n. new_semaphore n.limits.max_conns_per_upstream in
    elim (Bool-cases (upstream_key other == upstream_key upstream)) [
      | inl same ↦
          (let equal : upstream_key other ≡ upstream_key upstream =
              (==_iff (upstream_key other) (upstream_key upstream)).0 same in
            semaphore_of_lem other m'
            ∙ ap (λ k. given (lookup k m'.upstream_semaphores) (made m')) equal
            ∙ ap (λ o. given o (made m')) got.stored
            ∙ sym (ap first e)
            ∙ semaphore_of_lem upstream m
            ∙ ap (λ k. given (lookup k m.upstream_semaphores) (made m)) (sym equal)
            ∙ sym (semaphore_of_lem other m))
      | inr differs ↦
          (let apart : upstream_key other ≢ upstream_key upstream =
              λ e. let yes = (==_iff (upstream_key other) (upstream_key upstream)).1 e in cc in
            semaphore_of_lem other m'
            ∙ ap (λ o. given o (made m')) (got.others (upstream_key other) apart)
            ∙ ap
                (λ l.
                  given (lookup (upstream_key other) m.upstream_semaphores)
                    (new_semaphore l.max_conns_per_upstream))
                got.limits
            ∙ sym (semaphore_of_lem other m))
    ]

-- The semaphore of the clients has no part in it.
pub semaphore_of-client :
    (upstream : Upstream) (m : ConnectionLimitManager) (sem : Semaphore)
    → semaphore_of upstream (record m { client_semaphore = sem }) ≡ semaphore_of upstream m
semaphore_of-client upstream m sem =
    semaphore_of_lem upstream (record m { client_semaphore = sem })
    ∙ sym (semaphore_of_lem upstream m)
