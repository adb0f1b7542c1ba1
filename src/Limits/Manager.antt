-- ===== src/Limits/Manager.antt =====
-- The manager's dict of semaphores.
use mini_nginx.Common.{
  [], ℕ, subst, sym, ap, ◌∙◌, ◌⊎◌, Option, pos, negsuc, insert, ◌≡◌, ◌≢◌, refl, none, some, arith,
  ℤ, nat_eq, list_eq, int_eq, pair_eq, lookup, lookup-insert, HasUniqueKeys, insert-HasUniqueKeys,
  ==_iff, ==_refl, Option-cases, inl, inr,
}
use mini_nginx.Python.Text.{Text}
use mini_nginx.Pool.{Upstream}
use mini_nginx.Limits.{
  Semaphore, semaphore, new_semaphore, got, ConnectionLimitManager, upstream_key,
  upstream_connection,
}

-- What a call of `upstream_connection` returns and leaves.
pub record Returns (u : Upstream) (m : ConnectionLimitManager) (sem : Semaphore)
    (m' : ConnectionLimitManager) : Type 0 where
  pub stored : lookup (upstream_key u) m'.upstream_semaphores ≡ some sem
  pub known :
      (old : Semaphore)
      → lookup (upstream_key u) m.upstream_semaphores ≡ some old
      → (sem ≡ old) × (m' ≡ m)
  pub fresh :
      lookup (upstream_key u) m.upstream_semaphores ≡ none
      → (n : ℕ) × (m.limits.max_conns_per_upstream ≡ pos n) × (sem ≡ semaphore n)
  pub others :
      (key : Text × ℤ)
      → key ≢ upstream_key u
      → lookup key m'.upstream_semaphores ≡ lookup key m.upstream_semaphores
  pub clients : m'.client_semaphore ≡ m.client_semaphore
  pub limits : m'.limits ≡ m.limits
  pub unique : HasUniqueKeys m.upstream_semaphores → HasUniqueKeys m'.upstream_semaphores

found-Returns :
    (u : Upstream) (m : ConnectionLimitManager) (old : Semaphore)
    → lookup (upstream_key u) m.upstream_semaphores ≡ some old
    → Returns u m old m
found-Returns u m old found = record {
  stored = found;
  known = λ other e. (let same : old ≡ other = cc in same, refl);
  fresh = λ e. cc;
  others = λ key ne. refl;
  clients = refl;
  limits = refl;
  unique = λ h. h;
}

-- The manager that has stored a semaphore.
abbrev with_new : Upstream → Semaphore → ConnectionLimitManager → ConnectionLimitManager
with_new u sem m = record m {
  upstream_semaphores = insert (upstream_key u) sem m.upstream_semaphores;
}

missing-Returns :
    (u : Upstream) (m : ConnectionLimitManager) (n : ℕ)
    → lookup (upstream_key u) m.upstream_semaphores ≡ none
    → m.limits.max_conns_per_upstream ≡ pos n
    → Returns u m (semaphore n) (with_new u (semaphore n) m)
missing-Returns u m n missing limit =
    let key = upstream_key u in
    let made = semaphore n in
    let d = m.upstream_semaphores in
    record {
      stored = ground (arith, lookup-insert key key made d, ==_refl key);
      known = λ other e. cc;
      fresh = λ e. (n, limit, refl);
      others = λ j ne. ground (arith, lookup-insert key j made d, ==_iff key j);
      clients = refl;
      limits = refl;
      unique = λ h. ground (arith, insert-HasUniqueKeys key made d h);
    }

-- How a call ends: with a semaphore, or with the error for an upstream without one, where the limit is
-- negative.
pub data Outcome (u : Upstream) (m : ConnectionLimitManager) : Type 0 where
  returns :
      (sem : Semaphore) (m' : ConnectionLimitManager)
      → upstream_connection u m ≡ some (sem, m')
      → Returns u m sem m'
      → Outcome u m
  refuses :
      (n : ℕ)
      → upstream_connection u m ≡ none
      → lookup (upstream_key u) m.upstream_semaphores ≡ none
      → m.limits.max_conns_per_upstream ≡ negsuc n
      → Outcome u m

limit-cases : (z : ℤ) → ((n : ℕ) × (z ≡ pos n)) ⊎ ((n : ℕ) × (z ≡ negsuc n))
limit-cases (pos n) = inl (n, refl)
limit-cases (negsuc n) = inr (n, refl)

-- `upstream_connection` gives every upstream one semaphore: the stored one where its host and port
-- are known, and then nothing changes; else a new one with all its slots free, which it stores. It
-- changes no other upstream's semaphore, nor the clients', and stores no key twice. It raises an
-- error exactly where the host and port are not known and the limit is negative.
pub upstream_connection-Returns : (u : Upstream) (m : ConnectionLimitManager) → Outcome u m
unfolding upstream_connection
upstream_connection-Returns u m =
    let made : Option Semaphore = new_semaphore m.limits.max_conns_per_upstream in
    elim (Option-cases (lookup (upstream_key u) m.upstream_semaphores)) [
      | inl missing ↦ (elim (limit-cases m.limits.max_conns_per_upstream) [
        | inl (n, limit) ↦
            returns (semaphore n) (with_new u (semaphore n) m)
              (ap (λ o. got u m o made) missing ∙ ap (λ z. got u m none (new_semaphore z)) limit)
              (missing-Returns u m n missing limit)
        | inr (n, limit) ↦
            refuses n
              (ap (λ o. got u m o made) missing ∙ ap (λ z. got u m none (new_semaphore z)) limit)
              missing limit
      ])
      | inr (old, found) ↦
          returns old m (ap (λ o. got u m o made) found) (found-Returns u m old found)
    ]

some_pair :
    {u : Upstream} {m : ConnectionLimitManager} (sem sem' : Semaphore)
    (m' m'' : ConnectionLimitManager)
    → Returns u m sem m'
    → ◌≡◌ {A = Option (Semaphore × ConnectionLimitManager)} (some (sem, m')) (some (sem', m''))
    → Returns u m sem' m''
some_pair {u = u} {m = m} sem sem' m' m'' r e =
    let one : sem ≡ sem' = cc e in
    let two : m' ≡ m'' = cc e in subst (λ s. Returns u m s m'') one (subst (Returns u m sem) two r)

pub Outcome-Returns :
    {u : Upstream} {m : ConnectionLimitManager} (sem : Semaphore) (m' : ConnectionLimitManager)
    → upstream_connection u m ≡ some (sem, m')
    → Outcome u m
    → Returns u m sem m'
Outcome-Returns sem m' e (returns sem' m'' e' r) = some_pair sem' sem m'' m' r (sym e' ∙ e)
Outcome-Returns sem m' e (refuses n e' missing limit) = absurd (let bad = sym e' ∙ e in cc)

-- Without a slot to make, and with no semaphore yet, there is none for any upstream.
pub upstream_connection-negative :
    (u : Upstream) (m : ConnectionLimitManager) (n : ℕ)
    → m.limits.max_conns_per_upstream ≡ negsuc n
    → m.upstream_semaphores ≡ []
    → upstream_connection u m ≡ none
unfolding upstream_connection
upstream_connection-negative u m n limit none_known =
    ap (λ d. got u m (lookup (upstream_key u) d) (new_semaphore m.limits.max_conns_per_upstream))
      none_known
    ∙ ap (λ z. got u m none (new_semaphore z)) limit
