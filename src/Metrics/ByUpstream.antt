-- ===== src/Metrics/ByUpstream.antt =====
-- The counter of finished requests by upstream, over any number of them.
use mini_nginx.Common.{
  ℕ, zero, suc, ◌+◌, ◌*◌, ◌≡◌, sym, ap, ◌∙◌, Option, none, some, List, [], ◌∷◌, ◌++◌, arith, nat_eq,
  list_eq, Dict, get_or, lookup, Bool-cases, inl, inr, lookup-insert, ◌==◌, if◌then◌else◌,
}
use mini_nginx.Python.Text.{Text}
use mini_nginx.Pool.{Upstream}
use mini_nginx.Pool.Fairness.{repeat}
use mini_nginx.Metrics.{bump, upstream_key}

-- The names of the upstreams, as the counters have them.
abbrev pub key_of : Upstream → Text
key_of upstream = upstream_key upstream.host upstream.port

-- How often a name stands in a list of upstreams.
abbrev pub times : Text → List Upstream → ℕ
times key [] = 0
times key (upstream ∷ us) = if key_of upstream == key then suc (times key us) else times key us

abbrev pub bump_all : List Upstream → Dict Text ℕ → Dict Text ℕ
bump_all [] d = d
bump_all (upstream ∷ us) d = bump_all us (bump (key_of upstream) d)

-- What stands under a key, or 0.
abbrev value : Option ℕ → ℕ
value none = 0
value (some v) = v

get_or-bump :
    (k j : Text) (d : Dict Text ℕ)
    → get_or (bump k d) j 0 ≡ (if k == j then get_or d j 0 + 1 else get_or d j 0)
get_or-bump k j d =
    let raised : ℕ = get_or d k 0 + 1 in
    elim (Bool-cases (k == j)) [
      | inl same ↦
          (let equal : k ≡ j = (list_eq.beq_iff k j).0 same in
            ap value
              (lookup-insert k j raised d ∙ ap (λ b. if b then some raised else lookup j d) same)
            ∙ ap (λ x. get_or d x 0 + 1) equal
            ∙ ap (λ b. if b then get_or d j 0 + 1 else get_or d j 0) (sym same))
      | inr other ↦
          ap value
            (lookup-insert k j raised d ∙ ap (λ b. if b then some raised else lookup j d) other)
          ∙ ap (λ b. if b then get_or d j 0 + 1 else get_or d j 0) (sym other)
    ]

pub get_or-bump_all :
    (key : Text) (us : List Upstream) (d : Dict Text ℕ)
    → get_or (bump_all us d) key 0 ≡ get_or d key 0 + times key us
get_or-bump_all key [] d = omega arith
get_or-bump_all key (upstream ∷ us) d =
    let later = get_or-bump_all key us (bump (key_of upstream) d) in
    let first = get_or-bump (key_of upstream) key d in ground (arith, later, first)

times-append :
    (key : Text) (us vs : List Upstream) → times key (us ++ vs) ≡ times key us + times key vs
times-append key [] vs = omega arith
times-append key (upstream ∷ us) vs = ground (arith, times-append key us vs)

pub times-repeat :
    (key : Text) (r : ℕ) (us : List Upstream) → times key (repeat r us) ≡ r * times key us
times-repeat key zero us = grind arith
times-repeat key (suc r) us =
    grind (arith, times-append key us (repeat r us), times-repeat key r us)
