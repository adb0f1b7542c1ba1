-- ===== src/Metrics/Order.antt =====
-- The text of the counters does not depend on the order in which upstreams were first met.
use mini_nginx.Common.{
  ℕ, ◌≡◌, ◌≢◌, refl, sym, ap, subst, ◌∙◌, false, none, some, [], ◌∷◌, Dict, lookup, HasUniqueKeys,
  nat_eq, list_eq, ◌==◌, ==_iff, ==_refl, ==_ne, if◌then◌else◌, Bool-cases, Option-cases, inl, inr,
}
use mini_nginx.Python.Text.{Text}
use mini_nginx.Metrics.{Metrics}
use mini_nginx.Metrics.Render.{sorted, render_lines, render}
use mini_nginx.Metrics.Sorting.{
  true-ne-false, text_leb_antisym, Above, Ascending, Above-lookup, sorted_correct,
}

module _ {ℓ} {V : Type ℓ} where
  lookup-first : (k : Text) (v : V) (d : Dict Text V) → lookup k ((k, v) ∷ d) ≡ some v
  lookup-first k v d = ap (λ b. if b then some v else lookup k d) (==_refl k)

  lookup-later :
      (k i : Text) (v : V) (d : Dict Text V) → (k == i) ≡ false → lookup i ((k, v) ∷ d) ≡ lookup i d
  lookup-later k i v d other = ap (λ b. if b then some v else lookup i d) other

  Above-none : (k : Text) (d : Dict Text V) → Above k d → lookup k d ≡ none
  Above-none k d a = elim (Option-cases (lookup k d)) [
    | inl missing ↦ missing
    | inr (v, found) ↦ absurd ((Above-lookup k k d a found).1 refl)
  ]

  some-ne-none : {v : V} → some v ≢ none
  some-ne-none e = cc

  some-injective : {v w : V} → some v ≡ some w → v ≡ w
  some-injective e = cc

  -- With the same first key, the first values are equal and the rests have the same entries.
  same-first :
      (k : Text) (v w : V) (d e : Dict Text V)
      → Above k d
      → Above k e
      → (((i : Text) → lookup i d ≡ lookup i e) → d ≡ e)
      → ((i : Text) → lookup i ((k, v) ∷ d) ≡ lookup i ((k, w) ∷ e))
      → ◌≡◌ {A = Dict Text V} ((k, v) ∷ d) ((k, w) ∷ e)
  same-first k v w d e ak bk rest same =
      let values : v ≡ w =
        some-injective (sym (lookup-first k v d) ∙ same k ∙ lookup-first k w e) in
      let entries : (i : Text) → lookup i d ≡ lookup i e = λ i. elim (Bool-cases (k == i)) [
        | inl here ↦
            subst (λ x. lookup x d ≡ lookup x e) ((==_iff k i).0 here)
              (Above-none k d ak ∙ sym (Above-none k e bk))
        | inr other ↦ sym (lookup-later k i v d other) ∙ same i ∙ lookup-later k i w e other
      ] in
      ap (λ x. (k, x) ∷ d) values ∙ ap (λ r. (k, w) ∷ r) (rest entries)

  -- The first keys of two ascending dicts with the same entries.
  first-keys :
      (k j : Text) (v w : V) (d e : Dict Text V)
      → Above k d
      → Above j e
      → ((i : Text) → lookup i ((k, v) ∷ d) ≡ lookup i ((j, w) ∷ e))
      → k ≡ j
  first-keys k j v w d e ak bj same = elim (Bool-cases (k == j)) [
    | inl equal ↦ (==_iff k j).0 equal
    | inr other ↦
        (let ne : j ≢ k = λ q. true-ne-false (sym ((==_iff k j).1 (sym q)) ∙ other) in
          let in_e : lookup k e ≡ some v =
            sym (lookup-later j k w e (==_ne j k ne)) ∙ sym (same k) ∙ lookup-first k v d in
          let in_d : lookup j d ≡ some w =
            sym (lookup-later k j v d other) ∙ same j ∙ lookup-first j w e in
          text_leb_antisym k j (Above-lookup k j d ak in_d).0 (Above-lookup j k e bj in_e).0)
  ]

  -- Two ascending dicts with the same entries are the same list.
  Ascending-eq :
      (d e : Dict Text V)
      → Ascending d
      → Ascending e
      → ((i : Text) → lookup i d ≡ lookup i e)
      → d ≡ e
  Ascending-eq [] [] a b same = refl
  Ascending-eq [] ((j, w) ∷ e) a b same =
      absurd (some-ne-none (sym (lookup-first j w e) ∙ sym (same j)))
  Ascending-eq ((k, v) ∷ d) [] a b same = absurd (some-ne-none (sym (lookup-first k v d) ∙ same k))
  Ascending-eq ((k, v) ∷ d) ((j, w) ∷ e) (ak, a) (bj, b) same =
      let q : k ≡ j = first-keys k j v w d e ak bj same in
      subst
        (λ x.
          Above x e
          → ((i : Text) → lookup i ((k, v) ∷ d) ≡ lookup i ((x, w) ∷ e))
          → ◌≡◌ {A = Dict Text V} ((k, v) ∷ d) ((x, w) ∷ e))
        q (λ bk same'. same-first k v w d e ak bk (Ascending-eq d e a b) same') bj same

  pub sorted-eq :
      (d e : Dict Text V)
      → HasUniqueKeys d
      → HasUniqueKeys e
      → ((i : Text) → lookup i d ≡ lookup i e)
      → sorted d ≡ sorted e
  sorted-eq d e h k same =
      let (a, from_d) = sorted_correct d h in
      let (b, from_e) = sorted_correct e k in
      Ascending-eq (sorted d) (sorted e) a b (λ i. from_d i ∙ same i ∙ sym (from_e i))

-- The text is the same for counters whose dicts of upstreams have the same entries, in whatever order
-- the upstreams were first met.
pub render-order :
    (m : Metrics) (requests : Dict Text ℕ) (errors : Dict Text (Dict Text ℕ))
    → HasUniqueKeys m.upstream_requests_total
    → HasUniqueKeys requests
    → ((key : Text) → lookup key requests ≡ lookup key m.upstream_requests_total)
    → HasUniqueKeys m.upstream_errors_total
    → HasUniqueKeys errors
    → ((key : Text) → lookup key errors ≡ lookup key m.upstream_errors_total)
    → render (record m { upstream_requests_total = requests; upstream_errors_total = errors })
      ≡ render m
unfolding render render_lines
render-order m requests errors h h' same k k' same' = rw (
  sorted-eq requests m.upstream_requests_total h' h same,
  sorted-eq errors m.upstream_errors_total k' k same',
)
