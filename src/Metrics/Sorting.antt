-- ===== src/Metrics/Sorting.antt =====
-- `sorted` makes a dict ascending and keeps its entries.
use mini_nginx.Common.{
  ◌≡◌, ◌≢◌, refl, sym, ap, subst, ◌∙◌, true, false, Option, none, some, [], ◌∷◌, arith, Dict,
  lookup, HasUniqueKeys, nat_eq, list_eq, ◌==◌, ==_iff, if◌then◌else◌, Bool-cases, inl, inr,
}
use mini_nginx.Python.Text.{Text}
use mini_nginx.Metrics.Render.{text_leb, insert_sorted, sorted}

-- Not below means above.
text_leb_total : (s t : Text) → text_leb s t ≡ false → text_leb t s ≡ true
text_leb_total [] t h = cc
text_leb_total (c ∷ s) [] h = refl
text_leb_total (c ∷ s) (d ∷ t) h = ground (arith, text_leb_total s t)

pub text_leb_antisym : (s t : Text) → text_leb s t ≡ true → text_leb t s ≡ true → s ≡ t
text_leb_antisym [] [] h k = refl
text_leb_antisym [] (d ∷ t) h k = cc
text_leb_antisym (c ∷ s) [] h k = cc
text_leb_antisym (c ∷ s) (d ∷ t) h k = ground (arith, text_leb_antisym s t)

text_leb_trans : (s t r : Text) → text_leb s t ≡ true → text_leb t r ≡ true → text_leb s r ≡ true
text_leb_trans [] t r h k = refl
text_leb_trans (c ∷ s) [] r h k = cc
text_leb_trans (c ∷ s) (d ∷ t) [] h k = cc
text_leb_trans (c ∷ s) (d ∷ t) (e ∷ r) h k = ground (arith, text_leb_trans s t r)

pub true-ne-false : true ≢ false
true-ne-false e = cc

-- Of two different keys, one test does not hide the other.
pub swapped {ℓ} :
    {V : Type ℓ} (k j i : Text) (v w : V) (o : Option V)
    → j ≢ k
    → (if j == i then some w else if k == i then some v else o)
      ≡ (if k == i then some v else if j == i then some w else o)
swapped k j i v w o ne = ground (arith, ==_iff k i, ==_iff j i)

module _ {ℓ} {V : Type ℓ} where
  -- Every key of the dict comes behind `k`.
  abbrev pub Above : Text → Dict Text V → Type 0
  Above k [] = Unit
  Above k ((j, w) ∷ d) = (text_leb k j ≡ true) × (k ≢ j) × Above k d

  abbrev pub Ascending : Dict Text V → Type 0
  Ascending [] = Unit
  Ascending ((k, v) ∷ d) = Above k d × Ascending d

  Above-trans : (i k : Text) (d : Dict Text V) → text_leb i k ≡ true → i ≢ k → Above k d → Above i d
  Above-trans i k [] h ne a = tt
  Above-trans i k ((j, w) ∷ d) h ne (le, nj, a) = (
    text_leb_trans i k j h le,
    (λ e. ne (text_leb_antisym i k h (subst (λ x. text_leb k x ≡ true) (sym e) le))),
    Above-trans i k d h ne a,
  )

  pub Above-lookup :
      (k i : Text) (d : Dict Text V) {v : V}
      → Above k d
      → lookup i d ≡ some v
      → (text_leb k i ≡ true) × (k ≢ i)
  Above-lookup k i [] a e = cc
  Above-lookup k i ((j, w) ∷ d) (le, ne, a) e = elim (Bool-cases (j == i)) [
    | inl same ↦
        (let q : j ≡ i = (==_iff j i).0 same in
          (subst (λ x. text_leb k x ≡ true) q le, (λ z. ne (z ∙ sym q))))
    | inr other ↦ Above-lookup k i d a (ap (λ b. if b then some w else lookup i d) (sym other) ∙ e)
  ]

  insert-Above :
      (i k : Text) (v : V) (d : Dict Text V)
      → text_leb i k ≡ true
      → i ≢ k
      → Above i d
      → Above i (insert_sorted k v d)
  insert-Above i k v [] h ne a = (h, ne, tt)
  insert-Above i k v ((j, w) ∷ d) h ne (le, nj, a) = elim (Bool-cases (text_leb k j)) [
    | inl below ↦ rw below (h, ne, (le, nj, a))
    | inr above ↦ rw above (le, nj, insert-Above i k v d h ne a)
  ]

  -- A key that is missing is not the first, and is missing in the rest.
  missing-first :
      (k j : Text) (w : V) (d : Dict Text V)
      → lookup k ((j, w) ∷ d) ≡ none
      → (j ≢ k) × (lookup k d ≡ none)
  missing-first k j w d e = elim (Bool-cases (j == k)) [
    | inl same ↦ cc (ap (λ b. if b then some w else lookup k d) (sym same) ∙ e)
    | inr other ↦ (
      (λ q. true-ne-false (sym ((==_iff j k).1 q) ∙ other)),
      ap (λ b. if b then some w else lookup k d) (sym other) ∙ e,
    )
  ]

  insert-Ascending :
      (k : Text) (v : V) (d : Dict Text V)
      → lookup k d ≡ none
      → Ascending d
      → Ascending (insert_sorted k v d)
  insert-Ascending k v [] e a = (tt, tt)
  insert-Ascending k v ((j, w) ∷ d) e (above, a) =
      let (ne, later) = missing-first k j w d e in
      elim (Bool-cases (text_leb k j)) [
        | inl below ↦ rw below (
          (below, (λ q. ne (sym q)), Above-trans k j d below (λ q. ne (sym q)) above),
          (above, a),
        )
        | inr over ↦ rw over (
          insert-Above j k v d (text_leb_total k j over) ne above,
          insert-Ascending k v d later a,
        )
      ]

  lookup-insert_sorted :
      (i k : Text) (v : V) (d : Dict Text V)
      → lookup k d ≡ none
      → lookup i (insert_sorted k v d) ≡ (if k == i then some v else lookup i d)
  lookup-insert_sorted i k v [] e = refl
  lookup-insert_sorted i k v ((j, w) ∷ d) e =
      let (ne, later) = missing-first k j w d e in
      elim (Bool-cases (text_leb k j)) [
        | inl below ↦ rw below refl
        | inr over ↦
            rw (over, lookup-insert_sorted i k v d later) (swapped k j i v w (lookup i d) ne)
      ]

  pub sorted_correct :
      (d : Dict Text V)
      → HasUniqueKeys d
      → Ascending (sorted d) × ((i : Text) → lookup i (sorted d) ≡ lookup i d)
  unfolding sorted
  sorted_correct [] h = (tt, λ i. refl)
  sorted_correct ((k, v) ∷ d) (missing, unique) =
      let (a, same) = sorted_correct d unique in
      let gone : lookup k (sorted d) ≡ none = same k ∙ missing in
      (
        insert-Ascending k v (sorted d) gone a,
        λ i.
            lookup-insert_sorted i k v (sorted d) gone
            ∙ ap (λ o. if k == i then some v else o) (same i),
      )
