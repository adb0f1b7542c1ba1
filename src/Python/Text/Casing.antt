-- ===== src/Python/Text/Casing.antt =====
-- `lower` and `upper` on ASCII texts, and what `strip` does before and after them.
use mini_nginx.Common.{
  ℕ, ◌+◌, ◌<◌, ◌≡◌, ◌⊎◌, refl, sym, ap, subst, ◌∙◌, ◌&&◌, [], ◌∷◌, ◌++◌, arith, leb, if◌then◌else◌,
  Bool-cases, inl, inr,
}
use mini_nginx.Python.Text.{
  Text, Unicode, is_space, lstrip, rstrip, strip, lower, upper, lower_char, upper_char,
}
use mini_nginx.Python.Text.Laws.{StartsSolid, lstrip-solid}
use mini_nginx.Python.Utf8.Laws.{IsAscii}

abbrev down : ℕ → ℕ
down c = if leb b'A' c && leb c b'Z' then c + 32 else c

down-ascii : (c : ℕ) → c < 128 → down c < 128
down-ascii c h = ground arith

down-is_space : (c : ℕ) → c < 128 → is_space (down c) ≡ is_space c
down-is_space c h = elim (Bool-cases (leb b'A' c && leb c b'Z')) [
  | inl capital ↦ ground arith
  | inr other ↦ rw other refl
]

lstrip-StartsSolid : (s : Text) → StartsSolid (lstrip s)
unfolding lstrip
lstrip-StartsSolid [] = tt
lstrip-StartsSolid (c ∷ s) = elim (Bool-cases (is_space c)) [
  | inl space ↦ rw space (lstrip-StartsSolid s)
  | inr solid ↦ rw solid solid
]

rstrip-some : (c d : ℕ) (s t : Text) → rstrip s ≡ d ∷ t → rstrip (c ∷ s) ≡ c ∷ d ∷ t
unfolding rstrip
rstrip-some c d s t e = rw e

rstrip-last :
    (c : ℕ) (s : Text) → rstrip s ≡ [] → rstrip (c ∷ s) ≡ (if is_space c then [] else c ∷ [])
unfolding rstrip
rstrip-last c s e = rw e

pub text_cases : (s : Text) → (s ≡ []) ⊎ ((c : ℕ) × (t : Text) × (s ≡ c ∷ t))
text_cases [] = inl refl
text_cases (c ∷ t) = inr (c, t, refl)

rstrip-StartsSolid : (s : Text) → StartsSolid s → StartsSolid (rstrip s)
unfolding rstrip
rstrip-StartsSolid [] h = tt
rstrip-StartsSolid (c ∷ s) h = elim (text_cases (rstrip s)) [
  | inl none_left ↦ rw (none_left, h) h
  | inr (d, t, e) ↦ rw e h
]

rstrip_idem : (s : Text) → rstrip (rstrip s) ≡ rstrip s
unfolding rstrip
rstrip_idem [] = refl
rstrip_idem (c ∷ s) = elim (text_cases (rstrip s)) [
  | inl none_left ↦ elim (Bool-cases (is_space c)) [
    | inl space ↦ rw (none_left, space) refl
    | inr solid ↦ rw (none_left, solid) (rstrip-last c [] refl ∙ rw solid refl)
  ]
  | inr (d, t, e) ↦
      ap rstrip (rstrip-some c d s t e)
      ∙ rstrip-some c d (d ∷ t) t (ap rstrip (sym e) ∙ rstrip_idem s ∙ e)
      ∙ sym (rstrip-some c d s t e)
]

pub strip_idem : (s : Text) → strip (strip s) ≡ strip s
unfolding strip
strip_idem s =
    ap rstrip
      (lstrip-solid (rstrip (lstrip s)) (rstrip-StartsSolid (lstrip s) (lstrip-StartsSolid s)))
    ∙ rstrip_idem (lstrip s)

pub IsAscii-lstrip : (s : Text) → IsAscii s → IsAscii (lstrip s)
unfolding lstrip
IsAscii-lstrip [] h = tt
IsAscii-lstrip (c ∷ s) (h, k) = elim (Bool-cases (is_space c)) [
  | inl space ↦ rw space (IsAscii-lstrip s k)
  | inr solid ↦ rw solid (h, k)
]

pub IsAscii-rstrip : (s : Text) → IsAscii s → IsAscii (rstrip s)
unfolding rstrip
IsAscii-rstrip [] h = tt
IsAscii-rstrip (c ∷ s) (h, k) = elim (text_cases (rstrip s)) [
  | inl none_left ↦ elim (Bool-cases (is_space c)) [
    | inl space ↦ rw (none_left, space) tt
    | inr solid ↦ rw (none_left, solid) (h, tt)
  ]
  | inr (d, t, e) ↦ rw e (h, subst IsAscii e (IsAscii-rstrip s k))
]

module _ ⦃u : Unicode⦄ where
  lower_char-ascii : (c : ℕ) → c < 128 → lower_char c ≡ down c ∷ []
  lower_char-ascii c h = ground arith

  upper_char-down : (c : ℕ) → c < 128 → upper_char (down c) ≡ upper_char c
  upper_char-down c h = ground arith

  lower-cons : (c : ℕ) (s : Text) → c < 128 → lower (c ∷ s) ≡ down c ∷ lower s
  unfolding lower
  lower-cons c s h = ap (λ t. t ++ lower s) (lower_char-ascii c h)

  pub upper-lower : (s : Text) → IsAscii s → upper (lower s) ≡ upper s
  unfolding lower upper
  upper-lower [] h = refl
  upper-lower (c ∷ s) (h, k) =
      ap upper (lower-cons c s h)
      ∙ ap (λ t. t ++ upper (lower s)) (upper_char-down c h)
      ∙ ap (λ t. upper_char c ++ t) (upper-lower s k)

  lstrip-lower : (s : Text) → IsAscii s → lstrip (lower s) ≡ lower (lstrip s)
  unfolding lower lstrip
  lstrip-lower [] h = refl
  lstrip-lower (c ∷ s) (h, k) = ap lstrip (lower-cons c s h) ∙ elim (Bool-cases (is_space c)) [
    | inl space ↦ rw (down-is_space c h, space) (lstrip-lower s k)
    | inr solid ↦ rw (down-is_space c h, solid) (sym (lower-cons c s h))
  ]

  lower-last :
      (c : ℕ)
      → c < 128
      → (if is_space c then [] else down c ∷ []) ≡ lower (if is_space c then [] else c ∷ [])
  unfolding lower
  lower-last c h = elim (Bool-cases (is_space c)) [
    | inl space ↦ rw space refl
    | inr solid ↦ rw solid (sym (lower-cons c [] h))
  ]

  rstrip-lower : (s : Text) → IsAscii s → rstrip (lower s) ≡ lower (rstrip s)
  unfolding lower rstrip
  rstrip-lower [] h = refl
  rstrip-lower (c ∷ s) (h, k) = ap rstrip (lower-cons c s h) ∙ elim (text_cases (rstrip s)) [
    | inl none_left ↦
        rstrip-last (down c) (lower s) (rstrip-lower s k ∙ ap lower none_left)
        ∙ rw (none_left, down-is_space c h) (lower-last c h)
    | inr (d, t, e) ↦
        let (first, others) = subst IsAscii e (IsAscii-rstrip s k) in
        let stripped : rstrip (lower s) ≡ down d ∷ lower t =
          rstrip-lower s k ∙ ap lower e ∙ lower-cons d t first in
        rstrip-some (down c) (down d) (lower s) (lower t) stripped
        ∙ ap (λ x. down c ∷ x) (sym (lower-cons d t first))
        ∙ sym (lower-cons c (d ∷ t) h)
        ∙ ap lower (sym (rstrip-some c d s t e))
  ]

  pub strip-lower : (s : Text) → IsAscii s → strip (lower s) ≡ lower (strip s)
  unfolding strip
  strip-lower s h = ap rstrip (lstrip-lower s h) ∙ rstrip-lower (lstrip s) (IsAscii-lstrip s h)

  pub lower-nil : (s : Text) → IsAscii s → lower s ≡ [] → s ≡ []
  lower-nil [] h e = refl
  lower-nil (c ∷ s) (h, k) e = cc (sym (lower-cons c s h) ∙ e)

pub IsAscii-strip : (s : Text) → IsAscii s → IsAscii (strip s)
unfolding strip
IsAscii-strip s h = IsAscii-rstrip (lstrip s) (IsAscii-lstrip s h)
