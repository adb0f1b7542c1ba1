-- ===== src/Python/Text/Laws.antt =====
-- `strip`, `split` and `rsplit` on texts of a known shape.
use mini_nginx.Common.{
  ℕ, ◌≡◌, ◌≢◌, refl, ap, ◌∙◌, false, none, some, [], ◌∷◌, ◌++◌, nat_eq, ==_refl, ==_ne,
}
use mini_nginx.Python.Text.{Text, is_space, lstrip, rstrip, strip, rsplit_once}

-- No character of the text is whitespace.
abbrev pub HasNoSpace : Text → Type 0
HasNoSpace [] = Unit
HasNoSpace (c ∷ s) = (is_space c ≡ false) × HasNoSpace s

-- The text does not begin with whitespace, or end with it.
abbrev pub StartsSolid : Text → Type 0
StartsSolid [] = Unit
StartsSolid (c ∷ s) = is_space c ≡ false

pub lstrip-solid : (s : Text) → StartsSolid s → lstrip s ≡ s
unfolding lstrip
lstrip-solid [] h = refl
lstrip-solid (c ∷ s) h = rw h

rstrip-cons : (c : ℕ) (s : Text) → rstrip s ≡ s → s ≢ [] → rstrip (c ∷ s) ≡ c ∷ s
unfolding rstrip
rstrip-cons c [] h k = absurd (k refl)
rstrip-cons c (d ∷ s) h k = rw h

pub rstrip-HasNoSpace : (s : Text) → HasNoSpace s → rstrip s ≡ s
unfolding rstrip
rstrip-HasNoSpace [] h = refl
rstrip-HasNoSpace (c ∷ []) (h, k) = rw h
rstrip-HasNoSpace (c ∷ d ∷ s) (h, k) = rstrip-cons c (d ∷ s) (rstrip-HasNoSpace (d ∷ s) k) (λ e. cc)

pub append-ne : (s t : Text) → t ≢ [] → s ++ t ≢ []
append-ne [] t h = h
append-ne (c ∷ s) t h = λ e. cc

pub rstrip-append : (s t : Text) → rstrip t ≡ t → t ≢ [] → rstrip (s ++ t) ≡ s ++ t
rstrip-append [] t h k = h
rstrip-append (c ∷ s) t h k = rstrip-cons c (s ++ t) (rstrip-append s t h k) (append-ne s t k)

pub strip-HasNoSpace : (s : Text) → HasNoSpace s → strip s ≡ s
unfolding strip
strip-HasNoSpace [] h = refl
strip-HasNoSpace (c ∷ s) (h, k) =
    ap rstrip (lstrip-solid (c ∷ s) h) ∙ rstrip-HasNoSpace (c ∷ s) (h, k)

-- The separator is not in the text.
abbrev pub Lacks : ℕ → Text → Type 0
Lacks sep [] = Unit
Lacks sep (c ∷ s) = (c ≢ sep) × Lacks sep s

pub rsplit_once-Lacks : (sep : ℕ) (s : Text) → Lacks sep s → rsplit_once sep s ≡ none
unfolding rsplit_once
rsplit_once-Lacks sep [] h = refl
rsplit_once-Lacks sep (c ∷ s) (h, k) = rw (rsplit_once-Lacks sep s k, ==_ne c sep h)

pub rsplit_once-append :
    (sep : ℕ) (s t : Text) → Lacks sep t → rsplit_once sep (s ++ sep ∷ t) ≡ some (s, t)
unfolding rsplit_once
rsplit_once-append sep [] t h = rw (rsplit_once-Lacks sep t h, ==_refl sep)
rsplit_once-append sep (c ∷ s) t h = rw (rsplit_once-append sep s t h)

pub HasNoSpace-append : (s t : Text) → HasNoSpace s → HasNoSpace t → HasNoSpace (s ++ t)
HasNoSpace-append [] t h k = k
HasNoSpace-append (c ∷ s) t (h, g) k = (h, HasNoSpace-append s t g k)

pub strip-append : (s t : Text) → HasNoSpace s → HasNoSpace t → strip (s ++ t) ≡ s ++ t
strip-append s t h k = strip-HasNoSpace (s ++ t) (HasNoSpace-append s t h k)
