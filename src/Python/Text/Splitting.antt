-- ===== src/Python/Text/Splitting.antt =====
-- `split` at single spaces, and `split` at the first separator.
use mini_nginx.Common.{
  ℕ, ◌≡◌, ◌≢◌, refl, sym, ap, ◌∙◌, some, List, [], ◌∷◌, ◌++◌, nat_eq, ==_refl, ==_ne, append_assoc,
  append-nil, inl, inr, Option-cases,
}
use mini_nginx.Python.Text.{Text, flush, split_from, split, split_once}
use mini_nginx.Python.Text.Laws.{HasNoSpace, Lacks}

split_from-word :
    (word s rest : Text) → HasNoSpace s → split_from word (s ++ rest) ≡ split_from (word ++ s) rest
unfolding split_from
split_from-word word [] rest h = ap (λ w. split_from w rest) (sym (append-nil word))
split_from-word word (c ∷ s) rest (h, k) = rw h (
    split_from-word (word ++ c ∷ []) s rest k
    ∙ ap (λ w. split_from w rest) (append_assoc word (c ∷ []) s))

flush-solid : (word : Text) (words : List Text) → word ≢ [] → flush word words ≡ word ∷ words
flush-solid [] words h = absurd (h refl)
flush-solid (c ∷ s) words h = refl

split_from-last : (s : Text) → HasNoSpace s → s ≢ [] → split_from [] s ≡ s ∷ []
unfolding split_from
split_from-last s h k =
    ap (split_from []) (sym (append-nil s)) ∙ split_from-word [] s [] h ∙ flush-solid s [] k

split_from-space :
    (s rest : Text)
    → HasNoSpace s
    → s ≢ []
    → split_from [] (s ++ b' ' ∷ rest) ≡ s ∷ split_from [] rest
unfolding split_from
split_from-space s rest h k =
    split_from-word [] s (b' ' ∷ rest) h ∙ flush-solid s (split_from [] rest) k

-- Three words with single spaces between them.
pub split-three :
    (a b c : Text)
    → HasNoSpace a
    → HasNoSpace b
    → HasNoSpace c
    → a ≢ []
    → b ≢ []
    → c ≢ []
    → split (a ++ b' ' ∷ (b ++ b' ' ∷ c)) ≡ a ∷ b ∷ c ∷ []
unfolding split
split-three a b c ha hb hc ka kb kc =
    split_from-space a (b ++ b' ' ∷ c) ha ka
    ∙ ap (λ ws. a ∷ ws) (split_from-space b c hb kb ∙ ap (λ ws. b ∷ ws) (split_from-last c hc kc))

split_once-first : (sep : ℕ) (t : Text) → split_once sep (sep ∷ t) ≡ some ([], t)
unfolding split_once
split_once-first sep t = elim (Option-cases (split_once sep t)) [
  | inl e ↦ rw (e, ==_refl sep)
  | inr (p, e) ↦ rw (e, ==_refl sep)
]

split_once-cons :
    (sep c : ℕ) (before s after : Text)
    → c ≢ sep
    → split_once sep s ≡ some (before, after)
    → split_once sep (c ∷ s) ≡ some (c ∷ before, after)
unfolding split_once
split_once-cons sep c before s after h e = rw (e, ==_ne c sep h)

pub split_once-append :
    (sep : ℕ) (s t : Text) → Lacks sep s → split_once sep (s ++ sep ∷ t) ≡ some (s, t)
split_once-append sep [] t h = split_once-first sep t
split_once-append sep (c ∷ s) t (h, k) =
    split_once-cons sep c s (s ++ sep ∷ t) t h (split_once-append sep s t k)
