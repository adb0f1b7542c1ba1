-- ===== src/Logger/Levels.antt =====
-- The level of the configuration is written in lower case and read in upper case.
use mini_nginx.Common.{ℕ, ◌≡◌, ◌≢◌, inl, inr, sym, ap, ◌∙◌, arith, none, some, [], ◌∷◌}
use mini_nginx.Python.Text.{Text, Unicode, codes, strip, lower, upper}
use mini_nginx.Python.Text.Casing.{
  text_cases, strip_idem, strip-lower, upper-lower, lower-nil, IsAscii-strip,
}
use mini_nginx.Python.Utf8.Laws.{IsAscii}
use mini_nginx.Config.{or_else, normalize_level}
use mini_nginx.Config.Listen.{or_else-solid}
use mini_nginx.Logger.{Aiologger, level_or_info, level_from_str}

module _ ⦃u : Unicode⦄ {Logger Answer : Type 0} (aio : Aiologger Logger Answer) where
  -- The level that a name stands for, once blanks and case are taken off.
  abbrev value_of : Text → ℕ
  value_of name = level_or_info aio (aio.attribute (upper name))

  or_else-IsAscii : (v : Text) → IsAscii v → IsAscii (or_else v (codes "info"))
  or_else-IsAscii [] h = (omega arith, (omega arith, (omega arith, (omega arith, tt))))
  or_else-IsAscii (c ∷ v) h = h

  -- A name that is not blank, in lower case.
  solid :
      (t : Text)
      → IsAscii t
      → strip t ≢ []
      → value_of (strip (or_else (lower (strip t)) (codes "info"))) ≡ value_of (strip t)
  solid t h k =
      ap (λ n. value_of (strip n))
        (or_else-solid (lower (strip t)) (codes "info")
          (λ e. k (lower-nil (strip t) (IsAscii-strip t h) e)))
      ∙ ap value_of (strip-lower (strip t) (IsAscii-strip t h))
      ∙ ap (λ n. value_of (lower n)) (strip_idem t)
      ∙ ap (λ n. level_or_info aio (aio.attribute n)) (upper-lower (strip t) (IsAscii-strip t h))

  -- A blank name.
  blank :
      aio.attribute (codes "INFO") ≡ some aio.info_level
      → aio.attribute [] ≡ none
      → (t : Text) → strip t ≡ []
      → value_of (strip (or_else (lower (strip t)) (codes "info"))) ≡ value_of (strip t)
  unfolding strip lower upper
  blank named unnamed t e =
      ap (λ n. value_of (strip (or_else (lower n) (codes "info")))) e
      ∙ ap (level_or_info aio) named
      ∙ sym (ap value_of e ∙ ap (level_or_info aio) unnamed)

  -- The normalization of the configuration's validator does not change what level a text stands for,
  -- for an ASCII text: also an empty or a blank one, which both mean `info`.
  pub level_from_str-normalize_level :
      aio.attribute (codes "INFO") ≡ some aio.info_level
      → aio.attribute [] ≡ none
      → (v : Text) → IsAscii v
      → level_from_str aio (normalize_level v) ≡ level_from_str aio v
  unfolding level_from_str normalize_level
  level_from_str-normalize_level named unnamed v h =
      let t : Text = or_else v (codes "info") in
      elim (text_cases (strip t)) [
        | inl e ↦ blank named unnamed t e
        | inr (c, s, e) ↦ solid t (or_else-IsAscii v h) (λ empty. cc)
      ]
