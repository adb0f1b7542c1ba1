-- ===== src/Python/Number/Laws.antt =====
-- `int` reads back what `str` prints.
use mini_nginx.Common.{
  ℕ, zero, suc, ◌+◌, ◌*◌, ◌/◌, ◌%◌, ◌<◌, ◌≤◌, ◌≡◌, ◌≢◌, refl, sym, ap, subst, ◌∙◌, Bool, true,
  false, some, [], ◌∷◌, arith, length, ltb, ltb→lt, ltb→ge, Bool-cases, inl, inr, nat_eq, ◌>>=◌,
  pos,
}
use mini_nginx.Python.Text.{Text, Unicode, strip}
use mini_nginx.Python.Text.Laws.{HasNoSpace, Lacks, strip-HasNoSpace}
use mini_nginx.Python.Number.{decimal, digits_from, signed, int, show_from, show_nat}

-- Decimal digits of ASCII alone.
abbrev pub AllDigits : Text → Type 0
AllDigits [] = Unit
AllDigits (c ∷ s) = (b'0' ≤ c) × (c ≤ b'9') × AllDigits s

show_from-small :
    (fuel n : ℕ) (rest : Text) → ltb n 10 ≡ true → show_from (suc fuel) n rest ≡ (b'0' + n) ∷ rest
unfolding show_from
show_from-small fuel n rest small = rw small

show_from-big :
    (fuel n : ℕ) (rest : Text)
    → ltb n 10 ≡ false
    → show_from (suc fuel) n rest ≡ show_from fuel (n / 10) ((b'0' + n % 10) ∷ rest)
unfolding show_from
show_from-big fuel n rest big = rw big

show_from-zero : (n : ℕ) (rest : Text) → n ≤ 0 → show_from zero n rest ≡ (b'0' + n) ∷ rest
unfolding show_from
show_from-zero n rest h = let e : n % 10 ≡ n = omega arith in rw e

show_from-AllDigits :
    (fuel n : ℕ) (rest : Text) → n ≤ fuel → AllDigits rest → AllDigits (show_from fuel n rest)
show_from-AllDigits zero n rest h d =
    subst AllDigits (sym (show_from-zero n rest h)) (omega arith, omega arith, d)
show_from-AllDigits (suc fuel) n rest h d = elim (Bool-cases (ltb n 10)) [
  | inl small ↦
      subst AllDigits (sym (show_from-small fuel n rest small))
        (omega arith, (let l = ltb→lt n 10 small in omega arith), d)
  | inr big ↦
      (let l = ltb→ge n 10 big in
        subst AllDigits (sym (show_from-big fuel n rest big)) (
          show_from-AllDigits fuel (n / 10) ((b'0' + n % 10) ∷ rest) (omega arith)
            (omega arith, omega arith, d)))
]

pub show_nat-AllDigits : (n : ℕ) → AllDigits (show_nat n)
unfolding show_nat
show_nat-AllDigits n = show_from-AllDigits n n [] (omega arith) tt

-- What `str` prints begins with a digit.
show_from-ne-nil : (fuel n : ℕ) (rest : Text) → show_from fuel n rest ≢ []
unfolding show_from
show_from-ne-nil zero n rest e = cc
show_from-ne-nil (suc fuel) n rest e = elim (Bool-cases (ltb n 10)) [
  | inl small ↦ cc (sym (show_from-small fuel n rest small) ∙ e)
  | inr big ↦ show_from-ne-nil fuel (n / 10) _ (sym (show_from-big fuel n rest big) ∙ e)
]

pub AllDigits-HasNoSpace : (s : Text) → AllDigits s → HasNoSpace s
AllDigits-HasNoSpace [] d = tt
AllDigits-HasNoSpace (c ∷ s) (low, high, d) = (ground arith, AllDigits-HasNoSpace s d)

pub AllDigits-Lacks : (sep : ℕ) (s : Text) → b'9' < sep → AllDigits s → Lacks sep s
AllDigits-Lacks sep [] h d = tt
AllDigits-Lacks sep (c ∷ s) h (low, high, d) = (omega arith, AllDigits-Lacks sep s h d)

module _ ⦃u : Unicode⦄ where
  digits_from-digit :
      (value n d : ℕ) (digit : Bool) (s : Text)
      → d < 10
      → digits_from value n digit ((b'0' + d) ∷ s) ≡ digits_from (value * 10 + d) (n + 1) true s
  unfolding digits_from
  digits_from-digit value n d digit s h =
      let e : decimal (b'0' + d) ≡ some d = ground arith in rw (e, digits_from)

  -- How many digits `str` prints before the rest, and that they are read as the number.
  abbrev Reads : ℕ → Text → Text → Type 0
  Reads n rest s =
      (len : ℕ) × (length s ≡ len + length rest)
      × ((k : ℕ) (digit : Bool) → digits_from 0 k digit s ≡ digits_from n (k + len) true rest)

  one-Reads : (n : ℕ) (rest : Text) → n < 10 → Reads n rest ((b'0' + n) ∷ rest)
  one-Reads n rest h = (
    1,
    omega arith,
    λ k digit.
        digits_from-digit 0 k n digit rest h
        ∙ ap (λ v. digits_from v (k + 1) true rest) (omega arith),
  )

  more-Reads : (n : ℕ) (rest s : Text) → Reads (n / 10) ((b'0' + n % 10) ∷ rest) s → Reads n rest s
  more-Reads n rest s (len, size, reads) =
      let whole : n / 10 * 10 + n % 10 ≡ n = omega arith in
      (
        len + 1,
        omega (arith, size),
        λ k digit.
            reads k digit
            ∙ digits_from-digit (n / 10) (k + len) (n % 10) true rest (omega arith)
            ∙ ap (λ v. digits_from v (k + len + 1) true rest) whole
            ∙ ap (λ m. digits_from n m true rest) (omega arith),
      )

  show_from-Reads : (fuel n : ℕ) (rest : Text) → n ≤ fuel → Reads n rest (show_from fuel n rest)
  show_from-Reads zero n rest h =
      subst (Reads n rest) (sym (show_from-zero n rest h)) (one-Reads n rest (omega arith))
  show_from-Reads (suc fuel) n rest h = elim (Bool-cases (ltb n 10)) [
    | inl small ↦
        subst (Reads n rest) (sym (show_from-small fuel n rest small))
          (one-Reads n rest (ltb→lt n 10 small))
    | inr big ↦
        (let l = ltb→ge n 10 big in
          subst (Reads n rest) (sym (show_from-big fuel n rest big)) (
            more-Reads n rest _
              (show_from-Reads fuel (n / 10) ((b'0' + n % 10) ∷ rest) (omega arith))))
  ]

  digits_from-end : (n k : ℕ) → k ≤ 4300 → digits_from n k true [] ≡ some n
  unfolding digits_from
  digits_from-end n k h = ground arith

  strip-digits : (s : Text) → AllDigits s → strip s ≡ s
  strip-digits s d = strip-HasNoSpace s (AllDigits-HasNoSpace s d)

  signed-digits :
      (s : Text) → s ≢ [] → AllDigits s → signed s ≡ (do n ← digits_from 0 0 false s; some (pos n))
  unfolding signed
  signed-digits [] h d = absurd (h refl)
  signed-digits (c ∷ s) h (low, high, d) = ground arith

  -- A number that `str` prints with 4300 digits at most is read back by `int`.
  pub int-show_nat : (n : ℕ) → length (show_nat n) ≤ 4300 → int (show_nat n) ≡ some (pos n)
  unfolding int show_nat
  int-show_nat n short =
      let s : Text = show_from n n [] in
      let (len, size, reads) = show_from-Reads n n [] (omega arith) in
      ap signed (strip-digits s (show_from-AllDigits n n [] (omega arith) tt))
      ∙ signed-digits s (show_from-ne-nil n n []) (show_from-AllDigits n n [] (omega arith) tt)
      ∙ ap (λ o. o >>= λ m. some (pos m))
          (reads 0 false ∙ digits_from-end n (0 + len) (omega (arith, size, short)))
