-- ===== src/Net/Readline/Laws.antt =====
-- What a read of a line takes from a stream, whatever the parts in which the stream arrives.
use mini_nginx.Common.{
  ℕ, ◌+◌, ◌-◌, ◌<◌, ◌≤◌, ◌≡◌, ◌≢◌, refl, sym, ap, subst, ◌∙◌, true, false, Bool-cases, Option-cases,
  inl, inr, Option, none, some, List, [], ◌∷◌, ◌++◌, append_assoc, append-nil, arith, length,
  length-append, length-positive, le→ltb, ltb, ◌==◌, nat_eq,
}
use mini_nginx.Python.Utf8.{Bytes}
use mini_nginx.Net.{World, Io, ok, Arrival, arrived, broken, Reader, Result, pure, wait, ◌>>◌}
use mini_nginx.Net.Binds.{>>=-ok}
use mini_nginx.Net.Reading.{
  content, arrivals_content, IsIntact, IsIntactFrom, IsUnhurried, wait-IsUnhurried,
}
use mini_nginx.Net.Readline.{
  with_first, cut_line, line_limit, line_or_more, readline_from, client_readline, line_and_rest,
  first_line,
}

cut_line-newline :
    (b : ℕ) (bytes : Bytes) → (b == 10) ≡ true → cut_line (b ∷ bytes) ≡ some (b ∷ [], bytes)
unfolding cut_line
cut_line-newline b bytes e = rw (e, cut_line) refl

cut_line-other :
    (b : ℕ) (bytes : Bytes)
    → (b == 10) ≡ false
    → cut_line (b ∷ bytes) ≡ with_first b (cut_line bytes)
unfolding cut_line
cut_line-other b bytes e = rw (e, cut_line) refl

-- What is cut off is not empty and ends where the rest begins, and more bytes only make the rest
-- longer.
record IsCut (bytes line rest : Bytes) : Type 0 where
  whole : length line + length rest ≡ length bytes
  some_bytes : line ≢ []
  longer : (more : Bytes) → cut_line (bytes ++ more) ≡ some (line, rest ++ more)

newline-IsCut :
    (b : ℕ) (bytes line rest : Bytes)
    → (b == 10) ≡ true
    → ◌≡◌ {A = Option (Bytes × Bytes)} (some (b ∷ [], bytes)) (some (line, rest))
    → IsCut (b ∷ bytes) line rest
newline-IsCut b bytes line rest newline e =
    let line_is : line ≡ b ∷ [] = cc e in
    let rest_is : rest ≡ bytes = cc e in
    rw (line_is, rest_is)
      (record {
        whole = omega arith;
        some_bytes = λ x. cc;
        longer = λ more. cut_line-newline b (bytes ++ more) newline;
      })

other-IsCut :
    (b : ℕ) (bytes line rest : Bytes) (found : Option (Bytes × Bytes))
    → (b == 10) ≡ false
    → ((l r : Bytes) → found ≡ some (l, r) → IsCut bytes l r)
    → with_first b found ≡ some (line, rest)
    → IsCut (b ∷ bytes) line rest
other-IsCut b bytes line rest none other ih e = cc
other-IsCut b bytes line rest (some (l, r)) other ih e =
    let cut : IsCut bytes l r = ih l r refl in
    let line_is : line ≡ b ∷ l = cc e in
    let rest_is : rest ≡ r = cc e in
    rw (line_is, rest_is)
      (record {
        whole = omega (arith, cut.whole);
        some_bytes = λ x. cc;
        longer =
            λ more. cut_line-other b (bytes ++ more) other ∙ ap (with_first b) (cut.longer more);
      })

cut_line-IsCut :
    (bytes line rest : Bytes) → cut_line bytes ≡ some (line, rest) → IsCut bytes line rest
unfolding cut_line
cut_line-IsCut [] line rest e = cc
cut_line-IsCut (b ∷ bytes) line rest e = elim (Bool-cases (b == 10)) [
  | inl newline ↦
      newline-IsCut b bytes line rest newline (sym (cut_line-newline b bytes newline) ∙ e)
  | inr other ↦
      other-IsCut b bytes line rest (cut_line bytes) other (λ l r k. cut_line-IsCut bytes l r k)
        (sym (cut_line-other b bytes other) ∙ e)
]

first_line-some :
    (bytes more line rest : Bytes)
    → cut_line bytes ≡ some (line, rest)
    → first_line (bytes ++ more) ≡ (line, rest ++ more)
unfolding first_line
first_line-some bytes more line rest e =
    ap (line_and_rest (bytes ++ more)) ((cut_line-IsCut bytes line rest e).longer more)

first_line-cut :
    (bytes line rest : Bytes) → cut_line bytes ≡ some (line, rest) → first_line bytes ≡ (line, rest)
unfolding first_line
first_line-cut bytes line rest e = ap (line_and_rest bytes) e

first_line-none : (bytes : Bytes) → cut_line bytes ≡ none → first_line bytes ≡ (bytes, [])
unfolding first_line
first_line-none bytes e = ap (line_and_rest bytes) e

pub first_line-ne : (bytes : Bytes) → bytes ≢ [] → (first_line bytes).0 ≢ []
first_line-ne bytes h = elim (Option-cases (cut_line bytes)) [
  | inl none_left ↦ rw (first_line-none bytes none_left) h
  | inr ((line, rest), e) ↦
      rw (first_line-cut bytes line rest e) (cut_line-IsCut bytes line rest e).some_bytes
]

-- The first line of a stream that is not empty takes at least one byte.
pub first_line-shorter : (bytes : Bytes) → bytes ≢ [] → length (first_line bytes).1 < length bytes
first_line-shorter bytes h = elim (Option-cases (cut_line bytes)) [
  | inl none_left ↦ rw (first_line-none bytes none_left) (length-positive bytes h)
  | inr ((line, rest), e) ↦
      let cut : IsCut bytes line rest = cut_line-IsCut bytes line rest e in
      rw (first_line-cut bytes line rest e)
        (omega (arith, cut.whole, length-positive line cut.some_bytes))
]

-- What a read of a line ends with: the first line of the stream, which it takes off.
abbrev Found : Result (Bytes × Reader) × World → World → Bytes → Type 0
Found o w stream =
    (t : ℕ) × (r : Reader) × (o ≡ (ok ((first_line stream).0, r), record w { now = t }))
    × IsIntact r
    × (content r ≡ (first_line stream).1)

abbrev FoundLine : List (ℕ × Arrival) → Bytes → World → Bytes → Type 0
FoundLine parts buffer w stream = Found (readline_from parts buffer w) w stream

-- A buffer with a newline.
found_in_buffer :
    (parts : List (ℕ × Arrival)) (buffer line rest : Bytes) (next : Io (Bytes × Reader)) (w : World)
    → cut_line buffer ≡ some (line, rest)
    → length (buffer ++ arrivals_content parts) ≤ line_limit
    → line_or_more (cut_line buffer) buffer parts next w ≡ (
      ok (
        (first_line (buffer ++ arrivals_content parts)).0,
        record { buffer = rest; arrivals = parts },
      ),
      w,
    )
found_in_buffer parts buffer line rest next w e h =
    let cut : IsCut buffer line rest = cut_line-IsCut buffer line rest e in
    let short : ltb line_limit (length line - 1) ≡ false =
      le→ltb line_limit (length line - 1)
        (omega (arith, cut.whole, length-append buffer (arrivals_content parts))) in
    rw (e, first_line-some buffer (arrivals_content parts) line rest e, short) refl

-- A buffer without one, in which what comes next is looked at.
more_to_come :
    (parts : List (ℕ × Arrival)) (buffer : Bytes) (next : Io (Bytes × Reader)) (w : World)
    → cut_line buffer ≡ none
    → length buffer ≤ line_limit
    → line_or_more (cut_line buffer) buffer parts next w ≡ next w
more_to_come parts buffer next w e h =
    let short : ltb line_limit (length buffer) ≡ false = le→ltb line_limit (length buffer) h in
    rw (e, short) refl

buffered :
    (parts : List (ℕ × Arrival)) (buffer : Bytes) (next : Io (Bytes × Reader)) (w : World)
    → readline_from parts buffer w ≡ line_or_more (cut_line buffer) buffer parts next w
    → IsIntactFrom parts
    → length (buffer ++ arrivals_content parts) ≤ line_limit
    → (cut_line buffer ≡ none
        → length buffer ≤ line_limit
        → next w ≡ readline_from parts buffer w
        → FoundLine parts buffer w (buffer ++ arrivals_content parts))
    → FoundLine parts buffer w (buffer ++ arrivals_content parts)
buffered parts buffer next w e k h later = elim (Option-cases (cut_line buffer)) [
  | inr ((line, rest), found) ↦ (
    w.now,
    record { buffer = rest; arrivals = parts },
    e ∙ found_in_buffer parts buffer line rest next w found h,
    k,
    ap (λ p. p.1) (sym (first_line-some buffer (arrivals_content parts) line rest found)),
  )
  | inl none_left ↦
      let small : length buffer ≤ line_limit =
        omega (arith, length-append buffer (arrivals_content parts)) in
      later none_left small (sym (e ∙ more_to_come parts buffer next w none_left small))
]

readline_from-FoundLine :
    (parts : List (ℕ × Arrival)) (buffer : Bytes) (w : World)
    → IsUnhurried w
    → IsIntactFrom parts
    → length (buffer ++ arrivals_content parts) ≤ line_limit
    → FoundLine parts buffer w (buffer ++ arrivals_content parts)
unfolding readline_from
readline_from-FoundLine [] buffer w u k h =
    buffered [] buffer (pure (buffer, record { buffer = []; arrivals = [] })) w refl k h
      (λ none_left small e.
        subst (λ o. Found o w (buffer ++ [])) e
          (rw (append-nil buffer, first_line-none buffer none_left) (w.now, _, refl, tt, refl)))
readline_from-FoundLine ((d, broken x) ∷ parts) buffer w u k h = absurd k
readline_from-FoundLine ((d, arrived bytes) ∷ parts) buffer w u k h =
    buffered ((d, arrived bytes) ∷ parts) buffer (wait d >> readline_from parts (buffer ++ bytes)) w
      refl k h
      (λ none_left small e.
        let later : World = record w { now = w.now + d } in
        let same : (buffer ++ bytes) ++ arrivals_content parts
            ≡ buffer ++ (bytes ++ arrivals_content parts) =
          append_assoc buffer bytes (arrivals_content parts) in
        let (t, r, read, intact, rest) =
          readline_from-FoundLine parts (buffer ++ bytes) later
            (record { no_step = u.no_step; no_total = u.no_total }) k
            (omega (arith, ap length same)) in
        subst (λ o. Found o w (buffer ++ (bytes ++ arrivals_content parts))) e
          (subst (Found _ w) same (
            t,
            r,
            >>=-ok (wait d) (λ x. readline_from parts (buffer ++ bytes)) w (wait-IsUnhurried d w u)
                ∙ read,
            intact,
            rest,
          )))

-- With no deadline set, a stream that nothing breaks and that is not longer than the limit gives its
-- first line, also where that line comes in parts, and only its reader and the clock change.
pub client_readline-first_line :
    (w : World)
    → IsUnhurried w
    → IsIntact w.client_in
    → length (content w.client_in) ≤ line_limit
    → (t : ℕ) × (r : Reader) × (client_readline w
        ≡ (ok (first_line (content w.client_in)).0, record w { now = t; client_in = r }))
      × IsIntact r
      × (content r ≡ (first_line (content w.client_in)).1)
unfolding client_readline
client_readline-first_line w u k h =
    let (t, r, e, intact, rest) =
      readline_from-FoundLine w.client_in.arrivals w.client_in.buffer w u k h in
    (
      t,
      r,
      >>=-ok (readline_from w.client_in.arrivals w.client_in.buffer)
          (λ part v. (ok part.0, record v { client_in = part.1 })) w e,
      intact,
      rest,
    )
