-- ===== src/Handler/Segments.antt =====
-- Lines and requests do not depend on how the client's bytes arrive: what is read is a function of
-- the bytes of the stream.
use mini_nginx.Common.{
  ℕ, zero, suc, ◌<◌, ◌≡◌, refl, sym, ap, subst, ◌∙◌, Option, none, some, [], ◌∷◌, ◌++◌, arith,
  length, length-append, Option-cases, inl, inr,
}
use mini_nginx.Python.Text.{Text}
use mini_nginx.Python.Utf8.{Bytes, decode}
use mini_nginx.Net.{World, Io, Reader, ok, client_read, ◌>>=◌}
use mini_nginx.Net.Binds.{>>=-ok}
use mini_nginx.Net.Reading.{content, IsIntact, IsUnhurried, Taken, client_read-returns}
use mini_nginx.Handler.Lines.{drop_crlf, after_byte, read_line}

-- The first line of some bytes, behind those read already, and what follows it.
unfoldable pub scan : Bytes → Bytes → Option (Bytes × Bytes)
scan line [] = none
scan line (b ∷ bytes) = elim (drop_crlf (line ++ b ∷ [])) [
  | none ↦ scan (line ++ b ∷ []) bytes
  | some whole ↦ some (whole, bytes)
]

abbrev pub line_of : Option (Bytes × Bytes) → Option Text
line_of none = none
line_of (some (line, rest)) = some (decode line)

abbrev pub rest_of : Option (Bytes × Bytes) → Bytes
rest_of none = []
rest_of (some (line, rest)) = rest

-- An action that succeeds and leaves the client's stream intact, with `rest` in it; apart from that
-- stream and the clock nothing changes.
abbrev pub Reads : {A : Type 0} → Io A → World → A → Bytes → Type 0
Reads m w a rest =
    (t : ℕ) × (r : Reader) × (m w ≡ (ok a, record w { now = t; client_in = r }))
    × IsIntact r
    × (content r ≡ rest)

scan-none :
    (line : Bytes) (b : ℕ) (bytes : Bytes)
    → drop_crlf (line ++ b ∷ []) ≡ none
    → scan line (b ∷ bytes) ≡ scan (line ++ b ∷ []) bytes
unfolding scan
scan-none line b bytes e = rw (e, scan)

scan-some :
    (line : Bytes) (b : ℕ) (bytes : Bytes) {whole : Bytes}
    → drop_crlf (line ++ b ∷ []) ≡ some whole
    → scan line (b ∷ bytes) ≡ some (whole, bytes)
unfolding scan
scan-some line b bytes e = rw (e, scan)

-- What a first read leads to, if what comes after it reads.
pub Reads-first :
    {A : Type 0} (f : Bytes → Io A) (w : World) (t : ℕ) (chunk : Bytes) (r : Reader) {a : A}
    {rest : Bytes}
    → client_read 1 w ≡ (ok chunk, record w { now = t; client_in = r })
    → Reads (f chunk) (record w { now = t; client_in = r }) a rest
    → Reads (client_read 1 >>= f) w a rest
Reads-first f w t chunk r e (t', r', e', k, c) = (t', r', >>=-ok (client_read 1) f w e ∙ e', k, c)

-- The result as a function of the stream.
abbrev FoundLine : ℕ → Bytes → World → Bytes → Type 0
FoundLine fuel line w stream =
    Reads (read_line fuel line) w (line_of (scan line stream)) (rest_of (scan line stream))

read_line-step :
    (fuel : ℕ) (line : Bytes) (w : World) (t : ℕ) (chunk : Bytes) (r : Reader)
    → client_read 1 w ≡ (ok chunk, record w { now = t; client_in = r })
    → IsIntact r
    → Taken 1 (content w.client_in) chunk r
    → (((b : ℕ)
        → 0 < length chunk
        → FoundLine fuel (line ++ b ∷ []) (record w { now = t; client_in = r }) (content r)))
    → FoundLine (suc fuel) line w (content w.client_in)
unfolding read_line
read_line-step fuel line w t [] r e k taken ih =
    let none_left : content w.client_in ≡ [] = taken.at_end (omega arith) refl in
    unfold scan in
    subst (FoundLine (suc fuel) line w) (sym none_left) (
      Reads-first (λ c. after_byte line c (read_line fuel)) w t [] r e
        (t, r, refl, k, taken.split ∙ none_left))
read_line-step fuel line w t (b ∷ []) r e k taken ih =
    subst (FoundLine (suc fuel) line w) taken.split (
      Reads-first (λ c. after_byte line c (read_line fuel)) w t (b ∷ []) r e
        (elim (Option-cases (drop_crlf (line ++ b ∷ []))) [
          | inl more ↦ rw (more, scan-none line b (content r) more) (ih b (omega arith))
          | inr (whole, found) ↦
              rw (found, scan-some line b (content r) found) (t, r, refl, k, refl)
        ]))
read_line-step fuel line w t (b ∷ c ∷ bytes) r e k taken ih = absurd (omega (arith, taken.bounded))

pub read_line-Reads :
    (fuel : ℕ) (line : Bytes) (w : World)
    → IsUnhurried w
    → IsIntact w.client_in
    → length (content w.client_in) < fuel
    → FoundLine fuel line w (content w.client_in)
read_line-Reads zero line w u h le = absurd (omega arith)
read_line-Reads (suc fuel) line w u h le =
    let (t, chunk, r, e, k, taken) = client_read-returns 1 w u h in
    read_line-step fuel line w t chunk r e k taken (λ b pos.
      read_line-Reads fuel (line ++ b ∷ []) (record w { now = t; client_in = r })
        (record { no_step = u.no_step; no_total = u.no_total }) k
        (omega (arith, ap length taken.split, length-append chunk (content r))))

-- What is left after a line is shorter.
pub scan-length :
    (line stream : Bytes) {whole rest : Bytes}
    → scan line stream ≡ some (whole, rest)
    → length rest < length stream
unfolding scan
scan-length line [] e = cc
scan-length line (b ∷ bytes) {rest} e = elim (Option-cases (drop_crlf (line ++ b ∷ []))) [
  | inl more ↦
      omega (arith, scan-length (line ++ b ∷ []) bytes (sym (scan-none line b bytes more) ∙ e))
  | inr (found_line, found) ↦
      let same : bytes ≡ rest = cc (sym (scan-some line b bytes found) ∙ e) in
      omega (arith, ap length same)
]

pub rest-length :
    (stream : Bytes) {text : Text}
    → line_of (scan [] stream) ≡ some text
    → length (rest_of (scan [] stream)) < length stream
rest-length stream e = elim (Option-cases (scan [] stream)) [
  | inl none_left ↦ cc (ap line_of none_left)
  | inr ((line, rest), found) ↦ rw found (scan-length [] stream found)
]

pub rest_none : (found : Option (Bytes × Bytes)) → line_of found ≡ none → rest_of found ≡ []
rest_none none e = refl
rest_none (some (line, rest)) e = cc
