-- ===== src/Handler/Requests.antt =====
-- The request that is parsed, as a function of the bytes of the client's stream.
use mini_nginx.Common.{
  ℕ, zero, suc, ◌<◌, ◌≡◌, refl, ap, subst, ◌∙◌, Option, none, some, [], ◌∷◌, arith, length, Dict,
}
use mini_nginx.Python.Text.{Text, Unicode}
use mini_nginx.Python.Utf8.{Bytes}
use mini_nginx.Net.{World, Io, Reader, ◌>>=◌}
use mini_nginx.Net.Binds.{>>=-ok}
use mini_nginx.Net.Reading.{content, IsIntact, IsUnhurried}
use mini_nginx.Handler.Lines.{read_line, store_header, after_line, read_headers}
use mini_nginx.Handler.Segments.{
  scan, rest-length, rest_none, line_of, rest_of, Reads, read_line-Reads,
}

-- An action, and then one whose result hangs on what the first has read.
pub Reads-then :
    {A B : Type 0} (m : Io A) (f : A → Io B) (w : World) {a : A} {rest : Bytes} {b : B}
    {rest' : Bytes}
    → Reads m w a rest
    → ((t : ℕ) (r : Reader)
        → IsIntact r
        → content r ≡ rest
        → Reads (f a) (record w { now = t; client_in = r }) b rest')
    → Reads (m >>= f) w b rest'
Reads-then m f w (t, r, e, k, c) later =
    let (t', r', e', k', c') = later t r k c in (t', r', >>=-ok m f w e ∙ e', k', c')

module _ ⦃u : Unicode⦄ where
  abbrev pub next_headers :
      Option Text
      → Bytes
      → Dict Text Text
      → (Dict Text Text → Bytes → Option (Dict Text Text × Bytes))
      → Option (Dict Text Text × Bytes)
  next_headers none rest headers later = none
  next_headers (some []) rest headers later = some (headers, rest)
  next_headers (some (c ∷ s)) rest headers later = later (store_header (c ∷ s) headers) rest

  -- The header block at the front of some bytes, and what follows its empty line; `none` where the
  -- bytes end before it.
  unfoldable pub headers_from : ℕ → Dict Text Text → Bytes → Option (Dict Text Text × Bytes)
  headers_from zero headers stream = none
  headers_from (suc fuel) headers stream =
      next_headers (line_of (scan [] stream)) (rest_of (scan [] stream)) headers (headers_from fuel)

  abbrev pub found_headers : Option (Dict Text Text × Bytes) → Option (Dict Text Text)
  found_headers none = none
  found_headers (some (headers, rest)) = some headers

  abbrev pub after_headers : Option (Dict Text Text × Bytes) → Bytes
  after_headers none = []
  after_headers (some (headers, rest)) = rest

  next_headers-eq :
      (found : Option Text) (rest : Bytes) (headers : Dict Text Text)
      (f g : Dict Text Text → Bytes → Option (Dict Text Text × Bytes))
      → ((headers' : Dict Text Text) (text : Text)
          → found ≡ some text
          → f headers' rest ≡ g headers' rest)
      → next_headers found rest headers f ≡ next_headers found rest headers g
  next_headers-eq none rest headers f g h = refl
  next_headers-eq (some []) rest headers f g h = refl
  next_headers-eq (some (c ∷ s)) rest headers f g h = h (store_header (c ∷ s) headers) (c ∷ s) refl

  -- More fuel than bytes changes nothing.
  pub headers_from-fuel :
      (m n : ℕ) (headers : Dict Text Text) (stream : Bytes)
      → length stream < m
      → length stream < n
      → headers_from m headers stream ≡ headers_from n headers stream
  unfolding headers_from
  headers_from-fuel zero n headers stream h k = absurd (omega arith)
  headers_from-fuel (suc m) zero headers stream h k = absurd (omega arith)
  headers_from-fuel (suc m) (suc n) headers stream h k =
      next_headers-eq (line_of (scan [] stream)) (rest_of (scan [] stream)) headers (headers_from m)
        (headers_from n)
        (λ headers' text found.
          headers_from-fuel m n headers' (rest_of (scan [] stream))
            (omega (arith, rest-length stream found)) (omega (arith, rest-length stream found)))

  abbrev pub FoundHeaders : ℕ → ℕ → Dict Text Text → World → Bytes → Type 0
  FoundHeaders fuel size headers w stream =
      Reads (read_headers fuel size headers) w (found_headers (headers_from fuel headers stream))
        (after_headers (headers_from fuel headers stream))

  after_line-Reads :
      (found : Option Text) (rest : Bytes) (fuel size : ℕ) (headers : Dict Text Text) (v : World)
      → IsIntact v.client_in
      → content v.client_in ≡ rest
      → (found ≡ none → rest ≡ [])
      → ((headers' : Dict Text Text) (text : Text)
          → found ≡ some text
          → FoundHeaders fuel size headers' v rest)
      → Reads
          (after_line found headers (read_headers fuel size))
          v
          (found_headers (next_headers found rest headers (headers_from fuel)))
          (after_headers (next_headers found rest headers (headers_from fuel)))
  unfolding after_line
  after_line-Reads none rest fuel size headers v k c empty ih =
      (v.now, v.client_in, refl, k, c ∙ empty refl)
  after_line-Reads (some []) rest fuel size headers v k c empty ih =
      (v.now, v.client_in, refl, k, c)
  after_line-Reads (some (d ∷ s)) rest fuel size headers v k c empty ih =
      ih (store_header (d ∷ s) headers) (d ∷ s) refl

  pub read_headers-Reads :
      (fuel size : ℕ) (headers : Dict Text Text) (w : World)
      → IsUnhurried w
      → IsIntact w.client_in
      → length (content w.client_in) < fuel
      → length (content w.client_in) < size
      → FoundHeaders fuel size headers w (content w.client_in)
  unfolding read_headers headers_from
  read_headers-Reads zero size headers w un h le le' = absurd (omega arith)
  read_headers-Reads (suc fuel) size headers w un h le le' =
      let stream : Bytes = content w.client_in in
      Reads-then (read_line size []) (λ line. after_line line headers (read_headers fuel size)) w
        (read_line-Reads size [] w un h le')
        (λ t r k c.
          let v : World = record w { now = t; client_in = r } in
          after_line-Reads (line_of (scan [] stream)) (rest_of (scan [] stream)) fuel size headers v
            k c (rest_none (scan [] stream))
            (λ headers' text found.
              let less : length (rest_of (scan [] stream)) < length stream =
                rest-length stream found in
              subst (FoundHeaders fuel size headers' v) c (
                read_headers-Reads fuel size headers' v
                  (record { no_step = un.no_step; no_total = un.no_total }) k
                  (omega (arith, ap length c)) (omega (arith, ap length c)))))
