-- ===== src/Handler/Results.antt =====
-- `parse_request` as a function of the bytes of the client's stream.
use mini_nginx.Common.{
  ℕ, suc, ◌<◌, ◌≡◌, refl, ap, subst, Option, none, some, List, [], ◌∷◌, arith, length,
}
use mini_nginx.Python.Text.{Text, Unicode, split}
use mini_nginx.Python.Utf8.{Bytes}
use mini_nginx.Net.{World, pure}
use mini_nginx.Net.Binds.{catch-ok}
use mini_nginx.Net.Reading.{content, IsIntact, IsUnhurried}
use mini_nginx.Http.{HttpRequest}
use mini_nginx.Handler.Lines.{read_line, read_headers}
use mini_nginx.Handler.Parse.{
  with_headers, no_request, after_start, start, parse_body, parse_request,
}
use mini_nginx.Handler.Segments.{scan, rest-length, line_of, rest_of, Reads, read_line-Reads}
use mini_nginx.Handler.Requests.{
  headers_from, headers_from-fuel, found_headers, after_headers, read_headers-Reads, Reads-then,
}

module _ ⦃u : Unicode⦄ where
  -- What a start line leads to, with the bytes behind it.
  abbrev pub parse_parts : Text → List Text → Bytes → Option HttpRequest × Bytes
  parse_parts trace_id (method ∷ path ∷ version ∷ []) stream =
      let headers = headers_from (suc (length stream)) [] stream in
      (with_headers trace_id method path version (found_headers headers), after_headers headers)
  parse_parts trace_id parts stream = (none, stream)

  abbrev pub parse_start : Text → Option Text → Bytes → Option HttpRequest × Bytes
  parse_start trace_id none stream = (none, stream)
  parse_start trace_id (some []) stream = (none, stream)
  parse_start trace_id (some (c ∷ s)) stream = parse_parts trace_id (split (c ∷ s)) stream

  -- The request at the front of some bytes, and what follows it.
  abbrev pub parse_bytes : Text → Bytes → Option HttpRequest × Bytes
  parse_bytes trace_id stream =
      parse_start trace_id (line_of (scan [] stream)) (rest_of (scan [] stream))

  after_start-Reads :
      (fuel : ℕ) (trace_id : Text) (parts : List Text) (v : World)
      → IsUnhurried v
      → IsIntact v.client_in
      → length (content v.client_in) < fuel
      → Reads
          (after_start fuel trace_id parts)
          v
          (parse_parts trace_id parts (content v.client_in)).0
          (parse_parts trace_id parts (content v.client_in)).1
  unfolding after_start
  after_start-Reads fuel trace_id (a ∷ b ∷ c ∷ []) v un k le =
      let stream : Bytes = content v.client_in in
      rw (headers_from-fuel (suc (length stream)) fuel [] stream (omega arith) le) (
        Reads-then (read_headers fuel fuel [])
          (λ headers. pure (with_headers trace_id a b c headers)) v
          (read_headers-Reads fuel fuel [] v un k le le) (λ t r k' c'. (t, r, refl, k', c')))
  after_start-Reads fuel trace_id parts v un k le = (v.now, v.client_in, refl, k, refl)

  start-Reads :
      (fuel : ℕ) (trace_id : Text) (found : Option Text) (v : World)
      → IsUnhurried v
      → IsIntact v.client_in
      → (((text : Text) → found ≡ some text → length (content v.client_in) < fuel))
      → Reads
          (start fuel trace_id found)
          v
          (parse_start trace_id found (content v.client_in)).0
          (parse_start trace_id found (content v.client_in)).1
  unfolding start
  start-Reads fuel trace_id none v un k le = (v.now, v.client_in, refl, k, refl)
  start-Reads fuel trace_id (some []) v un k le = (v.now, v.client_in, refl, k, refl)
  start-Reads fuel trace_id (some (c ∷ s)) v un k le =
      after_start-Reads fuel trace_id (split (c ∷ s)) v un k (le (c ∷ s) refl)

  -- From a client's stream that is not broken, with no deadline set, `parse_request` returns: the
  -- request, or none, is a function of the bytes of the stream alone, whatever the parts and the
  -- times in which they arrive, and so is what it leaves in the stream, the body at its front; it
  -- changes nothing else but the clock.
  pub parse_request-Reads :
      (trace_id : Text) (w : World)
      → IsUnhurried w
      → IsIntact w.client_in
      → Reads
          (parse_request trace_id)
          w
          (parse_bytes trace_id (content w.client_in)).0
          (parse_bytes trace_id (content w.client_in)).1
  unfolding parse_request parse_body
  parse_request-Reads trace_id w un k =
      let stream : Bytes = content w.client_in in
      let fuel : ℕ = suc (length stream) in
      let (t, r, e, k', c) =
        Reads-then (read_line fuel []) (start fuel trace_id) w
          (read_line-Reads fuel [] w un k (omega arith))
          (λ t r k' c.
            let v : World = record w { now = t; client_in = r } in
            subst
              (λ rest.
                Reads (start fuel trace_id (line_of (scan [] stream))) v
                  (parse_start trace_id (line_of (scan [] stream)) rest).0
                  (parse_start trace_id (line_of (scan [] stream)) rest).1)
              c
              (start-Reads fuel trace_id (line_of (scan [] stream)) v
                (record { no_step = un.no_step; no_total = un.no_total }) k'
                (λ text found. omega (arith, ap length c, rest-length stream found)))) in
      (t, r, catch-ok (parse_body fuel trace_id) no_request w e, k', c)
