-- ===== src/Metrics/Service/Laws.antt =====
-- What a client of the metrics server is sent.
use mini_nginx.Common.{
  ℕ, zero, suc, ◌<◌, ◌≤◌, ◌≡◌, ◌≢◌, refl, sym, ap, ◌∙◌, true, false, Bool-cases, inl, inr, [], ◌∷◌,
  ◌++◌, append-nil, arith, length, if◌then◌else◌, ◌==◌, nat_eq, list_eq,
}
use mini_nginx.Python.Text.{Text, codes}
use mini_nginx.Python.Utf8.{Bytes, encode}
use mini_nginx.Python.Utf8.Laws.{encode-append}
use mini_nginx.Metrics.{Metrics}
use mini_nginx.Metrics.Render.{render}
use mini_nginx.Net.{
  World, Writer, Io, Result, pure, ◌>>=◌, ◌>>◌, client_write, client_drain, close_client,
  later_drains,
}
use mini_nginx.Net.Binds.{>>=-ok}
use mini_nginx.Net.Frames.{
  Fixes, Fixes-client_drain, Fixes-close_client, after-world, close_client-closes,
}
use mini_nginx.Net.Reading.{content, IsIntact, IsUnhurried}
use mini_nginx.Net.Readline.{client_readline, line_limit, first_line, cut_line}
use mini_nginx.Net.Readline.Laws.{client_readline-first_line, first_line-shorter, first_line-ne}
use mini_nginx.Handler.Segments.{Reads}
use mini_nginx.Metrics.Service.{
  is_blank, skip_headers, request_path, ok_head, not_found, response, answer, metrics_handler,
}

-- The bytes that are sent for a request.
abbrev pub sent : Bytes → Metrics → Bytes
sent [] m = []
sent (b ∷ bytes) m =
    if request_path (first_line (b ∷ bytes)).0 == codes "/metrics"
    then encode (ok_head (length (encode (render m)))) ++ encode (render m)
    else encode not_found

encode-response :
    (path : Text) (m : Metrics)
    → encode (response path m) ≡ (
        if path == codes "/metrics"
        then encode (ok_head (length (encode (render m)))) ++ encode (render m)
        else encode not_found)
unfolding response
encode-response path m = elim (Bool-cases (path == codes "/metrics")) [
  | inl same ↦ rw same (encode-append (ok_head (length (encode (render m)))) (render m))
  | inr other ↦ rw other refl
]

is_blank-nil : (line : Bytes) → is_blank line ≡ false → line ≢ []
is_blank-nil line h e = cc (sym h ∙ ap is_blank e)

first_line-nil : (bytes : Bytes) → (first_line bytes).0 ≢ [] → bytes ≢ []
unfolding first_line cut_line
first_line-nil bytes h e = h (ap (λ x. (first_line x).0) e)

-- The loop over the headers ends.
skip_headers-Reads :
    (fuel : ℕ) (w : World)
    → IsUnhurried w
    → IsIntact w.client_in
    → length (content w.client_in) ≤ line_limit
    → length (content w.client_in) < fuel
    → (rest : Bytes) × Reads (skip_headers fuel) w tt rest
unfolding skip_headers
skip_headers-Reads zero w u k h le = absurd (omega arith)
skip_headers-Reads (suc fuel) w u k h le =
    let (t, r, e, intact, rest) = client_readline-first_line w u k h in
    let line : Bytes = (first_line (content w.client_in)).0 in
    let v : World = record w { now = t; client_in = r } in
    let next : Bytes → Io (Unit {0}) =
      λ line. if is_blank line then pure tt else skip_headers fuel in
    let first : skip_headers (suc fuel) w
        ≡ (if is_blank line then pure tt else skip_headers fuel) v =
      >>=-ok client_readline next w e in
    elim (Bool-cases (is_blank line)) [
      | inl blank ↦ (
        content r,
        (t, r, first ∙ ap (λ b. (if b then pure tt else skip_headers fuel) v) blank, intact, refl),
      )
      | inr other ↦
          let shorter : length (content r) < length (content w.client_in) = rw rest (
            first_line-shorter (content w.client_in)
              (first_line-nil _ (is_blank-nil line other))) in
          let (left, (t', r', e', intact', rest')) =
            skip_headers-Reads fuel v (record { no_step = u.no_step; no_total = u.no_total }) intact
              (omega (arith, shorter)) (omega (arith, shorter)) in
          (
            left,
            (
              t',
              r',
              first ∙ ap (λ b. (if b then pure tt else skip_headers fuel) v) other ∙ e',
              intact',
              rest',
            ),
          )
    ]

-- What the theorem shows of the world.
abbrev shown : World → Bytes × Metrics
shown w = (w.client_out.written, w.metrics)

written-later_drains : (o : Writer) → (later_drains o).written ≡ o.written
written-later_drains o = ground arith

drain-shown : Fixes shown client_drain
drain-shown =
    Fixes-client_drain shown (λ w t s d. refl)
      (λ w. ap (λ x. (x, w.metrics)) (written-later_drains w.client_out))

-- The rest of the handler, once the request line has been read.
answer-shown :
    (fuel : ℕ) (line : Bytes) (w : World)
    → line ≢ []
    → (rest : Bytes) × Reads (skip_headers fuel) w tt rest
    → shown (answer fuel line w).1
      ≡ (w.client_out.written ++ encode (response (request_path line) w.metrics), w.metrics)
unfolding answer
answer-shown fuel [] w h k = absurd (h refl)
answer-shown fuel (b ∷ line) w h (rest, (t, r, e, intact, left)) =
    let write : Io (Unit {0}) =
      λ v. client_write (encode (response (request_path (b ∷ line)) v.metrics)) v in
    let v : World = record w { now = t; client_in = r } in
    ap (λ o. shown o.1)
      (>>=-ok (skip_headers fuel >> write) (λ x. client_drain) w
        (>>=-ok (skip_headers fuel) (λ x. write) w e))
    ∙ drain-shown (write v).1

answered :
    (fuel : ℕ) (stream : Bytes) (w : World)
    → (stream ≢ [] → (rest : Bytes) × Reads (skip_headers fuel) w tt rest)
    → shown (answer fuel (first_line stream).0 w).1
      ≡ (w.client_out.written ++ sent stream w.metrics, w.metrics)
unfolding answer first_line cut_line
answered fuel [] w k = ap (λ x. (x, w.metrics)) (sym (append-nil w.client_out.written))
answered fuel (b ∷ bytes) w k =
    answer-shown fuel (first_line (b ∷ bytes)).0 w (first_line-ne (b ∷ bytes) (λ e. cc))
      (k (λ e. cc))
    ∙ ap (λ x. (w.client_out.written ++ x, w.metrics))
        (encode-response (request_path (first_line (b ∷ bytes)).0) w.metrics)

body-shown :
    (w : World)
    → IsUnhurried w
    → IsIntact w.client_in
    → length (content w.client_in) ≤ line_limit
    → shown ((client_readline >>= answer (suc (length (content w.client_in)))) w).1
      ≡ (w.client_out.written ++ sent (content w.client_in) w.metrics, w.metrics)
body-shown w u k h =
    let (t, r, e, intact, rest) = client_readline-first_line w u k h in
    let fuel : ℕ = suc (length (content w.client_in)) in
    let v : World = record w { now = t; client_in = r } in
    ap (λ o. shown o.1) (>>=-ok client_readline (answer fuel) w e)
    ∙ answered fuel (content w.client_in) v (λ some_bytes.
      let shorter : length (content r) < length (content w.client_in) =
        rw rest (first_line-shorter (content w.client_in) some_bytes) in
      skip_headers-Reads fuel v (record { no_step = u.no_step; no_total = u.no_total }) intact
        (omega (arith, shorter)) (omega (arith, shorter)))

-- Any client of the metrics server whose request is not longer than a line may be, however it arrives,
-- is answered, and its connection is closed: nothing is sent for an empty stream; for the path
-- /metrics the text of the counters follows a head whose Content-Length is the number of its bytes;
-- any other path gets 404. The counters stay as they are, and the loop over the headers ends.
pub metrics_handler-answers :
    (w : World)
    → IsUnhurried w
    → IsIntact w.client_in
    → length (content w.client_in) ≤ line_limit
    → let w' = (metrics_handler w).1 in
      (w'.client_out.closed ≡ true)
      × (w'.metrics ≡ w.metrics)
      × (w'.client_out.written ≡ w.client_out.written ++ sent (content w.client_in) w.metrics)
unfolding metrics_handler
metrics_handler-answers w u k h =
    let body : Io (Unit {0}) = client_readline >>= answer (suc (length (content w.client_in))) in
    let v : World = (body w).1 in
    let closing : Result (Unit {0}) × World = close_client v in
    let ended : (metrics_handler w).1 ≡ closing.1 =
      after-world (λ (x : World). x) (body w).0 closing.0 closing.1 in
    let kept : shown (metrics_handler w).1
        ≡ (w.client_out.written ++ sent (content w.client_in) w.metrics, w.metrics) =
      ap shown ended
      ∙ Fixes-close_client shown (λ w t s d. refl) (λ w. refl) v
      ∙ body-shown w u k h in
    (
      ap (λ (x : World). x.client_out.closed) ended ∙ close_client-closes v,
      ap (λ p. p.1) kept,
      ap (λ p. p.0) kept,
    )
