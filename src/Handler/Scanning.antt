-- ===== src/Handler/Scanning.antt =====
-- The first line of bytes that are written as lines.
use mini_nginx.Common.{
  ℕ, ◌≡◌, refl, sym, ap, ◌∙◌, none, some, [], ◌∷◌, ◌++◌, append_assoc, append-nil, nat_eq, ==_ne,
}
use mini_nginx.Python.Text.Laws.{Lacks}
use mini_nginx.Python.Utf8.{Bytes}
use mini_nginx.Handler.Lines.{push, drop_crlf}
use mini_nginx.Handler.Segments.{scan}

drop_crlf-Lacks : (s : Bytes) → Lacks 13 s → drop_crlf s ≡ none
unfolding drop_crlf
drop_crlf-Lacks [] h = refl
drop_crlf-Lacks (a ∷ []) h = refl
drop_crlf-Lacks (a ∷ b ∷ []) (h, k) = rw (==_ne a 13 h)
drop_crlf-Lacks (a ∷ b ∷ c ∷ s) (h, k) = ap (push a) (drop_crlf-Lacks (b ∷ c ∷ s) k)

drop_crlf-cr : (s : Bytes) → Lacks 13 s → drop_crlf (s ++ 13 ∷ []) ≡ none
unfolding drop_crlf
drop_crlf-cr [] h = refl
drop_crlf-cr (a ∷ []) (h, k) = rw (==_ne a 13 h)
drop_crlf-cr (a ∷ b ∷ []) (h, k) = ap (push a) (drop_crlf-cr (b ∷ []) k)
drop_crlf-cr (a ∷ b ∷ c ∷ s) (h, k) = ap (push a) (drop_crlf-cr (b ∷ c ∷ s) k)

drop_crlf-crlf : (s : Bytes) → drop_crlf (s ++ 13 ∷ 10 ∷ []) ≡ some s
unfolding drop_crlf
drop_crlf-crlf [] = refl
drop_crlf-crlf (a ∷ []) = refl
drop_crlf-crlf (a ∷ b ∷ []) = ap (push a) (drop_crlf-crlf (b ∷ []))
drop_crlf-crlf (a ∷ b ∷ c ∷ s) = ap (push a) (drop_crlf-crlf (b ∷ c ∷ s))

scan-step :
    (line : Bytes) (b : ℕ) (bytes : Bytes)
    → drop_crlf (line ++ b ∷ []) ≡ none
    → scan line (b ∷ bytes) ≡ scan (line ++ b ∷ []) bytes
unfolding scan
scan-step line b bytes e = rw (e, scan)

scan-last :
    (line : Bytes) (b : ℕ) (bytes whole : Bytes)
    → drop_crlf (line ++ b ∷ []) ≡ some whole
    → scan line (b ∷ bytes) ≡ some (whole, bytes)
unfolding scan
scan-last line b bytes whole e = rw (e, scan)

pub Lacks-append : (sep : ℕ) (s t : Bytes) → Lacks sep s → Lacks sep t → Lacks sep (s ++ t)
Lacks-append sep [] t h k = k
Lacks-append sep (c ∷ s) t (h, g) k = (h, Lacks-append sep s t g k)

scan-crlf : (line rest : Bytes) → Lacks 13 line → scan line (13 ∷ 10 ∷ rest) ≡ some (line, rest)
scan-crlf line rest h =
    scan-step line 13 (10 ∷ rest) (drop_crlf-cr line h)
    ∙ scan-last (line ++ 13 ∷ []) 10 rest line
        (ap drop_crlf (append_assoc line (13 ∷ []) (10 ∷ [])) ∙ drop_crlf-crlf line)

scan-behind :
    (line s rest : Bytes)
    → Lacks 13 line
    → Lacks 13 s
    → scan line (s ++ 13 ∷ 10 ∷ rest) ≡ some (line ++ s, rest)
scan-behind line [] rest h k =
    scan-crlf line rest h ∙ ap (λ l. some (l, rest)) (sym (append-nil line))
scan-behind line (b ∷ s) rest h (kb, ks) =
    let more : Lacks 13 (line ++ b ∷ []) = Lacks-append 13 line (b ∷ []) h (kb, tt) in
    scan-step line b (s ++ 13 ∷ 10 ∷ rest) (drop_crlf-Lacks (line ++ b ∷ []) more)
    ∙ scan-behind (line ++ b ∷ []) s rest more ks
    ∙ ap (λ l. some (l, rest)) (append_assoc line (b ∷ []) s)

-- A line without a carriage return, with CRLF behind it, is read as that line.
pub scan-line : (s rest : Bytes) → Lacks 13 s → scan [] (s ++ 13 ∷ 10 ∷ rest) ≡ some (s, rest)
scan-line s rest h = scan-behind [] s rest tt h
