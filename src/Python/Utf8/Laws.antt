-- ===== src/Python/Utf8/Laws.antt =====
-- ASCII is its own encoding.
use mini_nginx.Common.{ℕ, ◌<◌, ◌≡◌, refl, sym, ap, ◌∙◌, none, [], ◌∷◌, ◌++◌, append_assoc, arith}
use mini_nginx.Python.Text.{Text}
use mini_nginx.Python.Utf8.{Bytes, step, decode_from, decode, encode, encode_char}

abbrev pub IsAscii : Text → Type 0
IsAscii [] = Unit
IsAscii (c ∷ s) = (c < 128) × IsAscii s

pub IsAscii-append : (s t : Text) → IsAscii s → IsAscii t → IsAscii (s ++ t)
IsAscii-append [] t h k = k
IsAscii-append (c ∷ s) t (h, g) k = (h, IsAscii-append s t g k)

step-ascii : (b : ℕ) → b < 128 → step none b ≡ (b ∷ [], none)
unfolding step
step-ascii b h = ground arith

decode_from-ascii : (s : Bytes) → IsAscii s → decode_from none s ≡ s
unfolding decode_from
decode_from-ascii [] h = refl
decode_from-ascii (b ∷ s) (h, k) =
    ap (λ p. p.0 ++ decode_from p.1 s) (step-ascii b h) ∙ ap (λ t. b ∷ t) (decode_from-ascii s k)

pub decode-ascii : (s : Bytes) → IsAscii s → decode s ≡ s
unfolding decode
decode-ascii s h = decode_from-ascii s h

pub encode-append : (s t : Text) → encode (s ++ t) ≡ encode s ++ encode t
unfolding encode
encode-append [] t = refl
encode-append (c ∷ s) t =
    ap (λ x. encode_char c ++ x) (encode-append s t)
    ∙ sym (append_assoc (encode_char c) (encode s) (encode t))
