-- ===== src/Python/Utf8.antt =====
-- `bytes.decode("utf-8", errors="replace")` and `str.encode()`.
pub mod Laws
use mini_nginx.Common.{
  ℕ, ◌+◌, ◌-◌, ◌*◌, ◌/◌, ◌%◌, ◌&&◌, Option, none, some, List, [], ◌∷◌, ◌++◌, ltb, leb,
  if◌then◌else◌,
}
use mini_nginx.Python.Text.{Text}

abbrev pub Bytes : Type 0
Bytes = List ℕ

-- A sequence under way: the bytes still to come, the bits so far, and the range of the next byte.
pub record Pending : Type 0 where
  pub need : ℕ
  pub bits : ℕ
  pub low : ℕ
  pub high : ℕ

abbrev pub replacement : ℕ
replacement = 0xfffd

abbrev pending : ℕ → ℕ → ℕ → ℕ → Text × Option Pending
pending need bits low high =
    ([], some (record { need = need; bits = bits; low = low; high = high }))

-- A byte that begins a sequence: what it yields, and what is then under way.
start : ℕ → Text × Option Pending
start b =
    if ltb b 0x80
    then (b ∷ [], none)
    else if leb 0xc2 b && leb b 0xdf
    then pending 1 (b - 0xc0) 0x80 0xbf
    else if leb 0xe0 b && leb b 0xe0
    then pending 2 0 0xa0 0xbf
    else if leb 0xed b && leb b 0xed
    then pending 2 13 0x80 0x9f
    else if leb 0xe1 b && leb b 0xef
    then pending 2 (b - 0xe0) 0x80 0xbf
    else if leb 0xf0 b && leb b 0xf0
    then pending 3 0 0x90 0xbf
    else if leb 0xf1 b && leb b 0xf3
    then pending 3 (b - 0xf0) 0x80 0xbf
    else if leb 0xf4 b && leb b 0xf4
    then pending 3 4 0x80 0x8f
    else (replacement ∷ [], none)

-- A byte that continues a sequence, or ends it too early: then one replacement character stands for
-- what was read, and the byte begins anew.
continue : Pending → ℕ → Text × Option Pending
unfolding start
continue p b =
    if leb p.low b && leb b p.high
    then (if leb p.need 1
        then ((p.bits * 64 + (b - 0x80)) ∷ [], none)
        else pending (p.need - 1) (p.bits * 64 + (b - 0x80)) 0x80 0xbf)
    else (let (text, next) = start b in (replacement ∷ text, next))

step : Option Pending → ℕ → Text × Option Pending
unfolding start continue
step none b = start b
step (some p) b = continue p b

decode_from : Option Pending → Bytes → Text
decode_from none [] = []
decode_from (some p) [] = replacement ∷ []
decode_from state (b ∷ bytes) = let (text, next) = step state b in text ++ decode_from next bytes

unfoldable pub decode : Bytes → Text
unfolding decode_from step
decode bytes = decode_from none bytes

encode_char : ℕ → Bytes
encode_char c =
    if ltb c 0x80
    then c ∷ []
    else if ltb c 0x800
    then (0xc0 + c / 64) ∷ (0x80 + c % 64) ∷ []
    else if ltb c 0x10000
    then (0xe0 + c / 4096) ∷ (0x80 + c / 64 % 64) ∷ (0x80 + c % 64) ∷ []
    else (0xf0 + c / 262144) ∷ (0x80 + c / 4096 % 64) ∷ (0x80 + c / 64 % 64) ∷ (0x80 + c % 64) ∷ []

unfoldable pub encode : Text → Bytes
unfolding encode_char
encode [] = []
encode (c ∷ s) = encode_char c ++ encode s
