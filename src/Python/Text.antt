-- ===== src/Python/Text.antt =====
-- Python's `str` as a list of code points, with the methods that the program calls.
pub mod Laws
pub mod Splitting
pub mod Casing
use Prim.Native.Char.{code}
use Prim.Native.String.{String}
use mini_nginx.Common.{
  ℕ, zero, suc, ◌+◌, ◌-◌, Bool, true, false, ◌&&◌, ◌||◌, Option, none, some, List, [], ◌∷◌, ◌++◌,
  ltb, leb, if◌then◌else◌, ◌==◌, nat_eq,
}

abbrev pub Text : Type 0
Text = List ℕ

abbrev pub codes : String → Text
codes String.[] = []
codes (String.◌∷◌ c s) = code c ∷ codes s

-- The interpreter's character tables outside ASCII: the case mappings, the value of a decimal
-- digit, and `str.isdigit` of one character. The tables are data of the interpreter.
pub record Unicode : Type 0 where
  pub lower_other : ℕ → Text
  pub upper_other : ℕ → Text
  pub title_other : ℕ → Text
  pub decimal_other : ℕ → Option ℕ
  pub is_digit_other : ℕ → Bool

-- `str.isspace` of one character, the whitespace of `split` and `strip`.
abbrev pub is_space : ℕ → Bool
is_space c =
    (leb 9 c && leb c 13)
    || (leb 28 c && leb c 32)
    || c == 0x85
    || c == 0xa0
    || c == 0x1680
    || (leb 0x2000 c && leb c 0x200a)
    || c == 0x2028
    || c == 0x2029
    || c == 0x202f
    || c == 0x205f
    || c == 0x3000

pub lstrip : Text → Text
lstrip [] = []
lstrip (c ∷ s) = let rest = lstrip s in if is_space c then rest else c ∷ s

pub rstrip : Text → Text
rstrip [] = []
rstrip (c ∷ s) = elim (rstrip s) [ [] ↦ if is_space c then [] else c ∷ [] | d ∷ t ↦ c ∷ d ∷ t ]

unfoldable pub strip : Text → Text
unfolding lstrip rstrip
strip s = rstrip (lstrip s)

-- The word under way goes before the words that follow, unless it is empty.
abbrev pub flush : Text → List Text → List Text
flush [] words = words
flush (c ∷ s) words = (c ∷ s) ∷ words

split_from : Text → Text → List Text
split_from word [] = flush word []
split_from word (c ∷ s) =
    let ended = flush word (split_from [] s) in
    let longer = split_from (word ++ c ∷ []) s in if is_space c then ended else longer

-- `s.split()`
unfoldable pub split : Text → List Text
unfolding split_from
split s = split_from [] s

-- The word at the start, and what follows it.
pub span_word : Text → Text × Text
span_word [] = ([], [])
span_word (c ∷ s) =
    let (word, rest) = span_word s in if is_space c then ([], c ∷ s) else (c ∷ word, rest)

split_rest : ℕ → Text → List Text
split_rest n [] = []
split_rest zero (c ∷ s) = (c ∷ s) ∷ []
split_rest (suc n) (c ∷ s) =
    let (word, rest) = span_word (c ∷ s) in word ∷ split_rest n (lstrip rest)

-- `s.split(None, n)`
unfoldable pub split_max : ℕ → Text → List Text
unfolding split_rest lstrip span_word
split_max n s = split_rest n (lstrip s)

-- `s.split(c, 1)` where `c in s`; `none` where it is not.
unfoldable pub split_once : ℕ → Text → Option (Text × Text)
split_once sep [] = none
split_once sep (c ∷ s) = elim (split_once sep s) [
  | none ↦ if c == sep then some ([], s) else none
  | some (before, after) ↦ if c == sep then some ([], s) else some (c ∷ before, after)
]

-- `s.rsplit(c, 1)` where `c in s`; `none` where it is not.
unfoldable pub rsplit_once : ℕ → Text → Option (Text × Text)
rsplit_once sep [] = none
rsplit_once sep (c ∷ s) = elim (rsplit_once sep s) [
  | none ↦ if c == sep then some ([], s) else none
  | some (before, after) ↦ some (c ∷ before, after)
]

-- `s.split(c)`
split_on_from : ℕ → Text → Text → List Text
split_on_from sep part [] = part ∷ []
split_on_from sep part (c ∷ s) =
    let ended = part ∷ split_on_from sep [] s in
    let longer = split_on_from sep (part ++ c ∷ []) s in if c == sep then ended else longer

unfoldable pub split_on : ℕ → Text → List Text
unfolding split_on_from
split_on sep s = split_on_from sep [] s

-- `sep.join(parts)`, with a separator of one character.
unfoldable pub join : ℕ → List Text → Text
join sep [] = []
join sep (p ∷ []) = p
join sep (p ∷ q ∷ ps) = p ++ sep ∷ join sep (q ∷ ps)

-- `part in s`
abbrev pub starts_with : Text → Text → Bool
starts_with [] s = true
starts_with (p ∷ part) [] = false
starts_with (p ∷ part) (c ∷ s) = p == c && starts_with part s

unfoldable pub contains_text : Text → Text → Bool
contains_text part [] = starts_with part []
contains_text part (c ∷ s) = starts_with part (c ∷ s) || contains_text part s

-- Case mapping is by character. Python's `lower` has one rule that looks at the neighbours, for a
-- capital sigma at the end of a word, which is not modelled.
module _ ⦃u : Unicode⦄ where
  abbrev pub lower_char : ℕ → Text
  lower_char c =
      if leb b'A' c && leb c b'Z'
      then (c + 32) ∷ []
      else if ltb c 128
      then c ∷ []
      else u.lower_other c

  abbrev pub upper_char : ℕ → Text
  upper_char c =
      if leb b'a' c && leb c b'z'
      then (c - 32) ∷ []
      else if ltb c 128
      then c ∷ []
      else u.upper_other c

  abbrev pub title_char : ℕ → Text
  title_char c =
      if leb b'a' c && leb c b'z'
      then (c - 32) ∷ []
      else if ltb c 128
      then c ∷ []
      else u.title_other c

  unfoldable pub lower : Text → Text
  lower [] = []
  lower (c ∷ s) = lower_char c ++ lower s

  unfoldable pub upper : Text → Text
  upper [] = []
  upper (c ∷ s) = upper_char c ++ upper s

  unfoldable pub capitalize : Text → Text
  unfolding lower
  capitalize [] = []
  capitalize (c ∷ s) = title_char c ++ lower s
