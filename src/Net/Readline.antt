-- ===== src/Net/Readline.antt =====
-- `StreamReader.readline`: a line with its newline, or what is left at the end.
pub mod Laws
use mini_nginx.Common.{
  ℕ, suc, ◌+◌, ◌-◌, ◌<◌, ◌≤◌, ◌≡◌, ◌≢◌, refl, sym, ap, subst, ◌∙◌, true, false, Bool-cases,
  Option-cases, inl, inr, Option, none, some, List, [], ◌∷◌, ◌++◌, append_assoc, append-nil, arith,
  length, length-append, length-positive, le→ltb, ltb, if◌then◌else◌, ◌==◌, nat_eq,
}
use mini_nginx.Python.Text.{codes}
use mini_nginx.Python.Utf8.{Bytes}
use mini_nginx.Net.{
  World, Io, ok, Arrival, arrived, broken, Reader, Result, pure, raise, failure, wait, resume,
  ◌>>=◌, ◌>>◌,
}
use mini_nginx.Net.Binds.{>>=-ok}
use mini_nginx.Net.Reading.{
  content, arrivals_content, IsIntact, IsIntactFrom, IsUnhurried, wait-IsUnhurried,
}

abbrev pub with_first : ℕ → Option (Bytes × Bytes) → Option (Bytes × Bytes)
with_first b none = none
with_first b (some (line, rest)) = some (b ∷ line, rest)

-- The bytes up to the first newline, and those behind it.
unfoldable pub cut_line : Bytes → Option (Bytes × Bytes)
cut_line [] = none
cut_line (b ∷ bytes) = elim (b == 10) [
  | true ↦ some (b ∷ [], bytes)
  | false ↦ with_first b (cut_line bytes)
]

-- The limit of `asyncio.start_server`'s readers.
abbrev pub line_limit : ℕ
line_limit = 65536

-- A newline is in the buffer, or more has to come; past the limit `readline` raises a `ValueError`.
abbrev pub line_or_more :
    Option (Bytes × Bytes) → Bytes → List (ℕ × Arrival) → Io (Bytes × Reader) → Io (Bytes × Reader)
line_or_more (some (line, rest)) buffer parts next =
    if ltb line_limit (length line - 1)
    then raise (failure (codes "ValueError"))
    else pure (line, record { buffer = rest; arrivals = parts })
line_or_more none buffer parts next =
    if ltb line_limit (length buffer) then raise (failure (codes "ValueError")) else next

unfoldable pub readline_from : List (ℕ × Arrival) → Bytes → Io (Bytes × Reader)
unfolding cut_line wait
readline_from [] buffer =
    line_or_more (cut_line buffer) buffer [] (pure (buffer, record { buffer = []; arrivals = [] }))
readline_from ((d, broken e) ∷ parts) buffer =
    line_or_more (cut_line buffer) buffer ((d, broken e) ∷ parts) (wait d >> raise e)
readline_from ((d, arrived bytes) ∷ parts) buffer =
    line_or_more (cut_line buffer) buffer ((d, arrived bytes) ∷ parts)
      (wait d >> readline_from parts (buffer ++ bytes))

unfoldable pub client_readline : Io Bytes
unfolding readline_from
client_readline w =
    resume (readline_from w.client_in.arrivals w.client_in.buffer w)
      (λ (line, r) v. (ok line, record v { client_in = r }))

-- The first line of a whole stream, and what follows it.
abbrev pub line_and_rest : Bytes → Option (Bytes × Bytes) → Bytes × Bytes
line_and_rest bytes none = (bytes, [])
line_and_rest bytes (some (line, rest)) = (line, rest)

unfoldable pub first_line : Bytes → Bytes × Bytes
unfolding cut_line
first_line bytes = line_and_rest bytes (cut_line bytes)
