-- ===== src/Handler/Lines.antt =====
-- `_read_line` and `_read_headers`: the client's stream, byte by byte, as lines that end in CRLF.
use mini_nginx.Common.{
  ℕ, zero, suc, ◌&&◌, Option, none, some, [], ◌∷◌, ◌++◌, if◌then◌else◌, ◌==◌, nat_eq, list_eq, Dict,
  insert,
}
use mini_nginx.Python.Text.{Text, codes, Unicode, lower, strip, split_once}
use mini_nginx.Python.Utf8.{Bytes, decode}
use mini_nginx.Net.{Io, pure, raise, ◌>>=◌, client_read, failure}

abbrev pub push : ℕ → Option Bytes → Option Bytes
push b none = none
push b (some bytes) = some (b ∷ bytes)

-- `line_bytes[:-2]`, where `line_bytes[-2:] == b'\r\n'`
unfoldable pub drop_crlf : Bytes → Option Bytes
drop_crlf [] = none
drop_crlf (a ∷ []) = none
drop_crlf (a ∷ b ∷ []) = if a == 13 && b == 10 then some [] else none
drop_crlf (a ∷ b ∷ c ∷ bytes) = push a (drop_crlf (b ∷ c ∷ bytes))

-- The rest of a round: the stream is at its end, or the line is whole, or the next round reads on.
abbrev pub line_or : Option Bytes → Io (Option Text) → Io (Option Text)
line_or none next = next
line_or (some whole) next = pure (some (decode whole))

abbrev pub after_byte : Bytes → Bytes → (Bytes → Io (Option Text)) → Io (Option Text)
after_byte line [] next = pure none
after_byte line (b ∷ bytes) next =
    line_or (drop_crlf (line ++ b ∷ bytes)) (next (line ++ b ∷ bytes))

-- A round that goes on takes one byte; when the fuel runs out an exception is raised that the code
-- does not have.
unfoldable pub read_line : ℕ → Bytes → Io (Option Text)
unfolding client_read drop_crlf decode
read_line zero line = raise (failure (codes "out of fuel"))
read_line (suc fuel) line = do chunk ← client_read 1; after_byte line chunk (read_line fuel)

module _ ⦃u : Unicode⦄ where
  -- One line of the header block: "Name: Value", or a line that is passed over.
  unfoldable pub store_header : Text → Dict Text Text → Dict Text Text
  unfolding split_once lower strip
  store_header line headers = elim (split_once b':' line) [
    | none ↦ headers
    | some (name, value) ↦ insert (lower (strip name)) (strip value) headers
  ]

  -- The rest of a round: no more lines, the empty line, or a header.
  unfoldable pub after_line :
      Option Text
      → Dict Text Text
      → (Dict Text Text → Io (Option (Dict Text Text)))
      → Io (Option (Dict Text Text))
  unfolding store_header
  after_line none headers next = pure none
  after_line (some []) headers next = pure (some headers)
  after_line (some (c ∷ s)) headers next = next (store_header (c ∷ s) headers)

  -- A round that goes on takes a line; the fuel is that of `read_line`, for the rounds too.
  unfoldable pub read_headers : ℕ → ℕ → Dict Text Text → Io (Option (Dict Text Text))
  unfolding read_line after_line
  read_headers zero size headers = raise (failure (codes "out of fuel"))
  read_headers (suc fuel) size headers = do
    line ← read_line size []
    after_line line headers (read_headers fuel size)
