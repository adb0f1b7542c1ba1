-- ===== src/Http.antt =====
-- A parsed request, and how it is sent to the upstream server (proxy/utils/http.py).
pub mod Sent
pub mod Body
pub mod Forward
pub mod Headers
pub mod Aloof
pub mod Prompt
mod Tests
use mini_nginx.Common.{
  ℕ, zero, suc, ◌-◌, ◌<◌, Bool, true, false, not, ◌&&◌, ◌||◌, Option, none, some, List, [], ◌∷◌,
  ◌++◌, map, ℤ, pos, negsuc, pos_part, ltb, ltb_ℤ, if◌then◌else◌, ◌==◌, nat_eq, list_eq, Dict,
  insert, lookup, contains, get_or, length, min,
}
use mini_nginx.Python.Text.{
  Text, codes, Unicode, lower, upper, capitalize, split_on, join, contains_text,
}
use mini_nginx.Python.Utf8.{Bytes, encode}
use mini_nginx.Python.Number.{int}
use mini_nginx.Net.Reading.{content}
use mini_nginx.Net.{
  World, Io, pure, raise, raised, ◌>>=◌, ◌>>◌, Exception, client_read, upstream_write,
  upstream_drain, failure,
}

-- The reader of the body is the client's stream, `client_in` of the world.
pub record HttpRequest : Type 0 where
  pub method : Text
  pub path : Text
  pub version : Text
  pub headers : Dict Text Text
  pub trace_id : Text

abbrev pub crlf : Bytes
crlf = 13 ∷ 10 ∷ []

abbrev pub space : ℕ
space = b' '

-- `f"{self.method} {self.path} {self.version}\r\n"`
unfoldable pub start_line : HttpRequest → Text
start_line req = req.method ++ space ∷ (req.path ++ space ∷ (req.version ++ crlf))

abbrev pub is_empty : Text → Bool
is_empty [] = true
is_empty (c ∷ s) = false

module _ ⦃u : Unicode⦄ where
  unfoldable pub close_connection : Dict Text Text → Dict Text Text
  close_connection headers =
      if not (contains (codes "connection") headers)
      then insert (codes "connection") (codes "close") headers
      else if not (lower (get_or headers (codes "connection") []) == codes "close")
      then insert (codes "connection") (codes "close") headers
      else headers

  -- `headers_to_send`
  unfoldable pub headers_to_send : HttpRequest → Dict Text Text
  unfolding close_connection
  headers_to_send req =
      let headers = close_connection req.headers in
      if is_empty req.trace_id then headers else insert (codes "x-trace-id") req.trace_id headers

  capitalize_all : List Text → List Text
  capitalize_all [] = []
  capitalize_all (word ∷ words) = capitalize word ∷ capitalize_all words

  unfoldable pub header_name : Text → Text
  unfolding capitalize_all split_on join capitalize
  header_name name = join b'-' (capitalize_all (split_on b'-' name))

  unfoldable pub header_line : Text × Text → Text
  unfolding header_name
  header_line (name, value) = header_name name ++ b':' ∷ b' ' ∷ (value ++ crlf)

  -- The loop that writes the headers.
  unfoldable pub write_headers : Dict Text Text → Io (Unit {0})
  unfolding header_line encode
  write_headers [] = pure tt
  write_headers (header ∷ headers) =
      upstream_write (encode (header_line header)) >> write_headers headers

  may_have_body : Text → Bool
  may_have_body method =
      let m = upper method in m == codes "POST" || m == codes "PUT" || m == codes "PATCH"

  positive : Option ℤ → Bool
  positive none = false
  positive (some n) = ltb_ℤ (pos 0) n

  -- `has_body`; a header that is absent reads as an empty text, which is false as well.
  unfoldable pub has_body : HttpRequest → Bool
  unfolding may_have_body positive int
  has_body req =
      let content_length = get_or req.headers (codes "content-length") [] in
      let transfer_encoding = get_or req.headers (codes "transfer-encoding") [] in
      if not (is_empty content_length)
      then positive (int content_length)
      else if not (is_empty transfer_encoding)
          && contains_text (codes "chunked") (lower transfer_encoding)
      then true
      else may_have_body req.method

abbrev pub chunk_size : ℕ
chunk_size = 8192

-- What a round does with its chunk: nothing more at the end of the stream, else it is written and
-- drained before the next round.
unfoldable pub send_chunk : Bytes → Io (Unit {0}) → Io (Unit {0})
unfolding upstream_drain
send_chunk [] next = pure tt
send_chunk (b ∷ bytes) next = upstream_write (b ∷ bytes) >> upstream_drain >> next

-- `while remaining > 0`. A round that goes on takes a byte or more, so `remaining` rounds are enough.
unfoldable pub stream_exact : ℕ → ℕ → Io (Unit {0})
unfolding client_read send_chunk
stream_exact zero remaining = pure tt
stream_exact (suc fuel) remaining = elim (ltb 0 remaining) [
  | false ↦ pure tt
  | true ↦ (do
    chunk ← client_read (min chunk_size remaining)
    send_chunk chunk (stream_exact fuel (remaining - length chunk)))
]

-- `while True`. A round that goes on takes a byte or more; when the fuel runs out an exception is
-- raised that the code does not have.
unfoldable pub stream_all : ℕ → Io (Unit {0})
unfolding client_read send_chunk
stream_all zero = raise (failure (codes "out of fuel"))
stream_all (suc fuel) = do chunk ← client_read chunk_size; send_chunk chunk (stream_all fuel)

-- `if content_length: … else: …`, given whether the header is empty and what `int` makes of it. It is
-- known to be a number here: the `ValueError` of `int` was met in `has_body` before.
unfoldable pub stream_from : Bool → Option ℤ → Io (Unit {0})
unfolding stream_exact stream_all
stream_from true size w = stream_all (suc (length (content w.client_in))) w
stream_from false none w = (raised (failure (codes "ValueError")), w)
stream_from false (some n) w = stream_exact (pos_part n) (pos_part n) w

module _ ⦃u : Unicode⦄ where
  unfoldable pub stream_body : HttpRequest → Io (Unit {0})
  unfolding stream_from int
  stream_body req =
      let content_length = get_or req.headers (codes "content-length") [] in
      stream_from (is_empty content_length) (int content_length)

  unfoldable pub write_to_upstream : HttpRequest → Io (Unit {0})
  unfolding start_line headers_to_send write_headers has_body stream_body encode upstream_drain
  write_to_upstream req = do
    upstream_write (encode (start_line req))
    write_headers (headers_to_send req)
    upstream_write crlf
    upstream_drain
    if has_body req then stream_body req else pure tt
    upstream_drain
