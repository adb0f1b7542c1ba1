-- ===== src/Proxy/Relay.antt =====
-- The response: read in chunks from the upstream and written to the client as it comes.
use mini_nginx.Common.{
  ℕ, zero, suc, ◌+◌, Bool, true, false, ◌&&◌, Option, none, some, List, [], ◌∷◌, ℤ, pos, length,
  if◌then◌else◌, ◌==◌, nat_eq,
}
use mini_nginx.Python.Text.{Text, codes, Unicode, split_max}
use mini_nginx.Python.Utf8.{Bytes, decode}
use mini_nginx.Python.Number.{int}
use mini_nginx.Pool.{Upstream}
use mini_nginx.Metrics.{record_timeout_error, record_upstream_error}
use mini_nginx.Net.{
  Io, Exception, timed_out, refused, os_error, cancelled, failure, pure, raise, catch, modify,
  ◌>>=◌, ◌>>◌, upstream_read, client_write, client_drain,
}
use mini_nginx.Timeouts.{TimeoutPolicy, with_read_timeout}

-- `chunk.split(b"\r\n")[0]`
abbrev pub starts_lf : Bytes → Bool
starts_lf [] = false
starts_lf (b ∷ bytes) = b == 10

unfoldable pub before_crlf : Bytes → Bytes
before_crlf [] = []
before_crlf (b ∷ bytes) =
    let rest = b ∷ before_crlf bytes in if b == 13 && starts_lf bytes then [] else rest

module _ ⦃u : Unicode⦄ where
  abbrev pub int_or : ℤ → Option ℤ → ℤ
  int_or default none = default
  int_or default (some n) = n

  status_of_parts : List Text → ℤ
  unfolding int
  status_of_parts [] = pos 200
  status_of_parts (part ∷ []) = pos 200
  status_of_parts (version ∷ status ∷ rest) = int_or (pos 200) (int status)

  -- `_parse_status_from_chunk`
  unfoldable pub parse_status_from_chunk : Bytes → ℤ
  unfolding before_crlf status_of_parts split_max decode
  parse_status_from_chunk chunk = status_of_parts (split_max 2 (decode (before_crlf chunk)))

-- The handlers of a read: a timeout is counted, and every exception goes on.
abbrev pub count_read_error : Upstream → Exception → Io Bytes
count_read_error upstream timed_out =
    modify (λ w. record w {
      metrics =
          record_upstream_error upstream.host upstream.port (codes "timeout")
            (record_timeout_error (codes "read") w.metrics);
    })
    >> raise timed_out
count_read_error upstream (refused msg) = raise (refused msg)
count_read_error upstream (os_error msg) = raise (os_error msg)
count_read_error upstream (cancelled s) = raise (cancelled s)
count_read_error upstream (failure msg) = raise (failure msg)

-- One read of a chunk, of 8192 bytes at most.
unfoldable pub read_chunk : TimeoutPolicy → Upstream → Io Bytes
unfolding upstream_read record_upstream_error record_timeout_error
read_chunk policy upstream =
    catch (with_read_timeout policy (upstream_read 8192)) (count_read_error upstream)

-- `response_status`, `total_bytes` and `first_chunk`.
pub record Progress : Type 0 where
  pub response_status : ℤ
  pub total_bytes : ℕ
  pub first_chunk : Bool

abbrev pub begin : Progress
begin = record { response_status = pos 200; total_bytes = 0; first_chunk = true }

module _ ⦃u : Unicode⦄ where
  abbrev pub advance : Bytes → Progress → Progress
  advance chunk p = record {
    response_status = if p.first_chunk then parse_status_from_chunk chunk else p.response_status;
    total_bytes = p.total_bytes + length chunk;
    first_chunk = false;
  }

  -- The rest of a round: an empty chunk ends the loop, any other is written and drained.
  unfoldable pub relay_chunk : Bytes → Progress → (Progress → Io Progress) → Io Progress
  unfolding client_drain parse_status_from_chunk
  relay_chunk [] p next = pure p
  relay_chunk (b ∷ bytes) p next =
      client_write (b ∷ bytes) >> client_drain >> next (advance (b ∷ bytes) p)

  -- `while True`. A round that goes on takes a byte or more; when the fuel runs out an exception is
  -- raised that the code does not have. The handlers round the loop only log and raise again.
  unfoldable pub relay : ℕ → TimeoutPolicy → Upstream → Progress → Io Progress
  unfolding read_chunk relay_chunk
  relay zero policy upstream p = raise (failure (codes "out of fuel"))
  relay (suc fuel) policy upstream p = do
    chunk ← read_chunk policy upstream
    relay_chunk chunk p (relay fuel policy upstream)
