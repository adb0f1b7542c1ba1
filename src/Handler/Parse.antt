-- ===== src/Handler/Parse.antt =====
-- `parse_request`: the start line, then the header block; the body stays in the stream.
use mini_nginx.Common.{ℕ, suc, Option, none, some, List, [], ◌∷◌, Dict, length}
use mini_nginx.Python.Text.{Text, Unicode, split}
use mini_nginx.Net.{
  Io, Exception, cancelled, timed_out, refused, os_error, failure, pure, raise, catch, ◌>>=◌,
}
use mini_nginx.Net.Reading.{content}
use mini_nginx.Http.{HttpRequest}
use mini_nginx.Handler.Lines.{read_line, read_headers}

-- `except Exception`: the error is logged, and there is no request.
abbrev pub no_request : Exception → Io (Option HttpRequest)
no_request (cancelled s) = raise (cancelled s)
no_request timed_out = pure none
no_request (refused msg) = pure none
no_request (os_error msg) = pure none
no_request (failure msg) = pure none

abbrev pub with_headers : Text → Text → Text → Text → Option (Dict Text Text) → Option HttpRequest
with_headers trace_id method path version none = none
with_headers trace_id method path version (some headers) = some (record {
  method = method;
  path = path;
  version = version;
  headers = headers;
  trace_id = trace_id;
})

module _ ⦃u : Unicode⦄ where
  -- The headers are read only if the start line has three parts.
  unfoldable pub after_start : ℕ → Text → List Text → Io (Option HttpRequest)
  unfolding read_headers
  after_start fuel trace_id (method ∷ path ∷ version ∷ []) = do
    headers ← read_headers fuel fuel []
    pure (with_headers trace_id method path version headers)
  after_start fuel trace_id parts = pure none

  unfoldable pub start : ℕ → Text → Option Text → Io (Option HttpRequest)
  unfolding split after_start
  start fuel trace_id none = pure none
  start fuel trace_id (some []) = pure none
  start fuel trace_id (some (c ∷ s)) = after_start fuel trace_id (split (c ∷ s))

  -- The body of the `try`.
  unfoldable pub parse_body : ℕ → Text → Io (Option HttpRequest)
  unfolding read_line start
  parse_body fuel trace_id = do line ← read_line fuel []; start fuel trace_id line

  -- Each byte that is left is one round at most.
  unfoldable pub parse_request : Text → Io (Option HttpRequest)
  unfolding parse_body
  parse_request trace_id w =
      catch (parse_body (suc (length (content w.client_in))) trace_id) no_request w
