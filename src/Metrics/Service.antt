-- ===== src/Metrics/Service.antt =====
-- The metrics server (proxy/metrics.py, `run_metrics_server`): its handler of one connection.
--
-- The connection's streams are the client's of the world. The listening socket is asyncio.
pub mod Laws
use mini_nginx.Common.{
  ℕ, zero, suc, ◌||◌, Bool, true, false, Option, none, some, List, [], ◌∷◌, ◌++◌, length,
  if◌then◌else◌, ◌==◌, nat_eq, list_eq,
}
use mini_nginx.Python.Text.{Text, codes, split_max, split_once}
use mini_nginx.Python.Number.{show_nat}
use mini_nginx.Python.Utf8.{Bytes, encode, decode}
use mini_nginx.Metrics.{Metrics}
use mini_nginx.Metrics.Render.{render}
use mini_nginx.Net.{
  World, Io, pure, raise, failure, finally, modify, ◌>>=◌, ◌>>◌, client_write, client_drain,
  close_client,
}
use mini_nginx.Net.Reading.{content}
use mini_nginx.Net.Readline.{client_readline}

abbrev pub crlf : Text
crlf = 13 ∷ 10 ∷ []

-- `line in (b"\r\n", b"\n", b"")`
abbrev pub is_blank : Bytes → Bool
is_blank line = line == 13 ∷ 10 ∷ [] || line == 10 ∷ [] || line == []

-- The headers up to the empty line; when the fuel runs out an exception is raised that the code does
-- not have.
unfoldable pub skip_headers : ℕ → Io (Unit {0})
unfolding client_readline
skip_headers zero = raise (failure (codes "out of fuel"))
skip_headers (suc fuel) = do
  line ← client_readline
  if is_blank line then pure tt else skip_headers fuel

-- `parts[1].split("?")[0]`
abbrev pub before_query : Option (Text × Text) → Text → Text
before_query none path = path
before_query (some (path, query)) whole = path

abbrev pub second_part : List Text → Text
second_part [] = []
second_part (method ∷ []) = []
second_part (method ∷ path ∷ rest) = before_query (split_once b'?' path) path

unfoldable pub request_path : Bytes → Text
unfolding decode split_max split_once
request_path request_line = second_part (split_max 2 (decode request_line))

-- The head of the response with the metrics, whose body has `n` bytes.
unfoldable pub ok_head : ℕ → Text
unfolding show_nat
ok_head n =
    codes "HTTP/1.1 200 OK"
    ++ (crlf
        ++ (codes "Content-Type: text/plain; charset=utf-8"
            ++ (crlf
                ++ (codes "Content-Length: "
                    ++ (show_nat n ++ (crlf ++ (codes "Connection: close" ++ (crlf ++ crlf))))))))

unfoldable pub not_found : Text
not_found =
    codes "HTTP/1.1 404 Not Found" ++ (crlf ++ (codes "Connection: close" ++ (crlf ++ crlf)))

-- `get_metrics_prometheus`, under the lock, then the response for the path.
unfoldable pub response : Text → Metrics → Text
unfolding render encode ok_head not_found
response path m =
    if path == codes "/metrics" then ok_head (length (encode (render m))) ++ render m else not_found

-- With no request line the connection is only closed.
unfoldable pub answer : ℕ → Bytes → Io (Unit {0})
unfolding skip_headers request_path response encode client_drain
answer fuel [] = modify (λ w. record w { client_out = record w.client_out { closed = true } })
answer fuel (b ∷ line) =
    skip_headers fuel
    >> (λ w. client_write (encode (response (request_path (b ∷ line)) w.metrics)) w)
    >> client_drain

-- Each line takes a byte, so the bytes that are left are enough fuel.
unfoldable pub metrics_handler : Io (Unit {0})
unfolding client_readline answer close_client
metrics_handler w =
    finally (client_readline >>= answer (suc (length (content w.client_in)))) close_client w
