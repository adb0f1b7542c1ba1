-- ===== src/Handler/Messages.antt =====
-- A request that is written as a message is parsed back.
use mini_nginx.Common.{
  ℕ, zero, suc, ◌<◌, ◌≤◌, ◌≡◌, ◌≢◌, refl, ap, subst, ◌∙◌, Option, some, List, [], ◌∷◌, ◌++◌, arith,
  length, length-append, Dict, insert, nat_eq, list_eq, false,
}
use mini_nginx.Python.Text.{Text, Unicode, strip, lower, split, is_space}
use mini_nginx.Python.Text.Laws.{HasNoSpace, Lacks, append-ne, strip-HasNoSpace}
use mini_nginx.Python.Text.Splitting.{split-three, split_once-append}
use mini_nginx.Python.Utf8.{Bytes}
use mini_nginx.Python.Utf8.Laws.{IsAscii, IsAscii-append, decode-ascii}
use mini_nginx.Http.{HttpRequest, crlf}
use mini_nginx.Handler.Lines.{store_header}
use mini_nginx.Net.{World}
use mini_nginx.Net.Reading.{content, IsIntact, IsUnhurried}
use mini_nginx.Handler.Parse.{with_headers, parse_request}
use mini_nginx.Handler.Segments.{scan, line_of, rest_of, Reads}
use mini_nginx.Handler.Requests.{next_headers, headers_from, found_headers, after_headers}
use mini_nginx.Handler.Results.{parse_request-Reads, parse_parts, parse_start, parse_bytes}
use mini_nginx.Handler.Scanning.{scan-line, Lacks-append}

-- A word of the start line: ASCII, not empty, no whitespace.
pub record IsToken (s : Text) : Type 0 where
  pub ascii : IsAscii s
  pub spaceless : HasNoSpace s
  pub solid : s ≢ []

-- A header as it is written: a token without a colon, and an ASCII value of one line with no
-- whitespace round it.
pub record IsHeader (header : Text × Text) : Type 0 where
  pub name : IsToken header.0
  pub colonless : Lacks b':' header.0
  pub value_ascii : IsAscii header.1
  pub value_line : Lacks 13 header.1
  pub value_stripped : strip (b' ' ∷ header.1) ≡ header.1

abbrev pub AreHeaders : List (Text × Text) → Type 0
AreHeaders [] = Unit
AreHeaders (header ∷ headers) = IsHeader header × AreHeaders headers

-- The message: the start line, the headers, the empty line, and the body.
abbrev pub header_text : Text × Text → Bytes
header_text (name, value) = name ++ b':' ∷ b' ' ∷ value

unfoldable pub written_headers : List (Text × Text) → Bytes → Bytes
written_headers [] body = crlf ++ body
written_headers (header ∷ headers) body =
    header_text header ++ 13 ∷ 10 ∷ written_headers headers body

abbrev pub start_text : Text → Text → Text → Bytes
start_text method path version = method ++ b' ' ∷ (path ++ b' ' ∷ version)

abbrev pub message : Text → Text → Text → List (Text × Text) → Bytes → Bytes
message method path version headers body =
    start_text method path version ++ 13 ∷ 10 ∷ written_headers headers body

cr_space : is_space 13 ≢ false
cr_space e = cc

HasNoSpace-Lacks : (s : Text) → HasNoSpace s → Lacks 13 s
HasNoSpace-Lacks [] h = tt
HasNoSpace-Lacks (c ∷ s) (h, k) =
    ((λ e. cr_space (subst (λ x. is_space x ≡ false) e h)), HasNoSpace-Lacks s k)

-- A line that is ASCII text is read as that text.
line_of-line :
    (s rest : Bytes)
    → IsAscii s
    → Lacks 13 s
    → ◌≡◌ {A = Option Text × Bytes}
        (line_of (scan [] (s ++ 13 ∷ 10 ∷ rest)), rest_of (scan [] (s ++ 13 ∷ 10 ∷ rest)))
        (some s, rest)
line_of-line s rest a l =
    ap (λ o. (line_of o, rest_of o)) (scan-line s rest l)
    ∙ ap (λ t. (some t, rest)) (decode-ascii s a)

header_text-IsAscii : (h : Text × Text) → IsHeader h → IsAscii (header_text h)
header_text-IsAscii (name, value) h =
    IsAscii-append name (b':' ∷ b' ' ∷ value) h.name.ascii
      (omega arith, (omega arith, h.value_ascii))

header_text-Lacks : (h : Text × Text) → IsHeader h → Lacks 13 (header_text h)
header_text-Lacks (name, value) h =
    Lacks-append 13 name (b':' ∷ b' ' ∷ value) (HasNoSpace-Lacks name h.name.spaceless)
      (omega arith, (omega arith, h.value_line))

start_text-IsAscii : (a b c : Text) → IsToken a → IsToken b → IsToken c → IsAscii (start_text a b c)
start_text-IsAscii a b c ha hb hc =
    IsAscii-append a (b' ' ∷ (b ++ b' ' ∷ c)) ha.ascii
      (omega arith, IsAscii-append b (b' ' ∷ c) hb.ascii (omega arith, hc.ascii))

start_text-Lacks : (a b c : Text) → IsToken a → IsToken b → IsToken c → Lacks 13 (start_text a b c)
start_text-Lacks a b c ha hb hc =
    Lacks-append 13 a (b' ' ∷ (b ++ b' ' ∷ c)) (HasNoSpace-Lacks a ha.spaceless) (
      omega arith,
      Lacks-append 13 b (b' ' ∷ c) (HasNoSpace-Lacks b hb.spaceless)
          (omega arith, HasNoSpace-Lacks c hc.spaceless),
    )

module _ ⦃u : Unicode⦄ where
  -- The headers are stored under their names in lower case, in their order; a later one with the
  -- same name takes the place of the earlier one's value.
  pub stored : List (Text × Text) → Dict Text Text → Dict Text Text
  stored [] d = d
  stored ((name, value) ∷ headers) d = stored headers (insert (lower name) value d)

  store_header-header_text :
      (h : Text × Text) (d : Dict Text Text)
      → IsHeader h
      → store_header (header_text h) d ≡ insert (lower h.0) h.1 d
  unfolding store_header
  store_header-header_text (name, value) d h = rw (
    split_once-append b':' name (b' ' ∷ value) h.colonless,
    strip-HasNoSpace name h.name.spaceless,
    h.value_stripped,
    store_header,
  )

  next_headers-solid :
      (s : Text) (rest : Bytes) (d : Dict Text Text)
      (later : Dict Text Text → Bytes → Option (Dict Text Text × Bytes))
      → s ≢ []
      → next_headers (some s) rest d later ≡ later (store_header s d) rest
  next_headers-solid [] rest d later h = absurd (h refl)
  next_headers-solid (c ∷ s) rest d later h = refl

  headers_from-written :
      (fuel : ℕ) (headers : List (Text × Text)) (body : Bytes) (d : Dict Text Text)
      → AreHeaders headers
      → length headers < fuel
      → headers_from fuel d (written_headers headers body) ≡ some (stored headers d, body)
  unfolding headers_from written_headers stored
  headers_from-written zero headers body d h le = absurd (omega arith)
  headers_from-written (suc fuel) [] body d h le =
      ap (λ p. next_headers p.0 p.1 d (headers_from fuel)) (line_of-line [] body tt tt)
  headers_from-written (suc fuel) (header ∷ headers) body d (h, hs) le =
      ap (λ p. next_headers p.0 p.1 d (headers_from fuel))
        (line_of-line (header_text header) (written_headers headers body)
          (header_text-IsAscii header h) (header_text-Lacks header h))
      ∙ next_headers-solid (header_text header) (written_headers headers body) d (headers_from fuel)
          (append-ne header.0 (b':' ∷ b' ' ∷ header.1) (λ e. cc))
      ∙ ap (λ x. headers_from fuel x (written_headers headers body))
          (store_header-header_text header d h)
      ∙ headers_from-written fuel headers body (insert (lower header.0) header.1 d) hs (omega arith)

  parse_start-solid :
      (trace_id s : Text) (rest : Bytes)
      → s ≢ []
      → parse_start trace_id (some s) rest ≡ parse_parts trace_id (split s) rest
  parse_start-solid trace_id [] rest h = absurd (h refl)
  parse_start-solid trace_id (c ∷ s) rest h = refl

  length-written_headers :
      (headers : List (Text × Text)) (body : Bytes)
      → length headers ≤ length (written_headers headers body)
  unfolding written_headers
  length-written_headers [] body = omega arith
  length-written_headers (header ∷ headers) body = omega (
    arith,
    length-append (header_text header) (13 ∷ 10 ∷ written_headers headers body),
    length-written_headers headers body,
  )

  -- The request that a message stands for.
  abbrev pub request_of : Text → Text → Text → Text → List (Text × Text) → HttpRequest
  request_of trace_id method path version headers = record {
    method = method;
    path = path;
    version = version;
    headers = stored headers [];
    trace_id = trace_id;
  }

  -- The bytes of a message are parsed into its parts.
  parse_bytes-message :
      (trace_id method path version : Text) (headers : List (Text × Text)) (body : Bytes)
      → IsToken method
      → IsToken path
      → IsToken version
      → AreHeaders headers
      → parse_bytes trace_id (message method path version headers body)
        ≡ (some (request_of trace_id method path version headers), body)
  parse_bytes-message trace_id method path version headers body hm hp hv hh =
      let rest : Bytes = written_headers headers body in
      ap (λ p. parse_start trace_id p.0 p.1)
        (line_of-line (start_text method path version) rest
          (start_text-IsAscii method path version hm hp hv)
          (start_text-Lacks method path version hm hp hv))
      ∙ parse_start-solid trace_id (start_text method path version) rest
          (append-ne method (b' ' ∷ (path ++ b' ' ∷ version)) (λ e. cc))
      ∙ ap (λ parts. parse_parts trace_id parts rest)
          (split-three method path version hm.spaceless hp.spaceless hv.spaceless hm.solid hp.solid
            hv.solid)
      ∙ ap (λ o. (with_headers trace_id method path version (found_headers o), after_headers o))
          (headers_from-written (suc (length rest)) headers body [] hh
            (omega (arith, length-written_headers headers body)))

  -- From a client's stream that is not broken, with no deadline set, a message of a method, a path, a
  -- version, headers and a body is parsed into these, however its bytes arrive: the headers under
  -- their names in lower case, with the last value of a name that is repeated; the body is what is
  -- left of the stream. The words of the start line and the names are ASCII without whitespace, the
  -- values are ASCII of one line with no whitespace round them.
  pub parse_request-message :
      (trace_id method path version : Text) (headers : List (Text × Text)) (body : Bytes)
      (w : World)
      → IsToken method
      → IsToken path
      → IsToken version
      → AreHeaders headers
      → IsUnhurried w
      → IsIntact w.client_in
      → content w.client_in ≡ message method path version headers body
      → Reads
          (parse_request trace_id)
          w
          (some (request_of trace_id method path version headers))
          body
  parse_request-message trace_id method path version headers body w hm hp hv hh un k sent =
      subst (λ p. Reads (parse_request trace_id) w p.0 p.1)
        (ap (parse_bytes trace_id) sent
          ∙ parse_bytes-message trace_id method path version headers body hm hp hv hh)
        (parse_request-Reads trace_id w un k)
