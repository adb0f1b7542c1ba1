-- ===== src/Handler/Prompt.antt =====
-- On a network that is quick enough, parsing leaves one, however it ends.
use mini_nginx.Common.{
  ℕ, zero, suc, subst, sym, Option, none, some, List, [], ◌∷◌, ◌++◌, Dict, length,
}
use mini_nginx.Python.Text.{Text, Unicode, split}
use mini_nginx.Python.Utf8.{Bytes}
use mini_nginx.Net.{
  World, Result, ok, raised, Io, Exception, resume, handle, pure, ◌>>=◌, client_read, timed_out,
  refused, os_error, cancelled, failure,
}
use mini_nginx.Net.Prompt.{Delays, IsPrompt}
use mini_nginx.Net.Prompt.Streams.{client_read-Succeeds}
use mini_nginx.Net.Reading.{content}
use mini_nginx.Handler.Lines.{
  drop_crlf, line_or, after_byte, read_line, after_line, read_headers, store_header,
}
use mini_nginx.Handler.Parse.{
  no_request, after_start, start, parse_body, parse_request, with_headers,
}

module _ (t : Delays) (left : ℕ) where
  -- The action leaves such a network, also when it raises.
  abbrev pub KeepsPrompt : {A : Type 0} → Io A → Type 0
  KeepsPrompt m = (w : World) → IsPrompt t left w → IsPrompt t left (m w).1

  resume-IsPrompt :
      {A B : Type 0} (r : Result A) (v : World) (f : A → Io B)
      → IsPrompt t left v
      → ((a : A) → KeepsPrompt (f a))
      → IsPrompt t left (resume (r, v) f).1
  resume-IsPrompt (ok a) v f p h = h a v p
  resume-IsPrompt (raised e) v f p h = p

  KeepsPrompt->>= :
      {A B : Type 0} (m : Io A) (f : A → Io B)
      → KeepsPrompt m
      → ((a : A) → KeepsPrompt (f a))
      → KeepsPrompt (m >>= f)
  KeepsPrompt->>= m f h hf w p = resume-IsPrompt (m w).0 (m w).1 f (h w p) hf

  client_read-KeepsPrompt : (n : ℕ) → KeepsPrompt (client_read n)
  client_read-KeepsPrompt n w p =
      let (a, v, e, q) = client_read-Succeeds t left n w p in
      subst (λ o. IsPrompt t left o.1) (sym e) q

  line_or-KeepsPrompt :
      (whole : Option Bytes) (next : Io (Option Text))
      → KeepsPrompt next
      → KeepsPrompt (line_or whole next)
  line_or-KeepsPrompt none next h = h
  line_or-KeepsPrompt (some whole) next h = λ w p. p

  after_byte-KeepsPrompt :
      (line chunk : Bytes) (next : Bytes → Io (Option Text))
      → ((line : Bytes) → KeepsPrompt (next line))
      → KeepsPrompt (after_byte line chunk next)
  after_byte-KeepsPrompt line [] next h = λ w p. p
  after_byte-KeepsPrompt line (b ∷ bytes) next h =
      line_or-KeepsPrompt (drop_crlf (line ++ b ∷ bytes)) (next (line ++ b ∷ bytes))
        (h (line ++ b ∷ bytes))

  read_line-KeepsPrompt : (fuel : ℕ) (line : Bytes) → KeepsPrompt (read_line fuel line)
  unfolding read_line
  read_line-KeepsPrompt zero line = λ w p. p
  read_line-KeepsPrompt (suc fuel) line =
      KeepsPrompt->>= (client_read 1) (λ chunk. after_byte line chunk (read_line fuel))
        (client_read-KeepsPrompt 1)
        (λ chunk. after_byte-KeepsPrompt line chunk (read_line fuel) (read_line-KeepsPrompt fuel))

  module _ ⦃u : Unicode⦄ where
    after_line-KeepsPrompt :
        (line : Option Text) (headers : Dict Text Text)
        (next : Dict Text Text → Io (Option (Dict Text Text)))
        → ((headers : Dict Text Text) → KeepsPrompt (next headers))
        → KeepsPrompt (after_line line headers next)
    unfolding after_line
    after_line-KeepsPrompt none headers next h = λ w p. p
    after_line-KeepsPrompt (some []) headers next h = λ w p. p
    after_line-KeepsPrompt (some (c ∷ s)) headers next h = h (store_header (c ∷ s) headers)

    read_headers-KeepsPrompt :
        (fuel size : ℕ) (headers : Dict Text Text) → KeepsPrompt (read_headers fuel size headers)
    unfolding read_headers
    read_headers-KeepsPrompt zero size headers = λ w p. p
    read_headers-KeepsPrompt (suc fuel) size headers =
        KeepsPrompt->>= (read_line size [])
          (λ line. after_line line headers (read_headers fuel size)) (read_line-KeepsPrompt size [])
          (λ line.
            after_line-KeepsPrompt line headers (read_headers fuel size)
              (read_headers-KeepsPrompt fuel size))

    after_start-KeepsPrompt :
        (fuel : ℕ) (trace_id : Text) (parts : List Text)
        → KeepsPrompt (after_start fuel trace_id parts)
    unfolding after_start
    after_start-KeepsPrompt fuel trace_id [] = λ w p. p
    after_start-KeepsPrompt fuel trace_id (a ∷ []) = λ w p. p
    after_start-KeepsPrompt fuel trace_id (a ∷ b ∷ []) = λ w p. p
    after_start-KeepsPrompt fuel trace_id (method ∷ path ∷ version ∷ []) =
        KeepsPrompt->>= (read_headers fuel fuel [])
          (λ headers. pure (with_headers trace_id method path version headers))
          (read_headers-KeepsPrompt fuel fuel []) (λ headers w p. p)
    after_start-KeepsPrompt fuel trace_id (a ∷ b ∷ c ∷ d ∷ parts) = λ w p. p

    start-KeepsPrompt :
        (fuel : ℕ) (trace_id : Text) (line : Option Text) → KeepsPrompt (start fuel trace_id line)
    unfolding start
    start-KeepsPrompt fuel trace_id none = λ w p. p
    start-KeepsPrompt fuel trace_id (some []) = λ w p. p
    start-KeepsPrompt fuel trace_id (some (c ∷ s)) =
        after_start-KeepsPrompt fuel trace_id (split (c ∷ s))

    no_request-KeepsPrompt : (e : Exception) → KeepsPrompt (no_request e)
    no_request-KeepsPrompt (cancelled s) = λ w p. p
    no_request-KeepsPrompt timed_out = λ w p. p
    no_request-KeepsPrompt (refused msg) = λ w p. p
    no_request-KeepsPrompt (os_error msg) = λ w p. p
    no_request-KeepsPrompt (failure msg) = λ w p. p

    handle-IsPrompt :
        {A : Type 0} (r : Result A) (v : World) (f : Exception → Io A)
        → IsPrompt t left v
        → ((e : Exception) → KeepsPrompt (f e))
        → IsPrompt t left (handle (r, v) f).1
    handle-IsPrompt (ok a) v f p h = p
    handle-IsPrompt (raised e) v f p h = h e v p

    pub parse_request-KeepsPrompt : (trace_id : Text) → KeepsPrompt (parse_request trace_id)
    unfolding parse_request parse_body
    parse_request-KeepsPrompt trace_id w p =
        let fuel : ℕ = suc (length (content w.client_in)) in
        let body = parse_body fuel trace_id in
        handle-IsPrompt (body w).0 (body w).1 no_request
          (KeepsPrompt->>= (read_line fuel []) (start fuel trace_id) (read_line-KeepsPrompt fuel [])
            (start-KeepsPrompt fuel trace_id) w p)
          no_request-KeepsPrompt
