-- ===== src/Handler/Aloof.antt =====
-- Parsing changes nothing but the clock and the client's stream.
use mini_nginx.Common.{ℕ, zero, suc, ◌++◌, refl, Option, none, some, List, [], ◌∷◌, Dict, length}
use mini_nginx.Python.Text.{Text, Unicode, split}
use mini_nginx.Python.Utf8.{Bytes}
use mini_nginx.Net.{
  World, Io, Exception, timed_out, refused, os_error, cancelled, failure, pure, client_read,
}
use mini_nginx.Net.Frames.{Fixes, Fixes->>=, Fixes-catch}
use mini_nginx.Net.Aloof.{IsAloof, Fixes-client_read}
use mini_nginx.Net.Reading.{content}
use mini_nginx.Handler.Lines.{
  drop_crlf, line_or, after_byte, read_line, store_header, after_line, read_headers,
}
use mini_nginx.Handler.Parse.{
  no_request, with_headers, after_start, start, parse_body, parse_request,
}

module _ {X : Type 0} (f : World → X) (h : IsAloof f) where
  Fixes-line_or :
      (whole : Option Bytes) (next : Io (Option Text)) → Fixes f next → Fixes f (line_or whole next)
  Fixes-line_or none next k = k
  Fixes-line_or (some whole) next k = λ w. refl

  Fixes-after_byte :
      (line chunk : Bytes) (next : Bytes → Io (Option Text))
      → ((l : Bytes) → Fixes f (next l))
      → Fixes f (after_byte line chunk next)
  Fixes-after_byte line [] next k = λ w. refl
  Fixes-after_byte line (b ∷ bytes) next k =
      Fixes-line_or (drop_crlf (line ++ b ∷ bytes)) (next (line ++ b ∷ bytes))
        (k (line ++ b ∷ bytes))

  Fixes-read_line : (fuel : ℕ) (line : Bytes) → Fixes f (read_line fuel line)
  unfolding read_line
  Fixes-read_line zero line = λ w. refl
  Fixes-read_line (suc fuel) line =
      Fixes->>= f (client_read 1) (λ chunk. after_byte line chunk (read_line fuel))
        (Fixes-client_read f h 1)
        (λ chunk. Fixes-after_byte line chunk (read_line fuel) (Fixes-read_line fuel))

  Fixes-no_request : (e : Exception) → Fixes f (no_request e)
  Fixes-no_request timed_out w = refl
  Fixes-no_request (refused msg) w = refl
  Fixes-no_request (os_error msg) w = refl
  Fixes-no_request (cancelled s) w = refl
  Fixes-no_request (failure msg) w = refl

  module _ ⦃u : Unicode⦄ where
    Fixes-after_line :
        (line : Option Text) (headers : Dict Text Text)
        (next : Dict Text Text → Io (Option (Dict Text Text)))
        → ((d : Dict Text Text) → Fixes f (next d))
        → Fixes f (after_line line headers next)
    unfolding after_line
    Fixes-after_line none headers next k = λ w. refl
    Fixes-after_line (some []) headers next k = λ w. refl
    Fixes-after_line (some (c ∷ s)) headers next k = k (store_header (c ∷ s) headers)

    Fixes-read_headers :
        (fuel size : ℕ) (headers : Dict Text Text) → Fixes f (read_headers fuel size headers)
    unfolding read_headers
    Fixes-read_headers zero size headers = λ w. refl
    Fixes-read_headers (suc fuel) size headers =
        Fixes->>= f (read_line size []) (λ line. after_line line headers (read_headers fuel size))
          (Fixes-read_line size [])
          (λ line.
            Fixes-after_line line headers (read_headers fuel size) (Fixes-read_headers fuel size))

    Fixes-after_start :
        (fuel : ℕ) (trace_id : Text) (parts : List Text) → Fixes f (after_start fuel trace_id parts)
    unfolding after_start
    Fixes-after_start fuel trace_id (a ∷ b ∷ c ∷ []) =
        Fixes->>= f (read_headers fuel fuel [])
          (λ headers. pure (with_headers trace_id a b c headers)) (Fixes-read_headers fuel fuel [])
          (λ headers w. refl)
    Fixes-after_start fuel trace_id parts = λ w. refl

    Fixes-start :
        (fuel : ℕ) (trace_id : Text) (line : Option Text) → Fixes f (start fuel trace_id line)
    unfolding start
    Fixes-start fuel trace_id none = λ w. refl
    Fixes-start fuel trace_id (some []) = λ w. refl
    Fixes-start fuel trace_id (some (c ∷ s)) = Fixes-after_start fuel trace_id (split (c ∷ s))

    pub Fixes-parse_request : (trace_id : Text) → Fixes f (parse_request trace_id)
    unfolding parse_request parse_body
    Fixes-parse_request trace_id w =
        let fuel : ℕ = suc (length (content w.client_in)) in
        Fixes-catch f (parse_body fuel trace_id) no_request
          (Fixes->>= f (read_line fuel []) (start fuel trace_id) (Fixes-read_line fuel [])
            (Fixes-start fuel trace_id))
          Fixes-no_request w
