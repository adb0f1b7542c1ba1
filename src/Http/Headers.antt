-- ===== src/Http/Headers.antt =====
-- The headers that are sent to the upstream server.
use mini_nginx.Common.{
  ℕ, ◌≡◌, ◌≢◌, refl, sym, ap, subst, ◌∙◌, Bool, true, false, not, Option, none, some, [], ◌∷◌, Dict,
  lookup, insert, lookup-insert, insert-HasUniqueKeys, HasUniqueKeys, nat_eq, list_eq, ==_ne,
  ==_iff, ◌==◌, if◌then◌else◌,
}
use mini_nginx.Python.Text.{Text, Unicode, codes, lower}
use mini_nginx.Http.{HttpRequest, is_empty, close_connection, headers_to_send}

abbrev connection : Text
connection = codes "connection"

abbrev close : Text
close = codes "close"

abbrev trace : Text
trace = codes "x-trace-id"

module _ ⦃u : Unicode⦄ where
  -- What the headers of a request become on their way.
  pub record Forwarded (req : HttpRequest) (sent : Dict Text Text) : Type 0 where
    pub closes : (value : Text) × (lookup connection sent ≡ some value) × (lower value ≡ close)
    pub traced : req.trace_id ≢ [] → lookup trace sent ≡ some req.trace_id
    pub untraced : req.trace_id ≡ [] → lookup trace sent ≡ lookup trace req.headers
    pub others :
        (name : Text)
        → name ≢ connection
        → name ≢ trace
        → lookup name sent ≡ lookup name req.headers
    pub unique : HasUniqueKeys req.headers → HasUniqueKeys sent

  nonempty : (x : ℕ) (s : Text) → x ∷ s ≢ []
  nonempty x s e = cc

  -- What making the connection close does to the headers.
  record Closed (headers closed : Dict Text Text) : Type 0 where
    closes : (value : Text) × (lookup connection closed ≡ some value) × (lower value ≡ close)
    others : (name : Text) → name ≢ connection → lookup name closed ≡ lookup name headers
    unique : HasUniqueKeys headers → HasUniqueKeys closed

  lower-close : lower close ≡ close
  unfolding lower
  lower-close = refl

  insert-Closed : (headers : Dict Text Text) → Closed headers (insert connection close headers)
  insert-Closed headers = record {
    closes = (close, lookup-insert connection connection close headers, lower-close);
    others = λ name ne.
        lookup-insert connection name close headers ∙ rw (==_ne connection name (λ e. ne (sym e)));
    unique = insert-HasUniqueKeys connection close headers;
  }

  kept_or_Closed :
      (headers : Dict Text Text) (value : Text) (same : Bool)
      → lookup connection headers ≡ some value
      → (lower value == close) ≡ same
      → Closed headers (if not same then insert connection close headers else headers)
  kept_or_Closed headers value true found e = record {
    closes = (value, found, (==_iff (lower value) close).0 e);
    others = λ name ne. refl;
    unique = λ h. h;
  }
  kept_or_Closed headers value false found e = insert-Closed headers

  -- The headers, given what their `connection` is.
  abbrev decided : Dict Text Text → Option Text → Dict Text Text
  decided headers none = insert connection close headers
  decided headers (some value) =
      if not (lower value == close) then insert connection close headers else headers

  decided-Closed :
      (headers : Dict Text Text) (o : Option Text)
      → lookup connection headers ≡ o
      → Closed headers (decided headers o)
  decided-Closed headers none found = insert-Closed headers
  decided-Closed headers (some value) found =
      kept_or_Closed headers value (lower value == close) found refl

  abbrev written : Dict Text Text → Option Text → Dict Text Text
  written headers o =
      if not (elim o [ none ↦ false | some v ↦ true ])
      then insert connection close headers
      else if not (lower (elim o [ none ↦ [] | some v ↦ v ]) == close)
      then insert connection close headers
      else headers

  written-decided :
      (headers : Dict Text Text) (o : Option Text) → written headers o ≡ decided headers o
  written-decided headers none = refl
  written-decided headers (some value) = refl

  close_connection-Closed : (headers : Dict Text Text) → Closed headers (close_connection headers)
  unfolding close_connection
  close_connection-Closed headers =
      subst (Closed headers) (sym (written-decided headers (lookup connection headers)))
        (decided-Closed headers (lookup connection headers) refl)

  trace-ne-connection : trace ≢ connection
  trace-ne-connection e = let h : false ≡ true = (==_iff trace connection).1 e in cc h

  trace-Forwarded :
      (req : HttpRequest) (headers : Dict Text Text) (id : Text)
      → req.trace_id ≡ id
      → Closed req.headers headers
      → Forwarded req (if is_empty id then headers else insert trace id headers)
  trace-Forwarded req headers [] same c = record {
    closes = c.closes;
    traced = λ ne. absurd (ne same);
    untraced = λ e. c.others trace trace-ne-connection;
    others = λ name ne _. c.others name ne;
    unique = c.unique;
  }
  trace-Forwarded req headers (x ∷ s) same c =
      let (value, found, low) = c.closes in
      record {
        closes = (value, lookup-insert trace connection (x ∷ s) headers ∙ found, low);
        traced = λ ne. lookup-insert trace trace (x ∷ s) headers ∙ ap some (sym same);
        untraced = λ e. absurd (nonempty x s (sym same ∙ e));
        others = λ name ne ne'.
            lookup-insert trace name (x ∷ s) headers
            ∙ ap (λ b. if b then some (x ∷ s) else lookup name headers)
                (==_ne trace name (λ e. ne' (sym e)))
            ∙ c.others name ne;
        unique = λ h. insert-HasUniqueKeys trace (x ∷ s) headers (c.unique h);
      }

  -- The upstream is always told to close the connection; it is given the trace id, if there is one, and
  -- the other headers as they were; no name is sent twice.
  pub headers_to_send-Forwarded : (req : HttpRequest) → Forwarded req (headers_to_send req)
  unfolding headers_to_send
  headers_to_send-Forwarded req =
      trace-Forwarded req (close_connection req.headers) req.trace_id refl
        (close_connection-Closed req.headers)
