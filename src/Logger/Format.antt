-- ===== src/Logger/Format.antt =====
-- The formatter that appends the trace id (proxy/logger.py, `TraceIdFormatter`).
--
-- aiologger's `Formatter.format` is a parameter: it sets the message and the time of the record, fills
-- the format with its attributes, and appends the traceback of a record that has one. `percent` is
-- Python's `fmt % attributes` for the formats of a logger.
use mini_nginx.Common.{
  ℕ, ◌≡◌, ap, ◌∙◌, true, false, Option, none, some, [], ◌∷◌, ◌++◌, append-nil, append_assoc,
  if◌then◌else◌, ◌==◌, nat_eq, list_eq,
}
use mini_nginx.Python.Text.{Text, codes}
use mini_nginx.Logger.{default_fmt}

-- The state of the scan of a format: plain text, behind the percent sign, in a name, behind a name.
pub data Mode : Type 0 where
  plain : Mode
  opening : Mode
  naming : Text → Mode
  closing : Text → Mode

abbrev before : Text → Option Text → Option Text
before s none = none
before s (some rest) = some (s ++ rest)

unfoldable pub fill : (Text → Text) → Mode → Text → Option Text
fill attributes plain [] = some []
fill attributes plain (c ∷ s) = elim (c == b'%') [
  | true ↦ fill attributes opening s
  | false ↦ before (c ∷ []) (fill attributes plain s)
]
fill attributes opening [] = none
fill attributes opening (c ∷ s) = elim (c == b'(') [
  | true ↦ fill attributes (naming []) s
  | false ↦ none
]
fill attributes (naming name) [] = none
fill attributes (naming name) (c ∷ s) = elim (c == b')') [
  | true ↦ fill attributes (closing name) s
  | false ↦ fill attributes (naming (name ++ c ∷ [])) s
]
fill attributes (closing name) [] = none
fill attributes (closing name) (c ∷ s) = elim (c == b's') [
  | true ↦ before (attributes name) (fill attributes plain s)
  | false ↦ none
]

-- `fmt % attributes`, for a format whose conversions are all `%(name)s`; `none` for another one.
unfoldable pub percent : Text → (Text → Text) → Option Text
unfolding fill
percent fmt attributes = fill attributes plain fmt

-- `(" trace_id=" + trace_id) if trace_id else ""`
abbrev pub trace_suffix : Text → Text
trace_suffix [] = []
trace_suffix (c ∷ s) = codes " trace_id=" ++ c ∷ s

-- A record of the logger: its attributes as texts, what `get_message` and `format_time` make of it, and
-- what is appended behind the filled format: nothing, or a traceback for `exc_info`.
pub record LogRecord : Type 0 where
  pub attributes : Text → Text
  pub message : Text
  pub time : Text
  pub traceback : Text → Text

-- `setattr(record, name, value)`
abbrev pub set_attribute : Text → Text → (Text → Text) → Text → Text
set_attribute name value attributes other = if other == name then value else attributes other

-- `TraceIdFormatter.format`, with the trace id of the context.
unfoldable pub format : (LogRecord → Text) → Text → LogRecord → Text
format super_format trace_id r = super_format (record r {
  attributes = set_attribute (codes "trace_id_fmt") (trace_suffix trace_id) r.attributes;
})

-- The attributes with which the super class fills the format.
abbrev pub computed : LogRecord → Text → Text
computed r =
    set_attribute (codes "asctime") r.time (set_attribute (codes "message") r.message r.attributes)

-- What the super class documents.
abbrev pub IsFormatter : (LogRecord → Text) → Type 0
IsFormatter super_format =
    (r : LogRecord) (s : Text)
    → percent default_fmt (computed r) ≡ some s
    → super_format r ≡ s ++ r.traceback s

-- The line without the trace id.
abbrev pub line : LogRecord → Text
line r =
    r.time
    ++ (codes " - "
        ++ (r.attributes (codes "name")
            ++ (codes " - " ++ (r.attributes (codes "levelname") ++ (codes " - " ++ r.message)))))

pub percent-default_fmt :
    (r : LogRecord)
    → percent default_fmt (computed r) ≡ some (line r ++ r.attributes (codes "trace_id_fmt"))
unfolding percent fill
percent-default_fmt r = ap some (simp (append_assoc, append-nil))

format-suffix :
    (super_format : LogRecord → Text)
    → IsFormatter super_format
    → (trace_id : Text) (r : LogRecord)
    → format super_format trace_id r
      ≡ (line r ++ trace_suffix trace_id) ++ r.traceback (line r ++ trace_suffix trace_id)
unfolding format
format-suffix super_format h trace_id r =
    let named : LogRecord = record r {
      attributes = set_attribute (codes "trace_id_fmt") (trace_suffix trace_id) r.attributes;
    } in
    h named (line r ++ trace_suffix trace_id) (percent-default_fmt named)

-- A formatted record is the line of its time, logger, level and message, and behind it its traceback, if
-- it has one. With a trace id in the context the line ends in " trace_id=" and the id, before the
-- traceback; without one nothing is added to the line. An attribute `trace_id_fmt` of the record
-- makes no difference.
pub format_lem :
    (super_format : LogRecord → Text)
    → IsFormatter super_format
    → (r : LogRecord)
    → (format super_format [] r ≡ line r ++ r.traceback (line r))
      × ((c : ℕ) (s : Text)
          → format super_format (c ∷ s) r
            ≡ (line r ++ (codes " trace_id=" ++ c ∷ s))
              ++ r.traceback (line r ++ (codes " trace_id=" ++ c ∷ s)))
format_lem super_format h r = (
  format-suffix super_format h [] r ∙ ap (λ l. l ++ r.traceback l) (append-nil (line r)),
  λ c s. format-suffix super_format h (c ∷ s) r,
)
