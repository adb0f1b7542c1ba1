-- ===== src/Logger.antt =====
-- Logging (proxy/logger.py): the root logger, the proxy that delegates to it, and the level.
--
-- aiologger is a parameter: its loggers, the values of its LogLevel, and what a call of a logger
-- answers.
pub mod Laws
pub mod Levels
pub mod Format
mod Tests
use mini_nginx.Common.{ℕ, ◌+◌, Option, none, some}
use mini_nginx.Python.Text.{Text, Unicode, codes, strip, upper}
use mini_nginx.Config.{or_else}

-- The methods of a logger that the program calls; the text of `shutdown` is empty.
pub data Method : Type 0 where
  info error warning debug shutdown : Method

-- `AsyncStreamHandler(stream=sys.stdout, level=…, formatter=TraceIdFormatter(fmt=…))`
pub record Handler : Type 0 where
  pub threshold : ℕ
  pub fmt : Text

-- `attribute` is `getattr(LogLevel, name)`, `none` where there is no such name.
pub record Aiologger (Logger Answer : Type 0) : Type 0 where
  pub attribute : Text → Option ℕ
  pub info_level : ℕ
  pub debug_level : ℕ
  pub create : Text → ℕ → Logger
  pub add_handler : Handler → Logger → Logger
  pub set_level : ℕ → Logger → Logger
  pub level : Logger → ℕ
  pub call : Method → Text → Logger → Answer × Logger

-- The module's global variables; a `_LoggerProxy` has no fields, so it is a number that no object
-- had before.
pub record Logging (Logger : Type 0) : Type 0 where
  pub root_logger : Option Logger
  pub logger_proxy : Option ℕ
  pub next_object : ℕ

-- The values at import.
abbrev pub unset : {Logger : Type 0} → Logging Logger
unset = record { root_logger = none; logger_proxy = none; next_object = 0 }

-- What a method of the proxy returns: the answer of the root logger, or the coroutine object of
-- `_noop()`, which is not awaited.
pub data Reply (Answer : Type 0) : Type 0 where
  answered : Answer → Reply Answer
  noop : Reply Answer

abbrev pub default_fmt : Text
default_fmt = codes "%(asctime)s - %(name)s - %(levelname)s - %(message)s%(trace_id_fmt)s"

module _ {Logger Answer : Type 0} (aio : Aiologger Logger Answer) where
  abbrev pub level_or_info : Option ℕ → ℕ
  level_or_info none = aio.info_level
  level_or_info (some value) = value

  module _ ⦃u : Unicode⦄ where
    unfoldable pub level_from_str : Text → ℕ
    unfolding strip upper
    level_from_str level =
        level_or_info (aio.attribute (upper (strip (or_else level (codes "info")))))

    unfoldable pub setup_aiologger : Text → Text → Logging Logger → Logger × Logging Logger
    unfolding level_from_str
    setup_aiologger level name l =
        let handler : Handler = record { threshold = aio.debug_level; fmt = default_fmt } in
        let logger : Logger = aio.add_handler handler (aio.create name (level_from_str level)) in
        (logger, record l { root_logger = some logger })

    abbrev pub set_root_level : Text → Option Logger → Option Logger
    set_root_level level none = none
    set_root_level level (some logger) = some (aio.set_level (level_from_str level) logger)

    unfoldable pub set_logging_level : Text → Logging Logger → Logging Logger
    unfolding level_from_str
    set_logging_level level l = record l { root_logger = set_root_level level l.root_logger }

  -- One method of `_LoggerProxy`: the root logger is looked up when the method is called.
  unfoldable pub delegate : Method → Text → Logging Logger → Reply Answer × Logging Logger
  delegate method msg l = elim l.root_logger [
    | none ↦ (noop, l)
    | some logger ↦
        let (answer, logger') = aio.call method msg logger in
        (answered answer, record l { root_logger = some logger' })
  ]

-- `get_logger`: the one proxy, made on the first call.
unfoldable pub get_logger : {Logger : Type 0} → Logging Logger → ℕ × Logging Logger
get_logger l = elim l.logger_proxy [
  | some proxy ↦ (proxy, l)
  | none ↦ (
    l.next_object,
    record l { logger_proxy = some l.next_object; next_object = l.next_object + 1 },
  )
]
