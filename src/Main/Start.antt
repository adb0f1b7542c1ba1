-- ===== src/Main/Start.antt =====
-- The start of the program (proxy/main.py, the block under `__main__` up to the addresses).
use mini_nginx.Common.{Option, none, some, List, if◌then◌else◌, ◌>>=◌}
use mini_nginx.Python.Text.{Text, Unicode, codes}
use mini_nginx.Config.{ConfigHolder}
use mini_nginx.Config.Loading.{Files, load_config, get_config, set_config_fallback}
use mini_nginx.Config.Fallback.{build_fallback_from_env}
use mini_nginx.Logger.{Aiologger, Logging, setup_aiologger, set_logging_level}
use mini_nginx.Main.{
  Process, Program, imported, Listening, Startup, exits, starts, config_path, listening,
}

-- `_apply_logging_level`
abbrev pub apply_logging_level :
    ⦃u : Unicode⦄
    → {Logger Answer : Type 0} → Aiologger Logger Answer
    → Text
    → Logging Logger
    → Logging Logger
apply_logging_level aio level l = set_logging_level aio level l

module _ {Location Document : Type 0} (files : Files Location Document) where
  -- `if config_path.is_file(): holder = load_config(config_path)`
  unfoldable pub load_if_file :
      Location → Option ConfigHolder → Option ConfigHolder × Option ConfigHolder
  unfolding load_config
  load_if_file path current =
      if files.is_file path then load_config files path current else (none, current)

module _ ⦃u : Unicode⦄ where
  -- `if holder is None: …`, on a holder and the current configuration; `none` is an exception.
  unfoldable pub or_fallback :
      (Text → Option Text)
      → Option ConfigHolder × Option ConfigHolder
      → Option (ConfigHolder × Option ConfigHolder)
  unfolding build_fallback_from_env
  or_fallback environ (some holder, current) = some (holder, current)
  or_fallback environ (none, current) = do
    holder ← build_fallback_from_env environ
    some (holder, set_config_fallback holder current)

  abbrev pub started : Option Listening → Startup
  started none = exits 1
  started (some addresses) = starts addresses

  abbrev pub choose : List Text → Option ConfigHolder → Startup
  choose argv none = exits 1
  choose argv (some cfg) = started (listening argv cfg.model)

  module _ {Location Logger Answer : Type 0} (aio : Aiologger Logger Answer)
      (p : Process Location) where
    -- The logging is set up with the level of the holder, and the addresses are chosen.
    unfoldable pub set_up :
        Option (ConfigHolder × Option ConfigHolder) → Program Logger → Startup × Program Logger
    unfolding setup_aiologger set_logging_level listening
    set_up none program = (exits 1, program)
    set_up (some (holder, current)) program =
        let level : Text = holder.model.level in
        let logging : Logging Logger =
          apply_logging_level aio level
            (setup_aiologger aio level (codes "proxy") program.logging).1 in
        (
          choose p.argv (get_config current),
          record program { current = current; logging = logging },
        )

    unfoldable pub start : {Document : Type 0} → Files Location Document → Startup × Program Logger
    unfolding config_path load_if_file or_fallback set_up
    start files =
        let program : Program Logger = imported in
        set_up (or_fallback p.environ (load_if_file files (config_path p) program.current)) program
