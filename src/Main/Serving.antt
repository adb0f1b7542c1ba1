-- ===== src/Main/Serving.antt =====
-- The program while it serves, and its end (proxy/main.py, `_reload_config` and `run_all`).
use mini_nginx.Common.{Bool, Option, none, some, List, [], ◌∷◌, ◌++◌, if◌then◌else◌, ℕ}
use mini_nginx.Python.Text.{Text, Unicode, codes}
use mini_nginx.Pool.{Upstream, UpstreamPool, get_next}
use mini_nginx.Config.{ConfigHolder}
use mini_nginx.Config.Loading.{Files, load_config}
use mini_nginx.Logger.{Aiologger, get_logger, delegate, info}
use mini_nginx.Main.{Process, Program}
use mini_nginx.Main.Start.{apply_logging_level}

-- "Config reloaded from %s (logging level=%s)"
abbrev pub reloaded : Text → Text → Text
reloaded path level =
    codes "Config reloaded from " ++ (path ++ (codes " (logging level=" ++ (level ++ codes ")")))

-- `get_running_loop` raises where no event loop runs, and then nothing is scheduled.
unfoldable pub announce : {Logger : Type 0} → Bool → Text → Program Logger → Program Logger
unfolding get_logger
announce running message program =
    if running
    then record program {
      logging = (get_logger program.logging).1;
      tasks = program.tasks ++ message ∷ [];
    }
    else program

module _ ⦃u : Unicode⦄ {Logger Answer : Type 0} (aio : Aiologger Logger Answer) where
  abbrev pub apply_holder : Bool → Text → Option ConfigHolder → Program Logger → Program Logger
  apply_holder running path none program = program
  apply_holder running path (some holder) program =
      let level : Text = holder.model.level in
      announce running (reloaded path level)
        (record program { logging = apply_logging_level aio level program.logging })

  module _ {Location Document : Type 0} where
    -- `_reload_config`
    unfoldable pub reload_config :
        Files Location Document
        → Process Location
        → Bool
        → Location
        → Program Logger
        → Program Logger
    unfolding load_config announce
    reload_config files p running path program =
        let (holder, current) = load_config files path program.current in
        apply_holder running (p.str_path path) holder (record program { current = current })

-- The first task that was scheduled runs: it logs its message.
abbrev pub run_first :
    {Logger Answer : Type 0} → Aiologger Logger Answer → List Text → Program Logger → Program Logger
run_first aio [] program = program
run_first aio (message ∷ later) program = record program {
  logging = (delegate aio info message program.logging).1;
  tasks = later;
}

unfoldable pub run_task :
    {Logger Answer : Type 0} → Aiologger Logger Answer → Program Logger → Program Logger
unfolding delegate
run_task aio program = run_first aio program.tasks program

-- A client's connection takes the next upstream of the current configuration's pool.
abbrev pub moved : ConfigHolder → Option (Upstream × UpstreamPool) → ConfigHolder
moved holder none = holder
moved holder (some (upstream, pool')) = record holder { upstream_pool = pool' }

unfoldable pub pick : {Logger : Type 0} → Program Logger → Program Logger
unfolding get_next
pick program = elim program.current [
  | none ↦ program
  | some holder ↦ record program { current = some (moved holder (get_next holder.upstream_pool)) }
]

-- What happens while the servers run, in any order: SIGHUP with the files as they are then, a
-- scheduled task runs, a client's request takes an upstream.
pub data Event (Location Document : Type 0) : Type 0 where
  hangs_up : Files Location Document → Event Location Document
  runs_task : Event Location Document
  picks : Event Location Document

-- How `run_server` ends: it returns, an interrupt cancels it, or it raises. `KeyboardInterrupt`
-- only ends the program; any other exception gives the status 1.
pub data Ending : Type 0 where
  returned : Ending
  interrupted : Ending
  failed : Ending

-- The task of the metrics server when it is cancelled: it runs, or it ended by an exception before.
pub data MetricsTask : Type 0 where
  running : MetricsTask
  broken : MetricsTask

unfoldable pub exit_status : Ending → ℕ
exit_status returned = 0
exit_status interrupted = 0
exit_status failed = 1
