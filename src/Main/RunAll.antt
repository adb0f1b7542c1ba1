-- ===== src/Main/RunAll.antt =====
-- The servers from their start to their end (proxy/main.py, `run_all` and the call of it).
use mini_nginx.Common.{ℕ, true, Option, none, some, List, [], ◌∷◌, ◌++◌, if◌then◌else◌, length}
use mini_nginx.Python.Text.{Text, Unicode, codes}
use mini_nginx.Python.Number.{show_nat, show_int}
use mini_nginx.Config.{ConfigHolder}
use mini_nginx.Config.Loading.{Files, get_config}
use mini_nginx.Logger.{Aiologger, Logging, get_logger, delegate, info, shutdown}
use mini_nginx.Main.{Process, Program, Listening, Startup, exits, starts, config_path}
use mini_nginx.Main.Start.{start}
use mini_nginx.Main.Serving.{
  Event, hangs_up, runs_task, picks, reload_config, run_task, pick, Ending, failed, MetricsTask,
  broken, running, exit_status,
}

-- "Starting proxy server on %s:%d, metrics on %s:%d (config: %s)"
abbrev pub starting : Listening → Text → Text
starting a path =
    codes "Starting proxy server on "
    ++ (a.host
        ++ b':'
          ∷ (show_int a.port
              ++ (codes ", metrics on "
                  ++ (a.metrics_host
                      ++ b':'
                        ∷ (show_int a.metrics_port
                            ++ (codes " (config: " ++ (path ++ codes ")")))))))

abbrev pub loaded_message : Text → Option ConfigHolder → List Text
loaded_message path none = []
loaded_message path (some c) =
    (codes "Config loaded from "
      ++ (path
          ++ (codes " (listen="
              ++ (c.model.listen
                  ++ (codes ", upstreams="
                      ++ (show_nat (length c.model.upstreams) ++ codes ")"))))))
    ∷ []

module _ ⦃u : Unicode⦄ {Location Document : Type 0} where
  -- What is logged before the servers run.
  unfoldable pub start_messages :
      Files Location Document → Process Location → Listening → Option ConfigHolder → List Text
  unfolding show_nat show_int config_path
  start_messages files p addresses current =
      let path : Text = p.str_path (config_path p) in
      starting addresses path
      ∷ (if files.is_file (config_path p)
          then loaded_message path (get_config current)
          else (codes "Config from env (no file " ++ (path ++ codes ")")) ∷ [])

module _ {Logger Answer : Type 0} (aio : Aiologger Logger Answer) where
  -- `await logger.info(message)` for each message.
  unfoldable pub log_all : List Text → Logging Logger → Logging Logger
  unfolding delegate
  log_all [] l = l
  log_all (message ∷ messages) l = log_all messages (delegate aio info message l).1

  -- `task.cancel()` and `await task`: the cancellation is passed over, but an exception that ended the
  -- metrics server before is raised, and the logger is not shut down.
  unfoldable pub finish : MetricsTask → Ending → Program Logger → Ending × Program Logger
  unfolding delegate
  finish running ending program =
      (ending, record program { logging = (delegate aio shutdown [] program.logging).1 })
  finish broken ending program = (failed, program)

  module _ ⦃u : Unicode⦄ {Location Document : Type 0} where
    -- With the event loop running.
    unfoldable pub serve_events :
        Process Location
        → Location
        → List (Event Location Document)
        → Program Logger
        → Program Logger
    unfolding reload_config run_task pick
    serve_events p path [] program = program
    serve_events p path (hangs_up files ∷ events) program =
        serve_events p path events (reload_config aio files p true path program)
    serve_events p path (runs_task ∷ events) program =
        serve_events p path events (run_task aio program)
    serve_events p path (picks ∷ events) program = serve_events p path events (pick program)

    unfoldable pub run_all :
        Files Location Document
        → Process Location
        → Listening
        → List (Event Location Document)
        → MetricsTask
        → Ending
        → Program Logger
        → Ending × Program Logger
    unfolding get_logger log_all serve_events finish start_messages config_path
    run_all files p addresses events task ending program =
        let logging : Logging Logger = (get_logger program.logging).1 in
        let logged : Program Logger = record program {
          logging = log_all (start_messages files p addresses program.current) logging;
        } in
        finish task ending (serve_events p (config_path p) events logged)

    abbrev pub run_from :
        Files Location Document
        → Process Location
        → List (Event Location Document)
        → MetricsTask
        → Ending
        → Startup × Program Logger
        → ℕ × Program Logger
    run_from files p events task ending (exits status, program) = (status, program)
    run_from files p events task ending (starts addresses, program) =
        let (ended, program') = run_all files p addresses events task ending program in
        (exit_status ended, program')

    -- The whole: the exit status, and what is left.
    unfoldable pub main :
        Files Location Document
        → Process Location
        → List (Event Location Document)
        → MetricsTask
        → Ending
        → ℕ × Program Logger
    unfolding start run_all exit_status
    main files p events task ending = run_from files p events task ending (start aio p files)
