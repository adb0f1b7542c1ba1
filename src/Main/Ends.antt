-- ===== src/Main/Ends.antt =====
-- The exit status of the program, and what it leaves.
use mini_nginx.Common.{ℕ, ◌≡◌, ◌≢◌, ◌↔◌, refl, sym, subst, Option, none, some, List, [], ◌∷◌}
use mini_nginx.Python.Text.{Text, Unicode}
use mini_nginx.Config.Loading.{Files}
use mini_nginx.Logger.{Aiologger, Logging, get_logger, delegate, info, shutdown}
use mini_nginx.Logger.Laws.{IsLawful, HasLevel, delegate-HasLevel, get_logger-HasLevel}
use mini_nginx.Main.{Process, Program, Listening, Startup, starts, config_path, listening}
use mini_nginx.Main.Start.{start, started}
use mini_nginx.Main.Serving.{
  Event, Ending, returned, interrupted, failed, MetricsTask, running, broken, exit_status,
}
use mini_nginx.Main.RunAll.{log_all, finish, start_messages, run_all, run_from, main}
use mini_nginx.Main.Laws.{start-Started}
use mini_nginx.Main.Reloads.{IsRunning, IsReady-Serves, serve_events-IsRunning}

module _ ⦃u : Unicode⦄ {Logger Answer : Type 0} (aio : Aiologger Logger Answer) where
  log_all-HasLevel :
      IsLawful aio
      → (level : Text) (messages : List Text) (l : Logging Logger) → HasLevel aio level l
      → HasLevel aio level (log_all aio messages l)
  unfolding log_all
  log_all-HasLevel lawful level [] l h = h
  log_all-HasLevel lawful level (message ∷ messages) l h =
      log_all-HasLevel lawful level messages (delegate aio info message l).1
        (delegate-HasLevel aio lawful info message level l h)

  finish-IsRunning :
      IsLawful aio
      → (task : MetricsTask) (ending : Ending) (program : Program Logger) → IsRunning aio program
      → IsRunning aio (finish aio task ending program).1
  unfolding finish
  finish-IsRunning lawful running ending program r = record {
    holder = r.holder;
    current = r.current;
    serves = r.serves;
    level = delegate-HasLevel aio lawful shutdown [] r.holder.model.level program.logging r.level;
  }
  finish-IsRunning lawful broken ending program r = r

  -- How the end of the server and of the metrics task gives the status.
  finish-status :
      (task : MetricsTask) (ending : Ending) (program : Program Logger)
      → (exit_status (finish aio task ending program).0 ≡ 0)
        ↔ ((task ≡ running) × (ending ≢ failed))
  unfolding finish exit_status
  finish-status running returned program = ((λ e. (refl, λ x. cc)), λ x. refl)
  finish-status running interrupted program = ((λ e. (refl, λ x. cc)), λ x. refl)
  finish-status running failed program = ((λ e. cc), λ (t, x). absurd (x refl))
  finish-status broken ending program = ((λ e. cc), λ (t, x). cc)

  module _ {Location Document : Type 0} (files : Files Location Document) (p : Process Location)
      (events : List (Event Location Document)) (task : MetricsTask) (ending : Ending) where
    run_all-IsRunning :
        IsLawful aio
        → (addresses : Listening) (program : Program Logger) → IsRunning aio program
        → IsRunning aio (run_all aio files p addresses events task ending program).1
    unfolding run_all
    run_all-IsRunning lawful addresses program r = finish-IsRunning lawful task ending _ (
        serve_events-IsRunning aio p (config_path p) lawful events _ (record {
          holder = r.holder;
          current = r.current;
          serves = r.serves;
          level =
              log_all-HasLevel lawful r.holder.model.level
                (start_messages files p addresses program.current) (get_logger program.logging).1
                (get_logger-HasLevel aio r.holder.model.level program.logging r.level);
        }))

    -- What the program ends with after a start.
    abbrev Ends : Startup → ℕ × Program Logger → Type 0
    Ends outcome r =
        IsRunning aio r.1
        × ((r.0 ≡ 0) ↔ (
            (addresses : Listening) × (outcome ≡ starts addresses)
            × (task ≡ running)
            × (ending ≢ failed)))

    run_from-Ends :
        IsLawful aio
        → (chosen : Option Listening) (program : Program Logger) → IsRunning aio program
        → Ends (started chosen) (run_from aio files p events task ending (started chosen, program))
    unfolding run_all
    run_from-Ends lawful none program r = (r, ((λ e. cc), λ (a, e, x, y). cc))
    run_from-Ends lawful (some addresses) program r = (
      run_all-IsRunning lawful addresses program r,
      (
        (λ e. let (x, y) = (finish-status task ending _).0 e in (addresses, refl, x, y)),
        λ (a, e, x, y). (finish-status task ending _).1 (x, y),
      ),
    )

    -- The exit status is 0 exactly where the servers have started, the proxy server has returned or was
    -- interrupted, and the metrics server has not failed before: one that failed to start, or later,
    -- turns an orderly end into the status 1. In every case the program ends with a configuration
    -- that serves and with the logger at its level.
    pub main-status :
        IsLawful aio
        → IsRunning aio (main aio files p events task ending).1
          × (((main aio files p events task ending).0 ≡ 0) ↔ (
              (addresses : Listening) × ((start aio p files).0 ≡ starts addresses)
              × (task ≡ running)
              × (ending ≢ failed)))
    unfolding main
    main-status lawful =
        let (holder, begun, loaded, fallen) = start-Started aio p files lawful in
        let r : IsRunning aio (start aio p files).1 = record {
          holder = holder;
          current = begun.current;
          serves = IsReady-Serves holder begun.ready;
          level = begun.level;
        } in
        subst (λ o. Ends o (run_from aio files p events task ending (o, (start aio p files).1)))
          (sym begun.outcome)
          (run_from-Ends lawful (listening p.argv holder.model) (start aio p files).1 r)
