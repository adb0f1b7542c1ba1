-- ===== src/Main/Reloads.antt =====
-- Reloading, logging and choosing upstreams, in any order, keep the program able to serve.
use mini_nginx.Common.{
  ℕ, ◌≡◌, refl, ap, subst, ◌∙◌, true, false, Bool, Bool-cases, Option-cases, inl, inr, none, some,
  List, [], ◌∷◌, get_elem?,
}
use mini_nginx.Python.Text.{Text, Unicode}
use mini_nginx.Pool.{Upstream, UpstreamPool, get_next}
use mini_nginx.Pool.RoundRobin.{IsValid, get_next-IsValid}
use mini_nginx.Config.{ConfigHolder, pool_upstreams}
use mini_nginx.Config.Loading.{Files, read_holder, load_config}
use mini_nginx.Config.Laws.{IsReady-servers, IsReady}
use mini_nginx.Logger.{Aiologger, info}
use mini_nginx.Logger.Laws.{
  IsLawful, HasLevel, set_logging_level-HasLevel, delegate-HasLevel, get_logger-HasLevel,
}
use mini_nginx.Main.{Process, Program}
use mini_nginx.Main.Start.{apply_logging_level, start}
use mini_nginx.Main.Serving.{
  Event, hangs_up, runs_task, picks, reloaded, announce, reload_config, run_task, pick, run_first,
}
use mini_nginx.Main.RunAll.{serve_events}
use mini_nginx.Main.Laws.{read_holder-IsReady, start-Started}

-- A holder whose pool is that of its model, at some place of its turn.
pub record Serves (holder : ConfigHolder) : Type 0 where
  pub valid : IsValid holder.upstream_pool
  pub servers : holder.upstream_pool.upstreams ≡ pool_upstreams holder.model.upstreams

pub IsReady-Serves : (holder : ConfigHolder) → IsReady holder.model holder → Serves holder
IsReady-Serves holder ready = record {
  valid = ready.valid;
  servers = IsReady-servers holder.model holder ready;
}

module _ ⦃u : Unicode⦄ {Logger Answer : Type 0} (aio : Aiologger Logger Answer) where
  -- A current configuration that serves, and the root logger at its level.
  pub record IsRunning (program : Program Logger) : Type 0 where
    pub holder : ConfigHolder
    pub current : program.current ≡ some holder
    pub serves : Serves holder
    pub level : HasLevel aio holder.model.level program.logging

  announce-IsRunning :
      (running : Bool) (message : Text) (program : Program Logger)
      → IsRunning program
      → IsRunning (announce running message program)
  unfolding announce
  announce-IsRunning true message program r = record {
    holder = r.holder;
    current = r.current;
    serves = r.serves;
    level = get_logger-HasLevel aio r.holder.model.level program.logging r.level;
  }
  announce-IsRunning false message program r = r

  module _ {Location Document : Type 0} where
    -- What a reload finds: the holder that is loaded, or else the one that was current.
    abbrev found : Files Location Document → Location → ConfigHolder → ConfigHolder
    found files path holder = elim (read_holder files path) [ none ↦ holder | some loaded ↦ loaded ]

    pub load_config-some :
        (files : Files Location Document) (path : Location) (holder : ConfigHolder)
        → Serves holder
        → (next : ConfigHolder) × (load_config files path (some holder) ≡ (some next, some next))
          × Serves next
    unfolding load_config
    load_config-some files path holder s = elim (Bool-cases (files.is_file path)) [
      | inr missing ↦ (holder, rw missing refl, s)
      | inl there ↦ elim (Option-cases (read_holder files path)) [
        | inl bad ↦ (holder, rw (there, bad) refl, s)
        | inr (loaded, read) ↦ (
          loaded,
          rw (there, read) refl,
          IsReady-Serves loaded (read_holder-IsReady files path loaded read),
        )
      ]
    ]

    pub reload_config-IsRunning :
        IsLawful aio
        → (files : Files Location Document) (p : Process Location) (running : Bool)
          (path : Location) (program : Program Logger)
        → IsRunning program
        → IsRunning (reload_config aio files p running path program)
    unfolding reload_config
    reload_config-IsRunning lawful files p running path program r =
        let (next, e, s) = load_config-some files path r.holder r.serves in
        let loaded : load_config files path program.current ≡ (some next, some next) =
          ap (load_config files path) r.current ∙ e in
        rw loaded (
          announce-IsRunning running (reloaded (p.str_path path) next.model.level)
            (record program {
              current = some next;
              logging = apply_logging_level aio next.model.level program.logging;
            })
            (record {
              holder = next;
              current = refl;
              serves = s;
              level =
                  set_logging_level-HasLevel aio lawful r.holder.model.level next.model.level
                    program.logging r.level;
            }))

  run_first-IsRunning :
      IsLawful aio
      → (tasks : List Text) (program : Program Logger) → IsRunning program
      → IsRunning (run_first aio tasks program)
  run_first-IsRunning lawful [] program r = r
  run_first-IsRunning lawful (message ∷ later) program r = record {
    holder = r.holder;
    current = r.current;
    serves = r.serves;
    level = delegate-HasLevel aio lawful info message r.holder.model.level program.logging r.level;
  }

  run_task-IsRunning :
      IsLawful aio
      → (program : Program Logger) → IsRunning program
      → IsRunning (run_task aio program)
  unfolding run_task
  run_task-IsRunning lawful program r = run_first-IsRunning lawful program.tasks program r

  pick-IsRunning : (program : Program Logger) → IsRunning program → IsRunning (pick program)
  unfolding pick
  pick-IsRunning program r =
      let (u, pool', e, at, kept, v) = get_next-IsValid r.holder.upstream_pool r.serves.valid in
      record {
        holder = record r.holder { upstream_pool = pool' };
        current = rw (r.current, e) refl;
        serves = record { valid = v; servers = kept ∙ r.serves.servers };
        level = rw (r.current, pick) r.level;
      }

  module _ {Location Document : Type 0} (p : Process Location) (path : Location) where
    pub serve_events-IsRunning :
        IsLawful aio
        → (events : List (Event Location Document)) (program : Program Logger) → IsRunning program
        → IsRunning (serve_events aio p path events program)
    unfolding serve_events
    serve_events-IsRunning lawful [] program r = r
    serve_events-IsRunning lawful (hangs_up files ∷ events) program r =
        serve_events-IsRunning lawful events (reload_config aio files p true path program)
          (reload_config-IsRunning lawful files p true path program r)
    serve_events-IsRunning lawful (runs_task ∷ events) program r =
        serve_events-IsRunning lawful events (run_task aio program)
          (run_task-IsRunning lawful program r)
    serve_events-IsRunning lawful (picks ∷ events) program r =
        serve_events-IsRunning lawful events (pick program) (pick-IsRunning program r)

    -- From the start on, whatever SIGHUPs come, whatever files they find, and however tasks and
    -- clients come between them, there is a current configuration with the root logger at its level,
    -- and a client that asks its pool gets one of the upstreams of that configuration (of the two
    -- default ones, if it names none).
    pub serve_events-serves :
        IsLawful aio
        → (files : Files Location Document) (events : List (Event Location Document))
        → let program = serve_events aio p path events (start aio p files).1 in
          (holder : ConfigHolder) × (program.current ≡ some holder)
          × HasLevel aio holder.model.level program.logging
          × (upstream : Upstream) × (pool' : UpstreamPool) × (i : ℕ) × (get_next
                holder.upstream_pool
              ≡ some (upstream, pool'))
          × (get_elem? (pool_upstreams holder.model.upstreams) i ≡ some upstream)
    serve_events-serves lawful files events =
        let (holder, begun, loaded, fallen) = start-Started aio p files lawful in
        let r : IsRunning (serve_events aio p path events (start aio p files).1) =
          serve_events-IsRunning lawful events (start aio p files).1 (record {
            holder = holder;
            current = begun.current;
            serves = IsReady-Serves holder begun.ready;
            level = begun.level;
          }) in
        let (u, pool', e, at, kept, v) = get_next-IsValid r.holder.upstream_pool r.serves.valid in
        (
          r.holder,
          r.current,
          r.level,
          u,
          pool',
          r.holder.upstream_pool.current_index,
          e,
          subst (λ us. get_elem? us r.holder.upstream_pool.current_index ≡ some u) r.serves.servers
              at,
        )
