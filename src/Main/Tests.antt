-- ===== src/Main/Tests.antt =====
-- Runs of the program, and its theorems at concrete processes.
use mini_nginx.Common.{
  arith, ℕ, ◌≡◌, ◌≢◌, ◌⊎◌, ◌↔◌, refl, true, false, none, some, List, [], ◌∷◌, ℤ, pos, get_elem?,
  ◌==◌, nat_eq, list_eq,
}
use mini_nginx.Python.Text.{Text, codes, split, strip, lower, split_once}
use mini_nginx.Samples.{
  world, sample_delays, request, ascii, manager, aiologger, aiologger-IsLawful,
}
use mini_nginx.Timeouts.{default_policy}
use mini_nginx.Logger.{unset}
use mini_nginx.Pool.{Upstream, UpstreamPool, get_next}
use mini_nginx.Config.{
  policy_of, create_holder, ConfigModel, ConfigHolder, default_timeouts, pool_upstreams,
  listen_address, parse_listen,
}
use mini_nginx.Config.Loading.{Files, read_holder, load_config}
use mini_nginx.Config.Fallback.{build_fallback_from_env}
use mini_nginx.Logger.Laws.{HasLevel}
use mini_nginx.Main.{Process, Program, Listening, starts, is_numeric, config_path, listening}
use mini_nginx.Main.Start.{start}
use mini_nginx.Main.Serving.{
  Event, hangs_up, runs_task, picks, reloaded, reload_config, returned, running, broken, failed,
}
use mini_nginx.Main.RunAll.{serve_events, main}
use mini_nginx.Main.Arguments.{variable_of, config_path-listening}
use mini_nginx.Main.Announcing.{reload_config-announces}
use mini_nginx.Main.Laws.{Started, start-Started}
use mini_nginx.Main.Reloads.{IsRunning, serve_events-serves}
use mini_nginx.Main.Ends.{main-status}
use mini_nginx.Main.FirstClient.{first_client-Delivered}
use mini_nginx.Limits.{create, HasSlots}
use mini_nginx.Net.{World}
use mini_nginx.Net.Reading.{content}
use mini_nginx.Handler.Results.{parse_bytes}
use mini_nginx.Handler.Lines.{store_header, drop_crlf}
use mini_nginx.Handler.Segments.{scan}
use mini_nginx.Handler.Requests.{headers_from}
use mini_nginx.Python.Utf8.{decode}
use mini_nginx.Server.{client_connected}
use mini_nginx.Server.Whole.{Delivered}

abbrev model : ConfigModel
model = record {
  listen = codes "0.0.0.0:80";
  metrics_listen = none;
  upstreams = record { host = codes "10.0.0.1"; port = pos 9001 } ∷ [];
  timeouts = default_timeouts;
  limits = record { max_client_conns = pos 10; max_conns_per_upstream = pos 2 };
  level = codes "error";
}

-- One file, whose document is a model.
abbrev files : Files Text ConfigModel
files = record {
  is_file = λ p. p == codes "proxy.yaml";
  safe_load = λ p. some model;
  is_truthy = λ d. true;
  empty = model;
  model_validate = λ d. some d;
}

-- The file is there, but its document is not valid.
abbrev invalid : Files Text ConfigModel
invalid = record files { model_validate = λ d. none }

abbrev process : Process Text
process = record {
  argv = codes "main.py" ∷ codes "proxy.yaml" ∷ codes "8088" ∷ [];
  environ = λ name. none;
  to_path = λ s. s;
  str_path = λ s. s;
}

abbrev events : List (Event Text ConfigModel)
events = picks ∷ hangs_up invalid ∷ runs_task ∷ hangs_up files ∷ picks ∷ []

start-Started_example :
    (holder : ConfigHolder) × Started aiologger process holder (start aiologger process files)
    × ((loaded : ConfigHolder)
        → files.is_file (config_path process) ≡ true
        → read_holder files (config_path process) ≡ some loaded
        → holder ≡ loaded)
    × ((files.is_file (config_path process) ≡ false)
          ⊎ (read_holder files (config_path process) ≡ none)
        → build_fallback_from_env process.environ ≡ some holder)
start-Started_example = start-Started aiologger process files aiologger-IsLawful

started_at :
    (start aiologger process files).0
    ≡ starts (record {
      host = codes "0.0.0.0";
      port = pos 8088;
      metrics_host = codes "127.0.0.1";
      metrics_port = pos 8081;
    })
unfolding start config_path listening parse_listen
started_at = refl

serve_events-serves_example :
    let program =
      serve_events aiologger process
        (codes "proxy.yaml")
        events
        (start aiologger process files).1 in
    (holder : ConfigHolder) × (program.current ≡ some holder)
    × HasLevel aiologger holder.model.level program.logging
    × (upstream : Upstream) × (pool' : UpstreamPool) × (i : ℕ) × (get_next holder.upstream_pool
        ≡ some (upstream, pool'))
    × (get_elem? (pool_upstreams holder.model.upstreams) i ≡ some upstream)
serve_events-serves_example =
    serve_events-serves aiologger process (codes "proxy.yaml") aiologger-IsLawful files events

main-status_example :
    IsRunning aiologger (main aiologger files process events running returned).1
    × (((main aiologger files process events running returned).0 ≡ 0) ↔ (
        (addresses : Listening) × ((start aiologger process files).0 ≡ starts addresses)
        × (running ≡ running)
        × (returned ≢ failed)))
main-status_example = main-status aiologger files process events running returned aiologger-IsLawful

broken_metrics : (main aiologger files process events broken returned).0 ≡ 1
unfolding main start config_path listening parse_listen
broken_metrics = refl

-- The current configuration before a reload.
abbrev holder : ConfigHolder
holder = record {
  model = record model { level = codes "debug" };
  upstream_pool = record { upstreams = model.upstreams; current_index = 0 };
  timeout_policy = default_policy;
  connection_limits = manager;
}

abbrev program : Program (ℕ × List Text)
program = record { current = some holder; logging = unset; tasks = [] }

reload_config-announces_example :
    let after = reload_config aiologger invalid process true (codes "proxy.yaml") program in
    (invalid.is_file (codes "proxy.yaml") ≡ false
      → (after.current ≡ some holder)
        × (after.tasks ≡ reloaded (codes "proxy.yaml") (codes "debug") ∷ []))
    × (invalid.is_file (codes "proxy.yaml") ≡ true
        → read_holder invalid (codes "proxy.yaml") ≡ none
        → (after.current ≡ some holder)
          × (after.tasks ≡ reloaded (codes "proxy.yaml") (codes "debug") ∷ []))
    × ((loaded : ConfigHolder)
        → invalid.is_file (codes "proxy.yaml") ≡ true
        → read_holder invalid (codes "proxy.yaml") ≡ some loaded
        → (after.current ≡ some loaded)
          × (after.tasks ≡ reloaded (codes "proxy.yaml") loaded.model.level ∷ []))
reload_config-announces_example =
    reload_config-announces aiologger invalid process (codes "proxy.yaml") program holder refl

not_loaded : read_holder invalid (codes "proxy.yaml") ≡ none
unfolding read_holder
not_loaded = refl

abbrev addresses : Listening
addresses = record {
  host = codes "0.0.0.0";
  port = pos 8088;
  metrics_host = codes "127.0.0.1";
  metrics_port = pos 8081;
}

listened : listening process.argv model ≡ some addresses
unfolding listening parse_listen
listened = refl

config_path-listening_example :
    (variable_of process ≢ [] → config_path process ≡ process.to_path (variable_of process))
    × (variable_of process ≡ []
        → ((is_numeric (codes "proxy.yaml") ≡ false)
            × (config_path process ≡ process.to_path (codes "proxy.yaml"))
            × (proxy : Text × ℤ) × (listen_address model ≡ some proxy)
            × (addresses.host ≡ proxy.0))
          ⊎ ((is_numeric (codes "proxy.yaml") ≡ true)
              × (config_path process ≡ process.to_path (codes "config.yaml"))
              × (addresses.host ≡ codes "proxy.yaml")))
config_path-listening_example =
    config_path-listening process (codes "main.py") (codes "proxy.yaml") (codes "8088" ∷ []) model
      addresses refl listened

-- The configuration of the file, and a client that meets it.
abbrev first_holder : ConfigHolder
first_holder = record {
  model = model;
  upstream_pool = record { upstreams = model.upstreams; current_index = 0 };
  timeout_policy = policy_of default_timeouts;
  connection_limits = create (record { max_client_conns = 10; max_conns_per_upstream = pos 2 });
}

abbrev first_world : World
first_world = record world {
  manager = first_holder.connection_limits;
  pool = first_holder.upstream_pool;
}

loaded_first : (start aiologger process files).1.current ≡ some first_holder
unfolding start config_path load_config read_holder create_holder
loaded_first = refl

first_request :
    parse_bytes (codes "t1") (content first_world.client_in) ≡ (some request, codes "hi")
unfolding scan split store_header split_once strip lower drop_crlf decode headers_from
first_request = refl

first_slots : HasSlots first_world.manager
unfolding create
first_slots = refl

first_client-Delivered_example :
    (upstream : Upstream) × (pool' : UpstreamPool) × (get_elem?
        (pool_upstreams first_holder.model.upstreams)
        0
      ≡ some upstream)
    × (get_next first_world.pool ≡ some (upstream, pool'))
    × Delivered request
        (codes "hi")
        upstream
        pool'
        first_world
        (client_connected (some first_holder.timeout_policy) (codes "t1") first_world).1
first_client-Delivered_example =
    first_client-Delivered aiologger process files aiologger-IsLawful first_holder sample_delays 9
      (codes "t1") request (codes "hi") first_world loaded_first refl
      (record {
        connecting = omega arith;
        reading = omega arith;
        writing = omega arith;
        whole = omega arith;
      })
      refl refl (tt, tt, tt, tt, tt, tt, refl, refl, (refl, first_slots), omega arith)
      (record { no_step = refl; no_total = refl }) first_request
