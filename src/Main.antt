-- ===== src/Main.antt =====
-- The program from its start to its end (proxy/main.py): the configuration and the logging are set
-- up, the addresses are chosen, SIGHUP reloads, and the servers are stopped.
--
-- The profiler (`init_pyroscope` catches every exception), the console and the event loop are left
-- out.
pub mod Start
pub mod Serving
pub mod RunAll
pub mod Arguments
pub mod Laws
pub mod Reloads
pub mod Announcing
pub mod Ends
pub mod FirstClient
mod Tests
use mini_nginx.Common.{
  ℕ, Bool, true, false, Option, none, some, List, [], ◌∷◌, ◌++◌, ℤ, if◌then◌else◌, ◌==◌, nat_eq,
  ◌>>=◌, get_elem?, length,
}
use mini_nginx.Python.Text.{Text, Unicode, codes, strip}
use mini_nginx.Python.Number.{int, is_digit, show_nat, show_int}
use mini_nginx.Pool.{get_next, UpstreamPool, Upstream}
use mini_nginx.Config.{ConfigModel, ConfigHolder, listen_address, metrics_address}
use mini_nginx.Config.Loading.{Files, load_config, get_config, set_config_fallback}
use mini_nginx.Config.Fallback.{get_env, build_fallback_from_env}
use mini_nginx.Logger.{
  Aiologger, Logging, unset, setup_aiologger, set_logging_level, get_logger, delegate, info,
  shutdown,
}

-- `sys.argv`, `os.environ`, and `Path` with its text.
pub record Process (Location : Type 0) : Type 0 where
  pub argv : List Text
  pub environ : Text → Option Text
  pub to_path : Text → Location
  pub str_path : Location → Text

-- The current configuration, the logging, and the messages of the tasks that `create_task` has
-- scheduled and that have not run yet.
pub record Program (Logger : Type 0) : Type 0 where
  pub current : Option ConfigHolder
  pub logging : Logging Logger
  pub tasks : List Text

-- At import.
abbrev pub imported : {Logger : Type 0} → Program Logger
imported = record { current = none; logging = unset; tasks = [] }

-- `text.replace(".", "")`
abbrev pub without_dots : Text → Text
without_dots [] = []
without_dots (c ∷ s) = let rest = without_dots s in if c == b'.' then rest else c ∷ rest

pub record Listening : Type 0 where
  pub host : Text
  pub port : ℤ
  pub metrics_host : Text
  pub metrics_port : ℤ

-- `sys.exit`, or an exception that nothing catches, for which Python's status is 1; or the servers
-- start.
pub data Startup : Type 0 where
  exits : ℕ → Startup
  starts : Listening → Startup

module _ ⦃u : Unicode⦄ where
  -- An argument that is an IP address or a number is no path.
  abbrev pub is_numeric : Text → Bool
  is_numeric argument = is_digit (without_dots argument)

  abbrev pub path_argument : Option Text → Text
  path_argument none = codes "config.yaml"
  path_argument (some argument) = if is_numeric argument then codes "config.yaml" else argument

  abbrev pub path_or : Text → Option Text → Text
  path_or [] argument = path_argument argument
  path_or (c ∷ s) argument = c ∷ s

  unfoldable pub config_path : {Location : Type 0} → Process Location → Location
  unfolding strip is_digit
  config_path p =
      p.to_path (path_or (strip (get_env p.environ (codes "CONFIG_PATH") [])) (get_elem? p.argv 1))

  abbrev pub host_or : Text → Option Text → Text
  host_or host none = host
  host_or host (some argument) = if is_numeric argument then argument else host

  -- `none` is the `ValueError` of `int`: not all texts that `isdigit` accepts are numbers.
  abbrev pub port_or : ℤ → Option Text → Option ℤ
  port_or port none = some port
  port_or port (some argument) = if is_digit argument then int argument else some port

  -- The addresses of the configuration, then the arguments; `none` is a `ValueError`.
  unfoldable pub listening : List Text → ConfigModel → Option Listening
  unfolding is_digit int
  listening argv model = do
    proxy ← listen_address model
    metrics ← metrics_address model
    port ← port_or proxy.1 (get_elem? argv 2)
    some (record {
      host = host_or proxy.0 (get_elem? argv 1);
      port = port;
      metrics_host = metrics.0;
      metrics_port = metrics.1;
    })
