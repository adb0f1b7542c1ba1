-- ===== src/Config/Fallback.antt =====
-- The configuration from the environment, for a program that has no file.
use mini_nginx.Common.{Option, none, some, List, [], ◌∷◌, ◌++◌, ℤ, pos}
use mini_nginx.Python.Text.{Text, Unicode, codes, strip, split_on, rsplit_once}
use mini_nginx.Python.Number.{int}
use mini_nginx.Pool.{Upstream}
use mini_nginx.Config.{
  ConfigModel, ConfigHolder, create_holder, normalize_level, default_timeouts, pool_upstreams,
}

-- `os.environ.get(name, default)`
abbrev pub get_env : (Text → Option Text) → Text → Text → Text
get_env environ name default = elim (environ name) [ none ↦ default | some value ↦ value ]

abbrev pub with_port : Text → Option ℤ → List Upstream → List Upstream
with_port host none rest = rest
with_port host (some port) rest = record { host = host; port = port } ∷ rest

module _ ⦃u : Unicode⦄ where
  -- The loop over the parts of UPSTREAM_HOSTS; a part without a colon or with a bad port is passed
  -- over.
  pub upstreams_of : List Text → List Upstream
  unfolding strip rsplit_once int
  upstreams_of [] = []
  upstreams_of (part ∷ parts) = elim (rsplit_once b':' (strip part)) [
    | none ↦ upstreams_of parts
    | some (host, port_text) ↦ with_port (strip host) (int port_text) (upstreams_of parts)
  ]

  -- `if hosts_str: …`
  abbrev pub env_upstreams : Text → List Upstream
  env_upstreams [] = []
  env_upstreams (c ∷ s) = upstreams_of (split_on b',' (c ∷ s))

  abbrev pub address : (Text → Option Text) → Text → Text → Text → Text
  address environ host_name port_name default_port =
      get_env environ host_name (codes "127.0.0.1") ++ b':' ∷ get_env environ port_name default_port

  -- The model; `build_fallback_from_env` makes the holder of it.
  unfoldable pub env_model : (Text → Option Text) → ConfigModel
  unfolding upstreams_of split_on normalize_level
  env_model environ = record {
    listen = address environ (codes "PROXY_LISTEN_HOST") (codes "PROXY_LISTEN_PORT") (codes "8080");
    metrics_listen = some (
        address environ (codes "METRICS_LISTEN_HOST") (codes "METRICS_LISTEN_PORT") (codes "8081"));
    upstreams =
        pool_upstreams (env_upstreams (strip (get_env environ (codes "UPSTREAM_HOSTS") [])));
    timeouts = default_timeouts;
    limits = record { max_client_conns = pos 500; max_conns_per_upstream = pos 100 };
    level = normalize_level (get_env environ (codes "LOG_LEVEL") (codes "info"));
  }

  unfoldable pub build_fallback_from_env : (Text → Option Text) → Option ConfigHolder
  unfolding env_model create_holder
  build_fallback_from_env environ = create_holder (env_model environ)
