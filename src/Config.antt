-- ===== src/Config.antt =====
-- The configuration (proxy/config.py): its model, what is derived from it, and the current one.
--
-- Reading the file, its YAML and the validation of pydantic are parameters of the loading.
pub mod Loading
pub mod Fallback
pub mod Laws
pub mod Listen
mod Tests
use mini_nginx.Common.{
  ℕ, Option, none, some, List, [], ◌∷◌, ℤ, pos, negsuc, pos_part, if◌then◌else◌, ◌>>=◌,
}
use mini_nginx.Python.Text.{Text, Unicode, codes, strip, lower, rsplit_once}
use mini_nginx.Python.Number.{int, is_digit}
use mini_nginx.Pool.{Upstream, UpstreamPool}
use mini_nginx.Pool
use mini_nginx.Limits.{ConnectionLimitManager}
use mini_nginx.Limits
use mini_nginx.Timeouts.{TimeoutPolicy}

-- `text or default`
abbrev pub or_else : Text → Text → Text
or_else [] default = default
or_else (c ∷ s) default = c ∷ s

abbrev pub loopback : Text
loopback = codes "127.0.0.1"

module _ ⦃u : Unicode⦄ where
  abbrev pub host_and_port : Text × Text → Option (Text × ℤ)
  host_and_port (host, port_text) = do
    port ← int port_text
    some (or_else (strip host) loopback, port)

  abbrev pub port_alone : Text → Option (Text × ℤ)
  port_alone value =
      if is_digit value
      then (do port ← int value; some (loopback, port))
      else some (loopback, pos 8080)

  -- `_parse_listen`; `none` is the `ValueError`.
  unfoldable pub parse_listen : Text → Option (Text × ℤ)
  unfolding strip int is_digit rsplit_once
  parse_listen value = elim (rsplit_once b':' (strip value)) [
    | some parts ↦ host_and_port parts
    | none ↦ port_alone (strip value)
  ]

  -- The validator of `LoggingConfig.level`, for a text.
  unfoldable pub normalize_level : Text → Text
  unfolding strip lower
  normalize_level v = lower (strip (or_else v (codes "info")))

-- Python's integers have no bounds, and pydantic sets none.
pub record TimeoutsConfig : Type 0 where
  pub connect_ms : ℤ
  pub read_ms : ℤ
  pub write_ms : ℤ
  pub total_ms : ℤ

abbrev pub default_timeouts : TimeoutsConfig
default_timeouts = record {
  connect_ms = pos 1000;
  read_ms = pos 15000;
  write_ms = pos 15000;
  total_ms = pos 30000;
}

pub record LimitsConfig : Type 0 where
  pub max_client_conns : ℤ
  pub max_conns_per_upstream : ℤ

-- `UpstreamItem` is `Upstream`; `level` is normalized.
pub record ConfigModel : Type 0 where
  pub listen : Text
  pub metrics_listen : Option Text
  pub upstreams : List Upstream
  pub timeouts : TimeoutsConfig
  pub limits : LimitsConfig
  pub level : Text

module _ ⦃u : Unicode⦄ where
  abbrev pub listen_address : ConfigModel → Option (Text × ℤ)
  listen_address model = parse_listen model.listen

  abbrev pub metrics_address : ConfigModel → Option (Text × ℤ)
  metrics_address model = elim model.metrics_listen [
    | none ↦ some (loopback, pos 8081)
    | some value ↦ parse_listen value
  ]

pub record ConfigHolder : Type 0 where
  pub model : ConfigModel
  pub upstream_pool : UpstreamPool
  pub timeout_policy : TimeoutPolicy
  pub connection_limits : ConnectionLimitManager

abbrev pub default_upstreams : List Upstream
default_upstreams =
    record { host = loopback; port = pos 9001 } ∷ record { host = loopback; port = pos 9002 } ∷ []

-- `upstreams if upstreams else …`
abbrev pub pool_upstreams : List Upstream → List Upstream
pool_upstreams [] = default_upstreams
pool_upstreams (u ∷ us) = u ∷ us

abbrev pub policy_of : TimeoutsConfig → TimeoutPolicy
policy_of timeouts = record {
  connect_ms = pos_part timeouts.connect_ms;
  read_ms = pos_part timeouts.read_ms;
  write_ms = pos_part timeouts.write_ms;
  total_ms = pos_part timeouts.total_ms;
}

-- `asyncio.Semaphore` refuses a negative value: that of the clients here, that of an upstream at its
-- first connection, in `upstream_connection`.
abbrev pub client_limit_of : ℤ → Option ℕ
client_limit_of (pos n) = some n
client_limit_of (negsuc n) = none

-- The constructor; `none` is the `ValueError`.
unfoldable pub create_holder : ConfigModel → Option ConfigHolder
unfolding Pool.create Limits.create
create_holder model = do
  pool ← Pool.create (pool_upstreams model.upstreams)
  clients ← client_limit_of model.limits.max_client_conns
  some (record {
    model = model;
    upstream_pool = pool;
    timeout_policy = policy_of model.timeouts;
    connection_limits = Limits.create (record {
      max_client_conns = clients;
      max_conns_per_upstream = model.limits.max_conns_per_upstream;
    });
  })
