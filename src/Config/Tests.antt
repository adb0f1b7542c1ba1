-- ===== src/Config/Tests.antt =====
-- Runs of the configuration, and its theorems at concrete models.
use mini_nginx.Common.{◌↔◌, ℕ, ◌≡◌, ◌++◌, refl, Option, none, some, [], ◌∷◌, pos, negsuc, arith}
use mini_nginx.Python.Text.{Text, codes}
use mini_nginx.Python.Number.{show_nat}
use mini_nginx.Samples.{ascii}
use mini_nginx.Config.{ConfigModel, ConfigHolder, create_holder, parse_listen, default_timeouts}
use mini_nginx.Config.Fallback.{env_model, build_fallback_from_env}
use mini_nginx.Config.Laws.{IsReady, create_holder-IsReady, build_fallback_from_env-IsReady}
use mini_nginx.Config.Listen.{parse_listen-show_nat}

parse_listen-show_nat_example :
    parse_listen (codes "localhost" ++ b':' ∷ show_nat 8080) ≡ some (codes "localhost", pos 8080)
unfolding show_nat
parse_listen-show_nat_example =
    parse_listen-show_nat (codes "localhost") 8080 (λ e. cc)
      (refl, (refl, (refl, (refl, (refl, (refl, (refl, (refl, (refl, tt))))))))) (omega arith)

abbrev model : ConfigModel
model = record {
  listen = codes "0.0.0.0:80";
  metrics_listen = none;
  upstreams = record { host = codes "10.0.0.1"; port = pos 9001 } ∷ [];
  timeouts = default_timeouts;
  limits = record { max_client_conns = pos 10; max_conns_per_upstream = pos 2 };
  level = codes "info";
}

create_holder-IsReady_example :
    ((create_holder model ≡ none) ↔ ((n : ℕ) × (model.limits.max_client_conns ≡ negsuc n)))
    × ((holder : ConfigHolder) → create_holder model ≡ some holder → IsReady model holder)
create_holder-IsReady_example = create_holder-IsReady model

-- Two servers in the environment, one of them without a port.
abbrev environ : Text → Option Text
environ name = some (codes "a:1, b ,c:2")

build_fallback_from_env-IsReady_example :
    (holder : ConfigHolder) × (build_fallback_from_env environ ≡ some holder)
    × IsReady (env_model environ) holder
build_fallback_from_env-IsReady_example = build_fallback_from_env-IsReady environ

environ_upstreams :
    (env_model environ).upstreams
    ≡ record { host = codes "a"; port = pos 1 } ∷ record { host = codes "c"; port = pos 2 } ∷ []
unfolding env_model
environ_upstreams = refl

digits_alone : parse_listen (codes " 9090 ") ≡ some (codes "127.0.0.1", pos 9090)
unfolding parse_listen
digits_alone = refl
