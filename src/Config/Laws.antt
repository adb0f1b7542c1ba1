-- ===== src/Config/Laws.antt =====
-- What a configuration guarantees.
use mini_nginx.Common.{
  ◌↔◌, ◌⊎◌, inl, inr, subst, ℕ, ◌≡◌, ◌≢◌, refl, ap, ◌∙◌, sym, Option, none, some, List, [], ◌∷◌, ℤ,
  pos, negsuc, arith, pos_part, ◌>>=◌,
}
use mini_nginx.Python.Text.{Text, Unicode, codes}
use mini_nginx.Pool.{Upstream, UpstreamPool, get_next}
use mini_nginx.Pool
use mini_nginx.Pool.RoundRobin.{IsValid}
use mini_nginx.Limits.{semaphore, new_semaphore}
use mini_nginx.Limits.Semaphores.{semaphore_of, semaphore_of_lem}
use mini_nginx.Limits
use mini_nginx.Config.{
  ConfigModel, ConfigHolder, create_holder, pool_upstreams, default_upstreams, policy_of,
  client_limit_of,
}
use mini_nginx.Config.Fallback.{env_model, build_fallback_from_env}

-- What a holder has of its model: the upstreams, or two default ones where it names none, with the
-- first one next; the timeouts (a negative one acts as zero); as many client slots, all free, as the
-- model allows; and for each upstream a semaphore with as many slots as the model allows, none where
-- that number is negative.
pub record IsReady (model : ConfigModel) (holder : ConfigHolder) : Type 0 where
  pub same : holder.model ≡ model
  pub own : model.upstreams ≢ [] → holder.upstream_pool.upstreams ≡ model.upstreams
  pub default :
      model.upstreams ≡ []
      → holder.upstream_pool.upstreams
        ≡ record { host = codes "127.0.0.1"; port = pos 9001 }
          ∷ record { host = codes "127.0.0.1"; port = pos 9002 }
          ∷ []
  pub valid : IsValid holder.upstream_pool
  pub fresh : holder.upstream_pool.current_index ≡ 0
  pub connecting :
      (k : ℕ) → model.timeouts.connect_ms ≡ pos k → holder.timeout_policy.connect_ms ≡ k
  pub reading : (k : ℕ) → model.timeouts.read_ms ≡ pos k → holder.timeout_policy.read_ms ≡ k
  pub writing : (k : ℕ) → model.timeouts.write_ms ≡ pos k → holder.timeout_policy.write_ms ≡ k
  pub whole : (k : ℕ) → model.timeouts.total_ms ≡ pos k → holder.timeout_policy.total_ms ≡ k
  pub clients :
      (n : ℕ)
      → model.limits.max_client_conns ≡ pos n
      → holder.connection_limits.client_semaphore ≡ semaphore n
  pub connections :
      (upstream : Upstream) (n : ℕ)
      → model.limits.max_conns_per_upstream ≡ pos n
      → semaphore_of upstream holder.connection_limits ≡ some (semaphore n)
  pub refused :
      (upstream : Upstream) (n : ℕ)
      → model.limits.max_conns_per_upstream ≡ negsuc n
      → semaphore_of upstream holder.connection_limits ≡ none
  pub limit :
      holder.connection_limits.limits.max_conns_per_upstream ≡ model.limits.max_conns_per_upstream

listed :
    (us xs : List Upstream)
    → (us ≢ [] → xs ≡ us)
    → (us ≡ [] → xs ≡ default_upstreams)
    → xs ≡ pool_upstreams us
listed [] xs own default = default refl
listed (u ∷ us) xs own default = own (λ e. cc)

-- The upstreams of a holder, in either case.
pub IsReady-servers :
    (model : ConfigModel) (holder : ConfigHolder)
    → IsReady model holder
    → holder.upstream_pool.upstreams ≡ pool_upstreams model.upstreams
IsReady-servers model holder ready =
    listed model.upstreams holder.upstream_pool.upstreams ready.own ready.default

unlisted : (us : List Upstream) → us ≢ [] → pool_upstreams us ≡ us
unlisted [] h = absurd (h refl)
unlisted (u ∷ us) h = refl

-- The pool of a model.
pool_of :
    (us : List Upstream)
    → (pool : UpstreamPool) × (Pool.create (pool_upstreams us) ≡ some pool)
      × IsValid pool
      × (pool.upstreams ≡ pool_upstreams us)
      × (pool.current_index ≡ 0)
unfolding Pool.create
pool_of [] = (_, refl, record { in_range = omega arith }, refl, refl)
pool_of (u ∷ us) = (_, refl, record { in_range = omega arith }, refl, refl)

client_limit_of-cases :
    (z : ℤ)
    → ((n : ℕ) × (z ≡ pos n) × (client_limit_of z ≡ some n))
      ⊎ ((n : ℕ) × (z ≡ negsuc n) × (client_limit_of z ≡ none))
client_limit_of-cases (pos n) = inl (n, refl, refl)
client_limit_of-cases (negsuc n) = inr (n, refl, refl)

-- The holder that is made of a pool and a client limit.
abbrev made : ConfigModel → UpstreamPool → ℕ → ConfigHolder
made model pool clients = record {
  model = model;
  upstream_pool = pool;
  timeout_policy = policy_of model.timeouts;
  connection_limits = Limits.create (record {
    max_client_conns = clients;
    max_conns_per_upstream = model.limits.max_conns_per_upstream;
  });
}

abbrev finish_holder : ConfigModel → Option UpstreamPool → Option ℕ → Option ConfigHolder
finish_holder model pool limit = do p ← pool; n ← limit; some (made model p n)

create_holder-made :
    (model : ConfigModel) {pool : UpstreamPool} {limit : Option ℕ}
    → Pool.create (pool_upstreams model.upstreams) ≡ some pool
    → client_limit_of model.limits.max_client_conns ≡ limit
    → create_holder model ≡ finish_holder model (some pool) limit
unfolding create_holder
create_holder-made model e l =
    ap (λ o. finish_holder model o (client_limit_of model.limits.max_client_conns)) e
    ∙ ap (finish_holder model (some _)) l

some-ne-none : {h : ConfigHolder} → some h ≢ none
some-ne-none e = cc

some-injective : {h k : ConfigHolder} → some h ≡ some k → h ≡ k
some-injective e = cc

made-IsReady :
    (model : ConfigModel) (pool : UpstreamPool) (n : ℕ)
    → IsValid pool
    → pool.upstreams ≡ pool_upstreams model.upstreams
    → pool.current_index ≡ 0
    → model.limits.max_client_conns ≡ pos n
    → IsReady model (made model pool n)
unfolding Limits.create
made-IsReady model pool n v e i l = record {
  same = refl;
  own = λ some_named. e ∙ unlisted model.upstreams some_named;
  default = λ none_named. e ∙ ap pool_upstreams none_named;
  valid = v;
  fresh = i;
  connecting = λ k h. ap pos_part h;
  reading = λ k h. ap pos_part h;
  writing = λ k h. ap pos_part h;
  whole = λ k h. ap pos_part h;
  clients = λ m k. ap (λ z. semaphore (pos_part z)) (sym l ∙ k);
  connections = λ upstream m h.
      semaphore_of_lem upstream (made model pool n).connection_limits ∙ ap new_semaphore h;
  refused = λ upstream m h.
      semaphore_of_lem upstream (made model pool n).connection_limits ∙ ap new_semaphore h;
  limit = refl;
}

-- A model makes a holder exactly if its client limit is not negative. The holder then has the
-- upstreams of the model, or 127.0.0.1:9001 and 127.0.0.1:9002 where it names none, each of the four
-- timeouts from the setting of its name, and the model's number of slots for the clients and for each
-- upstream, all free; with a negative limit of the connections there is no semaphore for an upstream.
pub create_holder-IsReady :
    (model : ConfigModel)
    → ((create_holder model ≡ none) ↔ ((n : ℕ) × (model.limits.max_client_conns ≡ negsuc n)))
      × ((holder : ConfigHolder) → create_holder model ≡ some holder → IsReady model holder)
create_holder-IsReady model =
    let (pool, made_pool, valid, servers, fresh) = pool_of model.upstreams in
    elim (client_limit_of-cases model.limits.max_client_conns) [
      | inl (n, positive, limit) ↦ (
        (
          (λ none_made.
              absurd (some-ne-none (sym (create_holder-made model made_pool limit) ∙ none_made))),
          (λ (m, negative). absurd (let both = sym positive ∙ negative in cc)),
        ),
        (λ holder some_made.
            subst (IsReady model)
              (some-injective (sym (create_holder-made model made_pool limit) ∙ some_made))
              (made-IsReady model pool n valid servers fresh positive)),
      )
      | inr (n, negative, limit) ↦ (
        ((λ none_made. (n, negative)), (λ h. create_holder-made model made_pool limit)),
        (λ holder some_made.
            absurd (some-ne-none (sym some_made ∙ create_holder-made model made_pool limit))),
      )
    ]

module _ ⦃u : Unicode⦄ where
  -- Whatever the environment holds, the fallback succeeds, and its holder has what the model of the
  -- environment says.
  pub build_fallback_from_env-IsReady :
      (environ : Text → Option Text)
      → (holder : ConfigHolder) × (build_fallback_from_env environ ≡ some holder)
        × IsReady (env_model environ) holder
  unfolding build_fallback_from_env env_model
  build_fallback_from_env-IsReady environ =
      let model : ConfigModel = env_model environ in
      let (pool, made_pool, valid, servers, fresh) = pool_of model.upstreams in
      (
        made model pool 500,
        create_holder-made model made_pool refl,
        made-IsReady model pool 500 valid servers fresh refl,
      )
