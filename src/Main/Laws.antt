-- ===== src/Main/Laws.antt =====
-- What holds of the program once it has started, and at every moment until it ends.
use mini_nginx.Common.{
  ◌⊎◌, inl, inr, subst, ◌≡◌, refl, ap, ◌∙◌, sym, true, false, Bool-cases, Option-cases, Option,
  none, some, [], >>=-eq-some, Bool, ◌>>=◌,
}
use mini_nginx.Python.Text.{Unicode, codes}
use mini_nginx.Config.{ConfigHolder, create_holder}
use mini_nginx.Config.Loading.{Files, read_holder, load_config}
use mini_nginx.Config.Laws.{IsReady, create_holder-IsReady, build_fallback_from_env-IsReady}
use mini_nginx.Config.Fallback.{build_fallback_from_env}
use mini_nginx.Logger.{Aiologger, unset, setup_aiologger}
use mini_nginx.Logger.Laws.{
  IsLawful, HasLevel, setup_aiologger-HasLevel, set_logging_level-HasLevel,
}
use mini_nginx.Main.{Process, Program, imported, Startup, config_path, listening}
use mini_nginx.Main.Start.{load_if_file, or_fallback, started, set_up, start}

module _ {Location Document : Type 0} (files : Files Location Document) where
  -- What a configuration that is loaded has of its model.
  pub read_holder-IsReady :
      (path : Location) (holder : ConfigHolder)
      → read_holder files path ≡ some holder
      → IsReady holder.model holder
  unfolding read_holder
  read_holder-IsReady path holder e =
      let (raw, read, rest) = >>=-eq-some (files.safe_load path) _ e in
      let (model, validated, made) = >>=-eq-some _ create_holder rest in
      let ready : IsReady model holder = (create_holder-IsReady model).1 holder made in
      subst (λ m. IsReady m holder) (sym ready.same) ready

  load_if_file-loaded :
      (path : Location) (current : Option ConfigHolder) (holder : ConfigHolder)
      → files.is_file path ≡ true
      → read_holder files path ≡ some holder
      → load_if_file files path current ≡ (some holder, some holder)
  unfolding load_if_file load_config
  load_if_file-loaded path current holder found read = rw (found, read) refl

  load_if_file-missing :
      (path : Location)
      → (files.is_file path ≡ false) ⊎ (read_holder files path ≡ none)
      → load_if_file files path none ≡ (none, none)
  unfolding load_if_file load_config
  load_if_file-missing path (inl missing) = rw missing refl
  load_if_file-missing path (inr bad) = elim (Bool-cases (files.is_file path)) [
    | inl found ↦ rw (found, bad) refl
    | inr missing ↦ rw missing refl
  ]

  -- The two cases of the first load.
  load_cases :
      (path : Location)
      → ((holder : ConfigHolder) × (files.is_file path ≡ true)
          × (read_holder files path ≡ some holder))
        ⊎ ((files.is_file path ≡ false) ⊎ (read_holder files path ≡ none))
  load_cases path = elim (Bool-cases (files.is_file path)) [
    | inr missing ↦ inr (inl missing)
    | inl found ↦ elim (Option-cases (read_holder files path)) [
      | inl bad ↦ inr (inr bad)
      | inr (holder, read) ↦ inl (holder, found, read)
    ]
  ]

some-injective : {h k : ConfigHolder} → some h ≡ some k → h ≡ k
some-injective e = cc

not-both :
    {b : Bool} {o : Option ConfigHolder} {h : ConfigHolder}
    → (b ≡ false) ⊎ (o ≡ none)
    → b ≡ true
    → o ≡ some h
    → ⊥
not-both (inl missing) found e = cc
not-both (inr bad) found e = cc

module _ ⦃u : Unicode⦄ {Location Logger Answer : Type 0} (aio : Aiologger Logger Answer)
    (p : Process Location) where
  -- What the start ends with, if `holder` is the configuration that it found.
  pub record Started (holder : ConfigHolder) (r : Startup × Program Logger) : Type 0 where
    pub current : r.1.current ≡ some holder
    pub ready : IsReady holder.model holder
    pub level : HasLevel aio holder.model.level r.1.logging
    pub idle : r.1.tasks ≡ []
    pub outcome : r.0 ≡ started (listening p.argv holder.model)

  set_up-Started :
      IsLawful aio
      → (holder : ConfigHolder) → IsReady holder.model holder
      → Started holder (set_up aio p (some (holder, some holder)) imported)
  unfolding set_up
  set_up-Started lawful holder ready = record {
    current = refl;
    ready = ready;
    level =
        set_logging_level-HasLevel aio lawful holder.model.level holder.model.level
          (setup_aiologger aio holder.model.level (codes "proxy") unset).1
          (setup_aiologger-HasLevel aio lawful holder.model.level (codes "proxy") unset);
    idle = refl;
    outcome = refl;
  }

  module _ {Document : Type 0} (files : Files Location Document) where
    start-set_up :
        {loaded : Option ConfigHolder × Option ConfigHolder}
        {chosen : Option (ConfigHolder × Option ConfigHolder)}
        → load_if_file files (config_path p) none ≡ loaded
        → or_fallback p.environ loaded ≡ chosen
        → set_up aio p chosen imported ≡ start aio p files
    unfolding start
    start-set_up e k = sym (
        ap (λ loaded. set_up aio p (or_fallback p.environ loaded) imported) e
        ∙ ap (λ chosen. set_up aio p chosen imported) k)

    -- The start always ends with a current configuration that has the upstreams, the timeouts and the
    -- limits of its model, and with the root logger at its level: the one of the file, where it is
    -- there and can be loaded, else the one of the environment. So "Config not available" is never
    -- reached, and the servers start unless an address of that configuration, or the port argument, is
    -- no number.
    pub start-Started :
        IsLawful aio
        → (holder : ConfigHolder) × Started holder (start aio p files)
          × ((loaded : ConfigHolder)
              → files.is_file (config_path p) ≡ true
              → read_holder files (config_path p) ≡ some loaded
              → holder ≡ loaded)
          × ((files.is_file (config_path p) ≡ false) ⊎ (read_holder files (config_path p) ≡ none)
              → build_fallback_from_env p.environ ≡ some holder)
    unfolding or_fallback
    start-Started lawful = elim (load_cases files (config_path p)) [
      | inl (holder, found, read) ↦
          let e = load_if_file-loaded files (config_path p) none holder found read in
          (
            holder,
            subst (Started holder) (start-set_up e refl) (
                set_up-Started lawful holder
                  (read_holder-IsReady files (config_path p) holder read)),
            λ loaded there can. some-injective (sym read ∙ can),
            λ missing. absurd (not-both missing found read),
          )
      | inr missing ↦
          let (holder, made, ready) = build_fallback_from_env-IsReady p.environ in
          let e = load_if_file-missing files (config_path p) missing in
          (
            holder,
            subst (Started holder) (start-set_up e (rw (made, ◌>>=◌) refl)) (
                set_up-Started lawful holder
                  (subst (λ m. IsReady m holder) (sym ready.same) ready)),
            λ loaded there can. absurd (not-both missing there can),
            λ x. made,
          )
    ]
