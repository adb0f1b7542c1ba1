-- ===== src/Main/Announcing.antt =====
-- What a reload says.
use mini_nginx.Common.{◌≡◌, refl, true, false, none, some, [], ◌∷◌, ◌++◌}
use mini_nginx.Python.Text.{Unicode}
use mini_nginx.Config.{ConfigHolder}
use mini_nginx.Config.Loading.{Files, read_holder, load_config}
use mini_nginx.Logger.{Aiologger}
use mini_nginx.Main.{Process, Program}
use mini_nginx.Main.Serving.{reload_config, announce, reloaded}

module _ ⦃u : Unicode⦄ {Logger Answer Location Document : Type 0} (aio : Aiologger Logger Answer)
    (files : Files Location Document) (p : Process Location) (path : Location)
    (program : Program Logger) where
  after_load :
      (next : ConfigHolder)
      → load_config files path program.current ≡ (some next, some next)
      → ((reload_config aio files p true path program).current ≡ some next)
        × ((reload_config aio files p true path program).tasks
            ≡ program.tasks ++ reloaded (p.str_path path) next.model.level ∷ [])
  unfolding reload_config announce
  after_load next e = (rw e refl, rw e refl)

  -- While the event loop runs, a reload of a program that has a configuration schedules one message,
  -- "Config reloaded from …", with the level of the configuration that is then current. It does so
  -- when the file is loaded, and also when the file is missing or cannot be loaded and the old
  -- configuration stays.
  pub reload_config-announces :
      (holder : ConfigHolder)
      → program.current ≡ some holder
      → let after = reload_config aio files p true path program in
        (files.is_file path ≡ false
          → (after.current ≡ some holder)
            × (after.tasks ≡ program.tasks ++ reloaded (p.str_path path) holder.model.level ∷ []))
        × (files.is_file path ≡ true
            → read_holder files path ≡ none
            → (after.current ≡ some holder)
              × (after.tasks ≡ program.tasks ++ reloaded (p.str_path path) holder.model.level ∷ []))
        × ((loaded : ConfigHolder)
            → files.is_file path ≡ true
            → read_holder files path ≡ some loaded
            → (after.current ≡ some loaded)
              × (after.tasks ≡ program.tasks ++ reloaded (p.str_path path) loaded.model.level ∷ []))
  unfolding load_config
  reload_config-announces holder e = (
    λ missing. after_load holder (rw (e, missing) refl),
    λ there bad. after_load holder (rw (e, there, bad) refl),
    λ loaded there read. after_load loaded (rw (e, there, read) refl),
  )
