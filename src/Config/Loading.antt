-- ===== src/Config/Loading.antt =====
-- Loading the configuration: the current one is replaced on success and kept on failure.
use mini_nginx.Common.{Bool, Option, none, some, if◌then◌else◌, ◌>>=◌}
use mini_nginx.Config.{ConfigModel, ConfigHolder, create_holder}

-- `is_file`, `read_text` with `yaml.safe_load`, the truth of a document, the empty mapping, and
-- `ConfigModel.model_validate`; `none` is an exception.
pub record Files (Location Document : Type 0) : Type 0 where
  pub is_file : Location → Bool
  pub safe_load : Location → Option Document
  pub is_truthy : Document → Bool
  pub empty : Document
  pub model_validate : Document → Option ConfigModel

module _ {Location Document : Type 0} (files : Files Location Document) where
  -- The body of the `try`.
  unfoldable pub read_holder : Location → Option ConfigHolder
  unfolding create_holder
  read_holder path = do
    raw ← files.safe_load path
    model ← files.model_validate (if files.is_truthy raw then raw else files.empty)
    create_holder model

  -- On success the holder is the new current one; `except Exception` leaves the old one.
  abbrev pub replaced : Option ConfigHolder → Option ConfigHolder → Option ConfigHolder
  replaced none current = current
  replaced (some holder) current = some holder

  -- `load_config` on the current configuration: what it returns, and the configuration then.
  unfoldable pub load_config :
      Location → Option ConfigHolder → Option ConfigHolder × Option ConfigHolder
  unfolding read_holder
  load_config path current =
      let loaded = replaced (read_holder path) current in
      if files.is_file path then (loaded, loaded) else (current, current)

-- `get_config` and `set_config_fallback`.
abbrev pub get_config : Option ConfigHolder → Option ConfigHolder
get_config current = current

abbrev pub set_config_fallback : ConfigHolder → Option ConfigHolder → Option ConfigHolder
set_config_fallback holder current = some holder
