-- ===== src/Logger/Laws.antt =====
-- The level of the root logger and the one proxy, over any sequence of calls.
use mini_nginx.Common.{ℕ, ◌≡◌, refl, ◌∙◌, some, List, [], ◌∷◌, arith}
use mini_nginx.Python.Text.{Text, Unicode}
use mini_nginx.Logger.{
  Method, Handler, Aiologger, Logging, level_from_str, setup_aiologger, set_logging_level, delegate,
  get_logger,
}

-- What aiologger documents: a logger keeps the level that it was made with or was given last.
pub record IsLawful {Logger Answer : Type 0} (aio : Aiologger Logger Answer) : Type 0 where
  pub level-create : (name : Text) (n : ℕ) → aio.level (aio.create name n) ≡ n
  pub level-add_handler :
      (h : Handler) (logger : Logger) → aio.level (aio.add_handler h logger) ≡ aio.level logger
  pub level-set_level : (n : ℕ) (logger : Logger) → aio.level (aio.set_level n logger) ≡ n
  pub level-call :
      (method : Method) (msg : Text) (logger : Logger)
      → aio.level (aio.call method msg logger).1 ≡ aio.level logger

-- What the program does with its logging once it is set up.
pub data Call : Type 0 where
  logs : Method → Text → Call
  sets : Text → Call
  gets : Call

-- The text that gave the level last.
abbrev pub last_level : Text → List Call → Text
last_level level [] = level
last_level level (logs method msg ∷ calls) = last_level level calls
last_level level (sets later ∷ calls) = last_level later calls
last_level level (gets ∷ calls) = last_level level calls

module _ ⦃u : Unicode⦄ {Logger Answer : Type 0} (aio : Aiologger Logger Answer) where
  unfoldable pub run : List Call → Logging Logger → Logging Logger
  unfolding delegate set_logging_level get_logger
  run [] l = l
  run (logs method msg ∷ calls) l = run calls (delegate aio method msg l).1
  run (sets level ∷ calls) l = run calls (set_logging_level aio level l)
  run (gets ∷ calls) l = run calls (get_logger l).1

  -- The root logger is set up, with the level that a text stands for.
  abbrev pub HasLevel : Text → Logging Logger → Type 0
  HasLevel level l =
      (logger : Logger) × (l.root_logger ≡ some logger)
      × (aio.level logger ≡ level_from_str aio level)

  pub setup_aiologger-HasLevel :
      IsLawful aio
      → (level name : Text) (l : Logging Logger)
      → HasLevel level (setup_aiologger aio level name l).1
  unfolding setup_aiologger
  setup_aiologger-HasLevel lawful level name l =
      (_, refl, lawful.level-add_handler _ _ ∙ lawful.level-create name _)

  pub set_logging_level-HasLevel :
      IsLawful aio
      → (level later : Text) (l : Logging Logger) → HasLevel level l
      → HasLevel later (set_logging_level aio later l)
  unfolding set_logging_level
  set_logging_level-HasLevel lawful level later l (logger, e, h) =
      (aio.set_level (level_from_str aio later) logger, rw e refl, lawful.level-set_level _ logger)

  pub delegate-HasLevel :
      IsLawful aio
      → (method : Method) (msg level : Text) (l : Logging Logger) → HasLevel level l
      → HasLevel level (delegate aio method msg l).1
  unfolding delegate
  delegate-HasLevel lawful method msg level l (logger, e, h) =
      ((aio.call method msg logger).1, rw e refl, lawful.level-call method msg logger ∙ h)

  get_logger-root : (l : Logging Logger) → (get_logger l).1.root_logger ≡ l.root_logger
  unfolding get_logger
  get_logger-root l = ground arith

  pub get_logger-HasLevel :
      (level : Text) (l : Logging Logger) → HasLevel level l → HasLevel level (get_logger l).1
  get_logger-HasLevel level l (logger, e, h) = (logger, get_logger-root l ∙ e, h)

  run-HasLevel :
      IsLawful aio
      → (calls : List Call) (level : Text) (l : Logging Logger) → HasLevel level l
      → HasLevel (last_level level calls) (run calls l)
  unfolding run
  run-HasLevel lawful [] level l h = h
  run-HasLevel lawful (logs method msg ∷ calls) level l h =
      run-HasLevel lawful calls level (delegate aio method msg l).1
        (delegate-HasLevel lawful method msg level l h)
  run-HasLevel lawful (sets later ∷ calls) level l h =
      run-HasLevel lawful calls later (set_logging_level aio later l)
        (set_logging_level-HasLevel lawful level later l h)
  run-HasLevel lawful (gets ∷ calls) level l h =
      run-HasLevel lawful calls level (get_logger l).1 (get_logger-HasLevel level l h)

  -- After the set-up, whatever is logged and whoever asks for the logger, the root logger's level is
  -- that of the text that `set_logging_level` was given last, or else of the set-up's.
  pub run-level :
      IsLawful aio
      → (level name : Text) (calls : List Call) (l : Logging Logger)
      → (logger : Logger) × ((run calls (setup_aiologger aio level name l).1).root_logger
          ≡ some logger)
        × (aio.level logger ≡ level_from_str aio (last_level level calls))
  run-level lawful level name calls l =
      run-HasLevel lawful calls level (setup_aiologger aio level name l).1
        (setup_aiologger-HasLevel lawful level name l)

  delegate-proxy :
      (method : Method) (msg : Text) (l : Logging Logger)
      → (delegate aio method msg l).1.logger_proxy ≡ l.logger_proxy
  unfolding delegate
  delegate-proxy method msg l = ground arith

  get_logger-proxy :
      (proxy : ℕ) (l : Logging Logger)
      → l.logger_proxy ≡ some proxy
      → (get_logger l).1.logger_proxy ≡ some proxy
  unfolding get_logger
  get_logger-proxy proxy l e = rw e

  run-proxy :
      (calls : List Call) (proxy : ℕ) (l : Logging Logger)
      → l.logger_proxy ≡ some proxy
      → (run calls l).logger_proxy ≡ some proxy
  unfolding run set_logging_level
  run-proxy [] proxy l e = e
  run-proxy (logs method msg ∷ calls) proxy l e =
      run-proxy calls proxy (delegate aio method msg l).1 (delegate-proxy method msg l ∙ e)
  run-proxy (sets level ∷ calls) proxy l e = run-proxy calls proxy (set_logging_level aio level l) e
  run-proxy (gets ∷ calls) proxy l e =
      run-proxy calls proxy (get_logger l).1 (get_logger-proxy proxy l e)

  get_logger-made : (l : Logging Logger) → (get_logger l).1.logger_proxy ≡ some (get_logger l).0
  unfolding get_logger
  get_logger-made l = ground arith

  get_logger-known :
      (proxy : ℕ) (l : Logging Logger) → l.logger_proxy ≡ some proxy → (get_logger l).0 ≡ proxy
  unfolding get_logger
  get_logger-known proxy l e = rw e

  -- Whatever happens between two calls of `get_logger`, also the set-up of the root logger, both
  -- return the same proxy.
  pub get_logger-once :
      (before_setup after_setup : List Call) (level name : Text) (l : Logging Logger)
      → let set_up = (setup_aiologger aio level name (run before_setup (get_logger l).1)).1 in
        (get_logger (run after_setup set_up)).0 ≡ (get_logger l).0
  unfolding setup_aiologger
  get_logger-once before_setup after_setup level name l =
      let kept = run-proxy before_setup (get_logger l).0 (get_logger l).1 (get_logger-made l) in
      get_logger-known (get_logger l).0 (run after_setup _) (
        run-proxy after_setup (get_logger l).0
          (setup_aiologger aio level name (run before_setup (get_logger l).1)).1 kept)
