-- ===== src/Logger/Tests.antt =====
-- Runs of the logging, and its theorems at concrete loggers.
use mini_nginx.Common.{
  some, ap, sym, ◌∙◌, ◌++◌, [], ◌∷◌, ℕ, ℕ, ◌≡◌, refl, sym, some, List, [], ◌∷◌, ◌++◌, arith, nat_eq,
  list_eq,
}
use mini_nginx.Python.Text.{Text, codes}
use mini_nginx.Samples.{ascii, aiologger, aiologger-IsLawful}
use mini_nginx.Config.{normalize_level}
use mini_nginx.Logger.{
  info, debug, noop, unset, level_from_str, setup_aiologger, delegate, get_logger,
}
use mini_nginx.Logger.Laws.{Call, logs, sets, gets, run, last_level, run-level, get_logger-once}
use mini_nginx.Logger.Levels.{level_from_str-normalize_level}
use mini_nginx.Logger.Format.{LogRecord, IsFormatter, format, line, percent-default_fmt, format_lem}

abbrev calls : List Call
calls = logs info (codes "a") ∷ gets ∷ sets (codes " Error ") ∷ logs debug (codes "b") ∷ []

run-level_example :
    (logger : ℕ × List Text) × ((run aiologger calls
        (setup_aiologger aiologger (codes "debug") (codes "proxy") unset).1).root_logger
      ≡ some logger)
    × (aiologger.level logger ≡ level_from_str aiologger (last_level (codes "debug") calls))
run-level_example =
    run-level aiologger aiologger-IsLawful (codes "debug") (codes "proxy") calls unset

error_level : level_from_str aiologger (codes " Error ") ≡ 40
unfolding level_from_str
error_level = refl

get_logger-once_example :
    let set_up =
      (setup_aiologger aiologger
        (codes "debug")
        (codes "proxy")
        (run aiologger calls (get_logger {Logger = ℕ × List Text} unset).1)).1 in
    (get_logger (run aiologger calls set_up)).0 ≡ (get_logger {Logger = ℕ × List Text} unset).0
get_logger-once_example =
    get_logger-once aiologger calls calls (codes "debug") (codes "proxy") unset

level_from_str-normalize_level_example :
    level_from_str aiologger (normalize_level (codes " Debug"))
    ≡ level_from_str aiologger (codes " Debug")
level_from_str-normalize_level_example =
    level_from_str-normalize_level aiologger refl refl (codes " Debug")
      (omega arith, (omega arith, (omega arith, (omega arith, (omega arith, (omega arith, tt))))))

-- The default format, filled, and the traceback.
abbrev filled : LogRecord → Text
filled r = line r ++ r.attributes (codes "trace_id_fmt")

abbrev super_format : LogRecord → Text
super_format r = filled r ++ r.traceback (filled r)

super_format-IsFormatter : IsFormatter super_format
super_format-IsFormatter r s e =
    let both : some (filled r) ≡ some s = sym (percent-default_fmt r) ∙ e in
    let same : filled r ≡ s = cc in ap (λ l. l ++ r.traceback l) same

-- A record of an exception.
abbrev log_record : LogRecord
log_record = record {
  attributes = λ name. codes "x";
  message = codes "hello";
  time = codes "now";
  traceback = λ s. 10 ∷ codes "Traceback";
}

format_lem_example :
    (format super_format [] log_record ≡ line log_record ++ log_record.traceback (line log_record))
    × ((c : ℕ) (s : Text)
        → format super_format (c ∷ s) log_record
          ≡ (line log_record ++ (codes " trace_id=" ++ c ∷ s))
            ++ log_record.traceback (line log_record ++ (codes " trace_id=" ++ c ∷ s)))
format_lem_example = format_lem super_format super_format-IsFormatter log_record

formatted :
    format super_format (codes "t1") log_record
    ≡ codes "now - x - x - hello trace_id=t1" ++ 10 ∷ codes "Traceback"
unfolding format
formatted = refl

unset_logs : delegate aiologger info (codes "a") unset ≡ (noop, unset)
unfolding delegate
unset_logs = refl
