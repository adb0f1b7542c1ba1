-- ===== src/Samples.antt =====
-- Concrete values for the tests: a character table, and a client's and an upstream's streams.
use mini_nginx.Common.{
  arith, ℕ, ◌≡◌, refl, Bool, true, false, Bool-cases, inl, inr, Option, none, some, List, [], ◌∷◌,
  ◌++◌, pos, leb, if◌then◌else◌, ◌==◌, nat_eq, list_eq,
}
use mini_nginx.Python.Text.{Text, Unicode, codes}
use mini_nginx.Pool.{Upstream}
use mini_nginx.Limits.{HasSlots, default_limits, create, ConnectionLimitManager}
use mini_nginx.Metrics.{initial}
use mini_nginx.Net.{World, Writer, Arrival, arrived}
use mini_nginx.Http.{HttpRequest}
use mini_nginx.Timeouts.{default_policy}
use mini_nginx.Proxy.Connect.{Settings}
use mini_nginx.Net.Prompt.{Delays, IsPrompt}
use mini_nginx.Proxy.InTime.{IsLonger}
use mini_nginx.Logger.{Aiologger, Method, info, error, warning, debug, shutdown}
use mini_nginx.Logger.Laws.{IsLawful}

-- Tables for which no character outside ASCII has a case or is a digit.
instance abbrev pub ascii : Unicode
ascii = record {
  lower_other = λ c. c ∷ [];
  upper_other = λ c. c ∷ [];
  title_other = λ c. c ∷ [];
  decimal_other = λ c. none;
  is_digit_other = λ c. false;
}

abbrev pub local : Upstream
local = record { host = codes "127.0.0.1"; port = pos 9001 }

abbrev pub fresh_writer : Writer
fresh_writer = record { written = []; drains = []; closed = false; closing = (0, none) }

-- A request line and a header, in two parts, and a body behind them.
abbrev pub sent_by_client : List (ℕ × Arrival)
sent_by_client =
    (2, arrived (codes "POST /a HTT"))
    ∷ (
      3,
      arrived
          (codes "P/1.1" ++ 13 ∷ 10 ∷ codes "Content-Length: 2" ++ 13 ∷ 10 ∷ 13 ∷ 10 ∷ codes "hi"),
    )
    ∷ []

abbrev pub sent_by_upstream : List (ℕ × Arrival)
sent_by_upstream =
    (5, arrived (codes "HTTP/1.1 201 Created" ++ 13 ∷ 10 ∷ 13 ∷ 10 ∷ []))
    ∷ (1, arrived (codes "ok"))
    ∷ []

abbrev pub manager : ConnectionLimitManager
manager = create default_limits

abbrev pub world : World
world = record {
  now = 100;
  step_deadline = none;
  total_deadline = none;
  client_in = record { buffer = []; arrivals = sent_by_client };
  client_out = fresh_writer;
  connection = (4, none);
  upstream_in = record { buffer = []; arrivals = sent_by_upstream };
  upstream_out = fresh_writer;
  connected = false;
  client_slot_wait = 0;
  upstream_slot_wait = 0;
  manager = manager;
  pool = record { upstreams = local ∷ []; current_index = 0 };
  metrics = initial;
}

abbrev pub settings : Settings
settings = record { timeout_policy = default_policy; limited = true; trace_id = codes "t1" }

-- What is parsed of the client's stream, and the world behind the headers.
abbrev pub request : HttpRequest
request = record {
  method = codes "POST";
  path = codes "/a";
  version = codes "HTTP/1.1";
  headers = (codes "content-length", codes "2") ∷ [];
  trace_id = codes "t1";
}

abbrev pub parsed : World
parsed = record world { client_in = record { buffer = codes "hi"; arrivals = [] } }

-- Loggers that keep their level and what is logged at it or above.
abbrev level_of : Text → Option ℕ
level_of name =
    if name == codes "DEBUG"
    then some 10
    else if name == codes "INFO"
    then some 20
    else if name == codes "ERROR"
    then some 40
    else none

abbrev rank : Method → ℕ
rank debug = 10
rank info = 20
rank warning = 30
rank error = 40
rank shutdown = 0

abbrev pub aiologger : Aiologger (ℕ × List Text) Bool
aiologger = record {
  attribute = level_of;
  info_level = 20;
  debug_level = 10;
  create = λ name n. (n, []);
  add_handler = λ h logger. logger;
  set_level = λ n (m, lines). (n, lines);
  level = λ (n, lines). n;
  call = λ method msg (n, lines).
      if leb n (rank method) then (true, (n, lines ++ msg ∷ [])) else (false, (n, lines));
}

call-level :
    (method : Method) (msg : Text) (logger : ℕ × List Text)
    → aiologger.level (aiologger.call method msg logger).1 ≡ aiologger.level logger
call-level method msg (n, lines) = elim (Bool-cases (leb n (rank method))) [
  | inl shown ↦ rw shown refl
  | inr hidden ↦ rw hidden refl
]

pub aiologger-IsLawful : IsLawful aiologger
aiologger-IsLawful = record {
  level-create = λ name n. refl;
  level-add_handler = λ h logger. refl;
  level-set_level = λ n logger. refl;
  level-call = call-level;
}

-- The delays of that world, all of them shorter than the timeouts.
abbrev pub sample_delays : Delays
sample_delays = record { slot = 0; connecting = 4; closing = 0; slack = 15 }

pub some_slots : HasSlots world.manager
unfolding create
some_slots = refl

pub world-IsPrompt : IsPrompt sample_delays 4 world
world-IsPrompt = (tt, tt, tt, tt, tt, tt, refl, refl, (refl, some_slots), omega arith)

pub default_policy-IsLonger : IsLonger sample_delays default_policy
default_policy-IsLonger = record {
  connecting = omega arith;
  reading = omega arith;
  writing = omega arith;
  whole = omega arith;
}
