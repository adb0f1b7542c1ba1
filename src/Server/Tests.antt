-- ===== src/Server/Tests.antt =====
-- Runs of a client's connection, and the theorems at them.
use mini_nginx.Common.{
  negsuc, sym, ◌∙◌, nat_eq, list_eq, List, pos, ◌*◌, ◌+◌, get_or, arith, ap, none, [], ◌∷◌, ◌++◌,
  ◌≡◌, refl, some, true,
}
use mini_nginx.Python.Text.{Text, codes, split, strip, lower, split_once}
use mini_nginx.Python.Utf8.{decode, encode}
use mini_nginx.Handler.Lines.{store_header, drop_crlf}
use mini_nginx.Handler.Segments.{scan}
use mini_nginx.Handler.Requests.{headers_from}
use mini_nginx.Pool
use mini_nginx.Pool.{Upstream, UpstreamPool, get_next}
use mini_nginx.Pool.Fairness.{repeat}
use mini_nginx.Metrics.ByUpstream.{times}
use mini_nginx.Server.Spread.{
  Client, IsServable, AreDelivered, Spread, serve_clients, serve_clients-rounds,
}
use mini_nginx.Limits.Semaphores.{IsFree, IsSame, semaphore_of_lem}
use mini_nginx.Server.Restoring.{serve_clients-IsSame}
use mini_nginx.Limits.{semaphore, acquire, create}
use mini_nginx.Net.{World, arrived, refused, ok}
use mini_nginx.Handler.Results.{parse_bytes}
use mini_nginx.Net.Reading.{content}
use mini_nginx.Server.Whole.{Delivered, client_connected-Delivered}
use mini_nginx.Samples.{
  some_slots, ascii, world, world-IsPrompt, sample_delays, default_policy-IsLonger, parsed, request,
  local,
}
use mini_nginx.Samples
use mini_nginx.Timeouts.{default_policy}
use mini_nginx.Metrics.{record_upstream_error, record_response_status, record_parse_error}
use mini_nginx.Proxy.Exchange.{error_response}
use mini_nginx.Proxy.Endings.{answer, counted}
use mini_nginx.Proxy.Unconnected.{IsError}
use mini_nginx.Server.Failing.{
  Ended, begun, client_connected-rejects, client_connected-answers, client_connected-refuses,
}
use mini_nginx.Server.{enter_client, serve_request, client_connected}
use mini_nginx.Server.Counting.{Served, serve_request-Served}
use mini_nginx.Server.Slots.{client_connected-closes, client_connected-restores}

turn : get_next parsed.pool ≡ some (local, parsed.pool)
unfolding get_next
turn = refl

serve_request-Served_example :
    Served parsed.pool parsed
      (serve_request Samples.settings (some request) parsed).0
      (serve_request Samples.settings (some request) parsed).1
serve_request-Served_example =
    serve_request-Served Samples.settings request local parsed.pool parsed turn

free : (acquire 0 world.manager.client_semaphore).0 ≡ true
unfolding acquire create
free = refl

entered : enter_client world ≡ (ok tt, (enter_client world).1)
unfolding enter_client create
entered = refl

client_connected-closes_example :
    (client_connected (some default_policy) (codes "t1") world).1.client_out.closed ≡ true
client_connected-closes_example =
    client_connected-closes default_policy (codes "t1") world (enter_client world).1 entered

client_connected-restores_example :
    (client_connected (some default_policy) (codes "t1") world).1.manager.client_semaphore
    ≡ world.manager.client_semaphore
client_connected-restores_example = client_connected-restores default_policy (codes "t1") world free

parsed_first : parse_bytes (codes "t1") (content world.client_in) ≡ (some request, codes "hi")
unfolding scan split store_header split_once strip lower drop_crlf decode headers_from
parsed_first = refl

client_connected-Delivered_example :
    Delivered request
      (codes "hi")
      local
      world.pool
      world
      (client_connected (some default_policy) (codes "t1") world).1
client_connected-Delivered_example =
    client_connected-Delivered default_policy sample_delays default_policy-IsLonger (codes "t1")
      request (codes "hi") local world.pool world world-IsPrompt
      (record { no_step = refl; no_total = refl }) free parsed_first turn

-- A stream whose first line has two words.
abbrev unreadable : World
unreadable = record world {
  client_in = record { buffer = []; arrivals = (1, arrived (codes "GET /" ++ 10 ∷ [])) ∷ [] };
}

no_request_in : (parse_bytes (codes "t1") (content unreadable.client_in)).0 ≡ none
unfolding scan split store_header split_once strip lower drop_crlf decode headers_from
no_request_in = refl

client_connected-rejects_example :
    Ended [] unreadable.pool
      (record_parse_error unreadable.metrics)
      unreadable
      (client_connected (some default_policy) (codes "t1") unreadable).1
client_connected-rejects_example =
    client_connected-rejects default_policy (codes "t1") unreadable
      (record { no_step = refl; no_total = refl }) tt free no_request_in

-- An upstream that refuses the connection, after a wait for a slot.
abbrev refusing : World
refusing = record world { connection = (4, some (refused (codes "no"))); upstream_slot_wait = 7 }

read_first : (parse_bytes (codes "t1") (content refusing.client_in)).0 ≡ some request
read_first = ap (λ q. q.0) parsed_first

refused-IsError : IsError (refused (codes "no"))
refused-IsError s e = cc

client_connected-answers_example :
    Ended
      (answer request (refused (codes "no")))
      refusing.pool
      (counted local (refused (codes "no")) (begun refusing.metrics))
      refusing
      (client_connected (some default_policy) (codes "t1") refusing).1
client_connected-answers_example =
    client_connected-answers default_policy (codes "t1") request local refusing.pool
      (refused (codes "no")) refusing (record { no_step = refl; no_total = refl }) tt free
      read_first turn refused-IsError (omega arith) some_slots (omega arith) refl

-- A negative limit of the connections to an upstream.
abbrev negative : World
negative = record world {
  manager = record world.manager {
    limits = record { max_client_conns = 1000; max_conns_per_upstream = negsuc 0 };
  };
}

none_known : negative.manager.upstream_semaphores ≡ []
unfolding create
none_known = refl

client_connected-refuses_example :
    Ended
      (encode (
        error_response
          (codes "HTTP/1.1")
          (codes "502 Bad Gateway")
          (codes "Upstream error: Semaphore initial value must be >= 0")))
      negative.pool
      (record_upstream_error local.host local.port
        (codes "other")
        (record_response_status (pos 502) (begun negative.metrics)))
      negative
      (client_connected (some default_policy) (codes "t1") negative).1
client_connected-refuses_example =
    client_connected-refuses default_policy (codes "t1") request local negative.pool 0 negative
      (record { no_step = refl; no_total = refl }) tt free read_first turn refl none_known
      (omega arith)

-- Two upstreams, and two clients one after the other.
abbrev two_upstreams : List Upstream
two_upstreams = local ∷ record { host = codes "localhost"; port = pos 9002 } ∷ []

abbrev two_pool : UpstreamPool
two_pool = record { upstreams = two_upstreams; current_index = 0 }

two_pool_created : Pool.create two_upstreams ≡ some two_pool
unfolding Pool.create
two_pool_created = refl

abbrev two_world : World
two_world = record world { pool = two_pool }

abbrev client : Client
client = record {
  client_in = world.client_in;
  client_out = world.client_out;
  connection = world.connection;
  upstream_in = world.upstream_in;
  upstream_out = world.upstream_out;
  upstream_slot_wait = 0;
  trace_id = codes "t1";
}

client-IsServable : IsServable sample_delays client
client-IsServable = record {
  request = request;
  read = ap (λ q. q.0) parsed_first;
  from_client = tt;
  from_upstream = tt;
  to_client = tt;
  to_upstream = tt;
  connecting = refl;
  closing = refl;
  slot = refl;
  slack = omega arith;
}

serve_clients-rounds_example :
    AreDelivered default_policy (client ∷ client ∷ []) (repeat 1 two_upstreams) two_world
    × Spread default_policy 2
        (repeat 1 two_upstreams)
        two_pool
        two_world
        (serve_clients default_policy (client ∷ client ∷ []) two_world)
    × ((key : Text)
        → get_or
            (serve_clients default_policy
              (client ∷ client ∷ [])
              two_world).metrics.upstream_requests_total
            key
            0
          ≡ 0 + 1 * times key two_upstreams)
serve_clients-rounds_example =
    serve_clients-rounds default_policy sample_delays default_policy-IsLonger two_upstreams 1
      (client ∷ client ∷ []) two_world two_pool_created (omega arith)
      (client-IsServable, (client-IsServable, tt)) some_slots free

world-IsFree : IsFree world.manager
unfolding acquire create
world-IsFree = record {
  clients = refl;
  upstreams = λ upstream sem e.
      let both : some (semaphore 100) ≡ some sem =
        sym (semaphore_of_lem upstream world.manager) ∙ e in
      let equal : semaphore 100 ≡ sem = cc in ap (λ s. (acquire 0 s).0) (sym equal);
}

-- One that sends no request, one whose upstream refuses, and one that is served.
abbrev mixed : List Client
mixed =
    record client { client_in = unreadable.client_in }
    ∷ record client { connection = refusing.connection }
    ∷ client
    ∷ []

serve_clients-IsSame_example :
    IsSame world.manager (serve_clients default_policy mixed world).manager
serve_clients-IsSame_example = serve_clients-IsSame default_policy mixed world world-IsFree
