-- ===== src/Metrics/Tests.antt =====
-- A run of the counters, and their theorem at it.
use mini_nginx.Net.{World, arrived}
use mini_nginx.Net.Reading.{content}
use mini_nginx.Net.Readline.{first_line}
use mini_nginx.Samples.{world}
use mini_nginx.Metrics.Service.{request_path, metrics_handler}
use mini_nginx.Metrics.Service.Laws.{sent, metrics_handler-answers}
use mini_nginx.Metrics.{Metrics}
use mini_nginx.Metrics.Render.{sorted, upstream_lines, render}
use mini_nginx.Metrics.Sorting.{swapped}
use mini_nginx.Metrics.Order.{render-order}
use mini_nginx.Python.Text.{Text}
use mini_nginx.Common.{
  ℕ, ◌++◌, arith, ◌≢◌, false, true, none, ==_iff, nat_eq, list_eq, Dict, lookup, ◌≡◌, refl, List,
  [], ◌∷◌, pos,
}
use mini_nginx.Python.Text.{codes}
use mini_nginx.Metrics.{
  initial, record_request_start, record_request_done, record_upstream_error, record_timeout_error,
  record_response_status, record_parse_error, status_class,
}
use mini_nginx.Metrics.Totals.{
  Event, request_start, request_done, parse_error, timeout_error, response_status, run, count,
  zeros, Accounts, run-Accounts,
}

-- One request that is answered, one that is not, and one that is not parsed.
abbrev calls : List Event
calls =
    request_start 10
    ∷ request_done 35 10 (pos 200) (codes "127.0.0.1") (pos 9001) 512
    ∷ request_start 40
    ∷ response_status (pos 504)
    ∷ timeout_error (codes "total")
    ∷ parse_error
    ∷ []

run-Accounts_example : Accounts (count calls zeros) (run calls initial)
run-Accounts_example = run-Accounts calls

calls_duration : (run calls initial).request_duration_sum ≡ 25
unfolding run record_request_start record_request_done record_upstream_error record_timeout_error
    record_response_status record_parse_error status_class
calls_duration = refl

calls_by_class :
    (run calls initial).response_total_by_class
    ≡ (codes "2xx", 1) ∷ (codes "3xx", 0) ∷ (codes "4xx", 0) ∷ (codes "5xx", 1) ∷ []
unfolding run record_request_start record_request_done record_upstream_error record_timeout_error
    record_response_status record_parse_error status_class
calls_by_class = refl

-- Two upstreams, met in one order and in the other.
abbrev first_order : Dict Text ℕ
first_order = (codes "10.0.0.2:80", 2) ∷ (codes "10.0.0.1:80", 1) ∷ []

abbrev other_order : Dict Text ℕ
other_order = (codes "10.0.0.1:80", 1) ∷ (codes "10.0.0.2:80", 2) ∷ []

abbrev loaded : Metrics
loaded = record initial { upstream_requests_total = first_order }

different : codes "10.0.0.1:80" ≢ codes "10.0.0.2:80"
different e =
    let h : false ≡ true = (==_iff (codes "10.0.0.1:80") (codes "10.0.0.2:80")).1 e in cc h

same_entries : (key : Text) → lookup key other_order ≡ lookup key first_order
same_entries key = swapped (codes "10.0.0.2:80") (codes "10.0.0.1:80") key 2 1 none different

render-order_example :
    render (record loaded { upstream_requests_total = other_order; upstream_errors_total = [] })
    ≡ render loaded
render-order_example =
    render-order loaded other_order [] (refl, (refl, tt)) (refl, (refl, tt)) same_entries tt tt
      (λ key. refl)

loaded_lines :
    upstream_lines (sorted first_order)
    ≡ codes "proxy_upstream_requests_total{upstream=\"10.0.0.1:80\"} 1"
      ∷ codes "proxy_upstream_requests_total{upstream=\"10.0.0.2:80\"} 2"
      ∷ []
unfolding upstream_lines sorted
loaded_lines = refl

-- A request for the metrics, in two parts.
abbrev scraped : World
scraped = record world {
  client_in = record {
    buffer = [];
    arrivals =
        (1, arrived (codes "GET /met"))
        ∷ (
          2,
          arrived
              (codes "rics?a=1 HTTP/1.1" ++ 13 ∷ 10 ∷ codes "Host: a" ++ 13 ∷ 10 ∷ 13 ∷ 10 ∷ []),
        )
        ∷ [];
  };
}

metrics_handler-answers_example :
    let w' = (metrics_handler scraped).1 in
    (w'.client_out.closed ≡ true)
    × (w'.metrics ≡ scraped.metrics)
    × (w'.client_out.written ≡ [] ++ sent (content scraped.client_in) scraped.metrics)
metrics_handler-answers_example =
    metrics_handler-answers scraped (record { no_step = refl; no_total = refl }) tt (omega arith)

scraped_path : request_path (first_line (content scraped.client_in)).0 ≡ codes "/metrics"
unfolding request_path first_line
scraped_path = refl

other_path : request_path (codes "GET /metrics/ HTTP/1.1") ≡ codes "/metrics/"
unfolding request_path
other_path = refl
