-- ===== src/Metrics.antt =====
-- The counters of the proxy (proxy/metrics.py). The module's global variables are the fields of a
-- record; its lock makes each `record_*` call one atomic step. Times are in milliseconds.
pub mod Totals
pub mod ByUpstream
pub mod Render
pub mod Sorting
pub mod Order
pub mod Service
mod Tests
use mini_nginx.Common.{
  ℕ, ◌+◌, ◌-◌, List, [], ◌∷◌, ◌++◌, ℤ, pos, if◌then◌else◌, ltb_ℤ, Eq, nat_eq, list_eq, Dict, insert,
  get_or,
}
use mini_nginx.Python.Text.{Text, codes}
use mini_nginx.Python.Number.{show_int}

pub record Metrics : Type 0 where
  pub requests_total : ℕ
  pub requests_parse_errors_total : ℕ
  pub response_total_by_class : Dict Text ℕ
  pub request_duration_sum : ℕ
  pub request_duration_count : ℕ
  pub bytes_sent_total : ℕ
  pub bytes_received_total : ℕ
  pub upstream_requests_total : Dict Text ℕ
  pub upstream_errors_total : Dict Text (Dict Text ℕ)
  pub timeout_errors_total : Dict Text ℕ

-- The values at import.
abbrev pub initial : Metrics
initial = record {
  requests_total = 0;
  requests_parse_errors_total = 0;
  response_total_by_class =
      (codes "2xx", 0) ∷ (codes "3xx", 0) ∷ (codes "4xx", 0) ∷ (codes "5xx", 0) ∷ [];
  request_duration_sum = 0;
  request_duration_count = 0;
  bytes_sent_total = 0;
  bytes_received_total = 0;
  upstream_requests_total = [];
  upstream_errors_total = [];
  timeout_errors_total =
      (codes "connect", 0) ∷ (codes "read", 0) ∷ (codes "write", 0) ∷ (codes "total", 0) ∷ [];
}

unfoldable pub status_class : ℤ → Text
status_class status =
    if ltb_ℤ status (pos 300)
    then codes "2xx"
    else if ltb_ℤ status (pos 400)
    then codes "3xx"
    else if ltb_ℤ status (pos 500)
    then codes "4xx"
    else codes "5xx"

unfoldable pub upstream_key : Text → ℤ → Text
upstream_key host port = host ++ b':' ∷ show_int port

-- `d[k] = d.get(k, 0) + 1`
abbrev pub bump {ℓ} : {K : Type ℓ} ⦃e : Eq K⦄ → K → Dict K ℕ → Dict K ℕ
bump k d = insert k (get_or d k 0 + 1) d

-- The start time is the second component.
unfoldable pub record_request_start : ℕ → Metrics → Metrics × ℕ
record_request_start now m = (record m { requests_total = m.requests_total + 1 }, now)

unfoldable pub record_request_done : ℕ → ℕ → ℤ → Text → ℤ → ℕ → Metrics → Metrics
record_request_done now start_time status host port bytes_sent m = record m {
  request_duration_sum = m.request_duration_sum + (now - start_time);
  request_duration_count = m.request_duration_count + 1;
  response_total_by_class = bump (status_class status) m.response_total_by_class;
  bytes_sent_total = m.bytes_sent_total + bytes_sent;
  upstream_requests_total = bump (upstream_key host port) m.upstream_requests_total;
}

unfoldable pub record_parse_error : Metrics → Metrics
record_parse_error m = record m { requests_parse_errors_total = m.requests_parse_errors_total + 1 }

unfoldable pub record_upstream_error : Text → ℤ → Text → Metrics → Metrics
record_upstream_error host port error_type m =
    let key = upstream_key host port in
    record m {
      upstream_errors_total =
          insert key (bump error_type (get_or m.upstream_errors_total key []))
            m.upstream_errors_total;
    }

unfoldable pub record_timeout_error : Text → Metrics → Metrics
record_timeout_error timeout_type m = record m {
  timeout_errors_total = bump timeout_type m.timeout_errors_total;
}

unfoldable pub record_response_status : ℤ → Metrics → Metrics
record_response_status status m = record m {
  response_total_by_class = bump (status_class status) m.response_total_by_class;
}
