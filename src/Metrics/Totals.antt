-- ===== src/Metrics/Totals.antt =====
-- What the counters add up to, over any sequence of the recording calls.
use mini_nginx.Common.{
  ℕ, ◌+◌, ◌≡◌, List, [], ◌∷◌, ℤ, arith, Eq, nat_eq, list_eq, Dict, insert, get_or,
}
use mini_nginx.Python.Text.{Text}
use mini_nginx.Metrics.{
  Metrics, initial, bump, record_request_start, record_request_done, record_parse_error,
  record_upstream_error, record_timeout_error, record_response_status, status_class, upstream_key,
}

-- A recording call.
pub data Event : Type 0 where
  request_start : (now : ℕ) → Event
  request_done : (now start_time : ℕ) (status : ℤ) (host : Text) (port : ℤ) (bytes : ℕ) → Event
  parse_error : Event
  upstream_error : (host : Text) (port : ℤ) (error_type : Text) → Event
  timeout_error : (timeout_type : Text) → Event
  response_status : (status : ℤ) → Event

abbrev pub apply : Event → Metrics → Metrics
apply (request_start now) m = (record_request_start now m).0
apply (request_done now start_time status host port bytes) m =
    record_request_done now start_time status host port bytes m
apply parse_error m = record_parse_error m
apply (upstream_error host port error_type) m = record_upstream_error host port error_type m
apply (timeout_error timeout_type) m = record_timeout_error timeout_type m
apply (response_status status) m = record_response_status status m

unfoldable pub run : List Event → Metrics → Metrics
run [] m = m
run (e ∷ es) m = run es (apply e m)

-- The sum of the values of a dict.
abbrev pub sum {ℓ} : {K : Type ℓ} → Dict K ℕ → ℕ
sum [] = 0
sum ((k, v) ∷ d) = v + sum d

-- The sum over both levels of a dict of dicts.
abbrev pub sum_all {ℓ κ} : {K : Type ℓ} {J : Type κ} → Dict K (Dict J ℕ) → ℕ
sum_all [] = 0
sum_all ((k, v) ∷ d) = sum v + sum_all d

module _ {ℓ} {K : Type ℓ} ⦃e : Eq K⦄ where
  pub sum-bump : (k : K) (d : Dict K ℕ) → sum (bump k d) ≡ sum d + 1
  sum-bump k [] = omega arith
  sum-bump k ((j, v) ∷ d) = ground (arith, sum-bump k d)

  pub sum_all-insert {κ} :
      {J : Type κ} (k : K) (v : Dict J ℕ) (d : Dict K (Dict J ℕ))
      → sum_all (insert k v d) + sum (get_or d k []) ≡ sum_all d + sum v
  sum_all-insert k v [] = omega arith
  sum_all-insert k v ((j, w) ∷ d) = ground (arith, sum_all-insert k v d)

-- How many events of each kind a sequence holds.
pub record Counts : Type 0 where
  pub starts : ℕ
  pub dones : ℕ
  pub parse_errors : ℕ
  pub upstream_errors : ℕ
  pub timeouts : ℕ
  pub statuses : ℕ
  pub bytes : ℕ

abbrev pub tally : Event → Counts → Counts
tally (request_start now) c = record c { starts = c.starts + 1 }
tally (request_done now start_time status host port n) c = record c {
  dones = c.dones + 1;
  bytes = c.bytes + n;
}
tally parse_error c = record c { parse_errors = c.parse_errors + 1 }
tally (upstream_error host port error_type) c = record c { upstream_errors = c.upstream_errors + 1 }
tally (timeout_error timeout_type) c = record c { timeouts = c.timeouts + 1 }
tally (response_status status) c = record c { statuses = c.statuses + 1 }

unfoldable pub count : List Event → Counts → Counts
count [] c = c
count (e ∷ es) c = count es (tally e c)

abbrev pub zeros : Counts
zeros = record {
  starts = 0;
  dones = 0;
  parse_errors = 0;
  upstream_errors = 0;
  timeouts = 0;
  statuses = 0;
  bytes = 0;
}

-- Each counter, or the sum of each family of counters, is the number of calls of its kind.
pub record Accounts (c : Counts) (m : Metrics) : Type 0 where
  pub requests : m.requests_total ≡ c.starts
  pub parsing : m.requests_parse_errors_total ≡ c.parse_errors
  pub durations : m.request_duration_count ≡ c.dones
  pub sent : m.bytes_sent_total ≡ c.bytes
  pub received : m.bytes_received_total ≡ 0
  pub served : sum m.upstream_requests_total ≡ c.dones
  pub responses : sum m.response_total_by_class ≡ c.dones + c.statuses
  pub timing : sum m.timeout_errors_total ≡ c.timeouts
  pub failing : sum_all m.upstream_errors_total ≡ c.upstream_errors

apply-Accounts :
    (e : Event) (c : Counts) (m : Metrics) → Accounts c m → Accounts (tally e c) (apply e m)
unfolding record_request_start record_request_done record_parse_error record_upstream_error
    record_timeout_error record_response_status
apply-Accounts (request_start now) c m a = ground arith
apply-Accounts (request_done now start_time status host port n) c m a = ground (
  arith,
  sum-bump (status_class status) m.response_total_by_class,
  sum-bump (upstream_key host port) m.upstream_requests_total,
)
apply-Accounts parse_error c m a = ground arith
apply-Accounts (upstream_error host port error_type) c m a =
    let key = upstream_key host port in
    let old = get_or m.upstream_errors_total key [] in
    ground (
      arith,
      sum-bump error_type old,
      sum_all-insert key (bump error_type old) m.upstream_errors_total,
    )
apply-Accounts (timeout_error timeout_type) c m a =
    ground (arith, sum-bump timeout_type m.timeout_errors_total)
apply-Accounts (response_status status) c m a =
    ground (arith, sum-bump (status_class status) m.response_total_by_class)

run-Accounts_from :
    (es : List Event) (c : Counts) (m : Metrics) → Accounts c m → Accounts (count es c) (run es m)
unfolding run count
run-Accounts_from [] c m a = a
run-Accounts_from (e ∷ es) c m a =
    run-Accounts_from es (tally e c) (apply e m) (apply-Accounts e c m a)

-- After any sequence of recording calls from the initial state every counter, and the sum of every
-- family of counters, is the number of calls of its kind: a finished request counts once as a
-- duration, once by its upstream and once by its status class; bytes add up; nothing is received.
pub run-Accounts : (es : List Event) → Accounts (count es zeros) (run es initial)
run-Accounts es = run-Accounts_from es zeros initial (omega arith)
