-- ===== src/Metrics/Render.antt =====
-- The Prometheus text of the counters (proxy/metrics.py, `_render_prometheus_sync`). The sum of the
-- durations is in whole milliseconds here, so its six decimals end in three zeros.
use mini_nginx.Common.{
  ℕ, ◌+◌, ◌/◌, ◌%◌, Bool, true, false, ◌&&◌, ◌||◌, List, [], ◌∷◌, ◌++◌, Dict, get_or, ltb,
  if◌then◌else◌, ◌==◌, nat_eq, list_eq,
}
use mini_nginx.Python.Text.{Text, codes}
use mini_nginx.Python.Number.{show_nat}
use mini_nginx.Metrics.{Metrics}

-- The order of texts, by their code points.
abbrev pub text_leb : Text → Text → Bool
text_leb [] t = true
text_leb (c ∷ s) [] = false
text_leb (c ∷ s) (d ∷ t) = ltb c d || (c == d && text_leb s t)

-- `sorted(d.items())`; since no key stands twice, only the keys are compared.
abbrev pub insert_sorted {ℓ} : {V : Type ℓ} → Text → V → Dict Text V → Dict Text V
insert_sorted k v [] = (k, v) ∷ []
insert_sorted k v ((j, w) ∷ d) =
    if text_leb k j then (k, v) ∷ (j, w) ∷ d else (j, w) ∷ insert_sorted k v d

unfoldable pub sorted {ℓ} : {V : Type ℓ} → Dict Text V → Dict Text V
sorted [] = []
sorted ((k, v) ∷ d) = insert_sorted k v (sorted d)

abbrev pub type_line : Text → Text → Text
type_line name kind = codes "# TYPE " ++ (name ++ b' ' ∷ kind)

abbrev pub counter_line : Text → Text
counter_line name = type_line name (codes "counter")

abbrev pub sample : Text → ℕ → Text
sample name value = name ++ b' ' ∷ show_nat value

abbrev pub quoted : Text → Text
quoted s = b'"' ∷ (s ++ codes "\"")

-- `{:.6f}` of whole milliseconds in seconds.
abbrev pub seconds : ℕ → Text
seconds ms =
    show_nat (ms / 1000)
    ++ b'.' ∷ (b'0' + ms / 100 % 10) ∷ (b'0' + ms / 10 % 10) ∷ (b'0' + ms % 10) ∷ codes "000"

-- The lines of a fixed family of labels.
unfoldable pub labelled : Text → Text → List Text → Dict Text ℕ → List Text
unfolding show_nat
labelled name label [] d = []
labelled name label (value ∷ values) d =
    sample (name ++ b'{' ∷ (label ++ b'=' ∷ (quoted value ++ codes "}"))) (get_or d value 0)
    ∷ labelled name label values d

unfoldable pub upstream_lines : Dict Text ℕ → List Text
unfolding show_nat
upstream_lines [] = []
upstream_lines ((key, value) ∷ d) =
    sample (codes "proxy_upstream_requests_total{upstream=" ++ (quoted key ++ codes "}")) value
    ∷ upstream_lines d

unfoldable pub type_lines : Text → Dict Text ℕ → List Text
unfolding show_nat
type_lines up [] = []
type_lines up ((kind, value) ∷ d) =
    sample
      (codes "proxy_upstream_errors_total{upstream="
        ++ (quoted up ++ (codes ",type=" ++ (quoted kind ++ codes "}"))))
      value
    ∷ type_lines up d

unfoldable pub error_lines : Dict Text (Dict Text ℕ) → List Text
unfolding type_lines sorted
error_lines [] = []
error_lines ((up, by_type) ∷ d) = type_lines up (sorted by_type) ++ error_lines d

-- `"\n".join(lines) + "\n"`
unfoldable pub end_lines : List Text → Text
end_lines [] = []
end_lines (line ∷ lines) = line ++ 10 ∷ end_lines lines

unfoldable pub render_lines : Metrics → List Text
unfolding labelled upstream_lines error_lines sorted
render_lines m =
    counter_line (codes "proxy_requests_total")
    ∷ sample (codes "proxy_requests_total") m.requests_total
    ∷ counter_line (codes "proxy_requests_parse_errors_total")
    ∷ sample (codes "proxy_requests_parse_errors_total") m.requests_parse_errors_total
    ∷ counter_line (codes "proxy_responses_total")
    ∷ (labelled (codes "proxy_responses_total") (codes "status_class")
          (codes "2xx" ∷ codes "3xx" ∷ codes "4xx" ∷ codes "5xx" ∷ []) m.response_total_by_class
        ++ type_line (codes "proxy_request_duration_seconds") (codes "summary")
          ∷ (codes "proxy_request_duration_seconds_sum " ++ seconds m.request_duration_sum)
          ∷ sample (codes "proxy_request_duration_seconds_count") m.request_duration_count
          ∷ counter_line (codes "proxy_bytes_sent_total")
          ∷ sample (codes "proxy_bytes_sent_total") m.bytes_sent_total
          ∷ counter_line (codes "proxy_upstream_requests_total")
          ∷ (upstream_lines (sorted m.upstream_requests_total)
              ++ counter_line (codes "proxy_upstream_errors_total")
                ∷ (error_lines (sorted m.upstream_errors_total)
                    ++ counter_line (codes "proxy_timeout_errors_total")
                      ∷ labelled (codes "proxy_timeout_errors_total") (codes "type")
                          (codes "connect" ∷ codes "read" ∷ codes "write" ∷ codes "total" ∷ [])
                          m.timeout_errors_total)))

unfoldable pub render : Metrics → Text
unfolding render_lines end_lines
render m = end_lines (render_lines m)
