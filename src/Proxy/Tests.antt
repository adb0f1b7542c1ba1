-- ===== src/Proxy/Tests.antt =====
-- Runs of the proxy, and its theorems at concrete connections.
use mini_nginx.Common.{◌≡◌, refl, some, ◌++◌, pos, false, arith}
use mini_nginx.Python.Text.{codes}
use mini_nginx.Limits.{create}
use mini_nginx.Net.{World, ok, raised, refused, wait}
use mini_nginx.Samples.{
  some_slots, sample_delays, default_policy-IsLonger, ascii, parsed, request, settings, local,
}
use mini_nginx.Timeouts.{wait_for, wait_for_total}
use mini_nginx.Proxy.Relay.{relay, begin}
use mini_nginx.Proxy.Exchange.{exchange, proxy_internal, proxy_to_upstream}
use mini_nginx.Proxy.Success.{Exchanged, proxy_to_upstream-Exchanged}
use mini_nginx.Proxy.Whole.{RelayEnds, relay-RelayEnds}
use mini_nginx.Proxy.Endings.{reply, answer, counted, proxy_internal-answers}
use mini_nginx.Proxy.Closing.{IsTidy, proxy_to_upstream-IsTidy}
use mini_nginx.Net.{timed_out}
use mini_nginx.Common.{none}
use mini_nginx.Timeouts.{default_policy, with_connect_timeout}
use mini_nginx.Proxy.Connect.{open_connection}
use mini_nginx.Proxy.Deadlines.{with_connect_timeout-open_connection}
use mini_nginx.Common.{ℕ, ℤ}
use mini_nginx.Net.Prompt.{IsPrompt}
use mini_nginx.Proxy.Prompt.{proxy_to_upstream-delivers}

abbrev served : World
served = (proxy_to_upstream settings request local parsed).1

served-ok : proxy_to_upstream settings request local parsed ≡ (ok (some (pos 201, 26)), served)
unfolding proxy_to_upstream create wait_for wait_for_total
served-ok = refl

proxy_to_upstream-Exchanged_example : Exchanged request 26 parsed served
proxy_to_upstream-Exchanged_example =
    proxy_to_upstream-Exchanged settings request local (pos 201) 26 parsed served served-ok

abbrev relayed : World
relayed = (relay 27 settings.timeout_policy local begin parsed).1

relayed-ok :
    relay 27 settings.timeout_policy local begin parsed
    ≡ (ok (record { response_status = pos 201; total_bytes = 26; first_chunk = false }), relayed)
unfolding relay wait_for wait
relayed-ok = refl

relay-RelayEnds_example :
    RelayEnds begin
      (record { response_status = pos 201; total_bytes = 26; first_chunk = false })
      parsed
      relayed
relay-RelayEnds_example =
    relay-RelayEnds settings.timeout_policy local 27 begin
      (record { response_status = pos 201; total_bytes = 26; first_chunk = false }) parsed relayed
      relayed-ok

-- The upstream refuses the connection.
abbrev shut : World
shut = record parsed { connection = (3, some (refused (codes "no"))) }

abbrev failed : World
failed = (exchange settings request local shut).1

failed-refused : exchange settings request local shut ≡ (raised (refused (codes "no")), failed)
unfolding exchange create wait_for
failed-refused = refl

proxy_internal-answers_example : reply (proxy_internal settings request local shut).1 ≡ (
  failed.client_out.written ++ answer request (refused (codes "no")),
  counted local (refused (codes "no")) failed.metrics,
)
proxy_internal-answers_example =
    proxy_internal-answers settings request local (refused (codes "no")) shut failed failed-refused

parsed-IsTidy : IsTidy parsed
parsed-IsTidy = λ h. cc

proxy_to_upstream-IsTidy_example : IsTidy served
proxy_to_upstream-IsTidy_example =
    proxy_to_upstream-IsTidy settings request local parsed parsed-IsTidy

-- A connection that takes longer than the connect timeout.
abbrev slow : World
slow = record parsed { connection = (1500, none) }

with_connect_timeout-open_connection_example :
    with_connect_timeout default_policy open_connection slow
    ≡ (raised timed_out, record slow { now = 1100; step_deadline = none })
with_connect_timeout-open_connection_example =
    with_connect_timeout-open_connection default_policy 1500 none slow refl (omega arith)
      (λ x h. cc)

parsed-IsPrompt : IsPrompt sample_delays 4 parsed
parsed-IsPrompt = (tt, tt, tt, tt, tt, tt, refl, refl, (refl, some_slots), omega arith)

proxy_to_upstream-delivers_example :
    (status : ℤ) × (total : ℕ) × (w' : World) × (proxy_to_upstream settings request local parsed
      ≡ (ok (some (status, total)), w'))
    × Exchanged request total parsed w'
proxy_to_upstream-delivers_example =
    proxy_to_upstream-delivers sample_delays settings local default_policy-IsLonger request parsed
      parsed-IsPrompt
