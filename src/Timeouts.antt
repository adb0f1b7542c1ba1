-- ===== src/Timeouts.antt =====
-- The timeout policy (proxy/timeouts.py). Times are whole milliseconds, where the code divides by
-- 1000.0 to hand seconds to `asyncio.wait_for`; a negative setting acts as zero does.
pub mod Laws
use mini_nginx.Common.{ℕ, ◌+◌, none, some, if◌then◌else◌, nat_beq}
use mini_nginx.Net.{
  World, Result, ok, raised, Exception, cancelled, timed_out, Io, Scope, step, total, outside,
}

pub record TimeoutPolicy : Type 0 where
  pub connect_ms : ℕ
  pub read_ms : ℕ
  pub write_ms : ℕ
  pub total_ms : ℕ

-- `DEFAULT_TIMEOUT_POLICY`
abbrev pub default_policy : TimeoutPolicy
default_policy = record { connect_ms = 1000; read_ms = 15000; write_ms = 15000; total_ms = 30000 }

-- A cancellation by the deadline of this `wait_for` comes out of it as a timeout.
abbrev pub expired_step : {A : Type 0} → Result A → Result A
expired_step (raised (cancelled step)) = raised timed_out
expired_step r = r

abbrev pub expired_total : {A : Type 0} → Result A → Result A
expired_total (raised (cancelled total)) = raised timed_out
expired_total r = r

-- `asyncio.wait_for`, round one operation and round the whole request. With no time at all the
-- operation does not begin.
unfoldable pub wait_for : {A : Type 0} → ℕ → Io A → Io A
wait_for limit m w =
    let (r, w') = m (record w { step_deadline = some (w.now + limit) }) in
    if nat_beq limit 0
    then (raised timed_out, w)
    else (expired_step r, record w' { step_deadline = none })

unfoldable pub wait_for_total : {A : Type 0} → ℕ → Io A → Io A
wait_for_total limit m w =
    let (r, w') = m (record w { total_deadline = some (w.now + limit) }) in
    if nat_beq limit 0
    then (raised timed_out, w)
    else (expired_total r, record w' { total_deadline = none })

-- The methods of the policy that give its times to `asyncio.wait_for`.
abbrev pub connect_timeout : TimeoutPolicy → ℕ
connect_timeout policy = policy.connect_ms

abbrev pub read_timeout : TimeoutPolicy → ℕ
read_timeout policy = policy.read_ms

abbrev pub write_timeout : TimeoutPolicy → ℕ
write_timeout policy = policy.write_ms

abbrev pub total_timeout : TimeoutPolicy → ℕ
total_timeout policy = policy.total_ms

module _ {A : Type 0} (policy : TimeoutPolicy) where
  abbrev pub with_connect_timeout : Io A → Io A
  with_connect_timeout m = wait_for (connect_timeout policy) m

  abbrev pub with_read_timeout : Io A → Io A
  with_read_timeout m = wait_for (read_timeout policy) m

  abbrev pub with_write_timeout : Io A → Io A
  with_write_timeout m = wait_for (write_timeout policy) m

  abbrev pub with_total_timeout : Io A → Io A
  with_total_timeout m = wait_for_total (total_timeout policy) m
