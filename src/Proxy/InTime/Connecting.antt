-- ===== src/Proxy/InTime/Connecting.antt =====
-- On a network that is quick enough an upstream is connected to and read from.
use mini_nginx.Common.{
  Option, none, some, ◌∙◌, ap, lookup, nat_eq, list_eq, int_eq, pair_eq, subst, ℕ, ◌+◌, refl, sym,
  Bool, true, false, if◌then◌else◌,
}
use mini_nginx.Pool.{Upstream}
use mini_nginx.Proxy.Slots.{get_semaphore-Got}
use mini_nginx.Limits.{upstream_key, Semaphore, acquire}
use mini_nginx.Net.{hang, World, Io, ◌>>◌, modify, catch, finally, wait, upstream_read}
use mini_nginx.Net.Binds.{>>=-ok, catch-ok}
use mini_nginx.Net.Prompt.{Delays, IsPrompt, IsPrompt-less, Succeeds, Succeeds->>=, wait-Succeeds}
use mini_nginx.Net.Prompt.Streams.{upstream_read-Succeeds}
use mini_nginx.Timeouts.{wait_for}
use mini_nginx.Proxy.Connect.{
  Settings, give_back, wait_for_slot, put_semaphore, get_semaphore, enter_slot, leave_slot,
  open_connection, open_limited, count_connect_error, connect,
}
use mini_nginx.Proxy.Relay.{count_read_error, read_chunk}
use mini_nginx.Proxy.InTime.{
  IsLonger, wait_for-Succeeds, open_connection-Succeeds, finally-Succeeds,
}

module _ (t : Delays) (b : ℕ) (upstream : Upstream) where
  granted_or_waits :
      (granted : Bool) (sem : Semaphore) (w : World)
      → IsPrompt t (t.slot + b) w
      → Succeeds t b (if granted then modify (put_semaphore upstream sem) else wait_for_slot) w
  granted_or_waits true sem w p =
      (tt, put_semaphore upstream sem w, refl, IsPrompt-less t t.slot b w p)
  granted_or_waits false sem w p =
      let d : ℕ = w.upstream_slot_wait in
      let (a, v, e, q) = wait-Succeeds t d b w (subst (λ d. IsPrompt t (d + b) w) (sym p.8.0) p) in
      (a, v, ap (λ some_slot. (if some_slot then wait d else hang) w) p.8.1 ∙ e, q)

  enter_slot-Succeeds :
      (w : World) → IsPrompt t (t.slot + b) w → Succeeds t b (enter_slot upstream) w
  unfolding enter_slot
  enter_slot-Succeeds w p =
      let (sem, d, e) = get_semaphore-Got upstream w p.8.1 in
      let v : World = record w { manager = record w.manager { upstream_semaphores = d } } in
      let (a, x, e', q) = granted_or_waits (acquire 0 sem).0 (acquire 0 sem).1 v p in
      (
        a,
        x,
        >>=-ok (get_semaphore upstream)
              (λ s.
                if (acquire 0 s).0
                then modify (put_semaphore upstream (acquire 0 s).1)
                else wait_for_slot)
              w e
            ∙ e',
        q,
      )

  give_back-IsPrompt :
      (o : Option Semaphore) (w : World) → IsPrompt t b w → IsPrompt t b (give_back upstream o w)
  give_back-IsPrompt none w p = p
  give_back-IsPrompt (some sem) w p = p

  leave_slot-Succeeds : (w : World) → IsPrompt t b w → Succeeds t b (leave_slot upstream) w
  unfolding leave_slot
  leave_slot-Succeeds w p =
      let o : Option Semaphore = lookup (upstream_key upstream) w.manager.upstream_semaphores in
      (tt, give_back upstream o w, refl, give_back-IsPrompt o w p)

module _ (t : Delays) (b : ℕ) (settings : Settings) (upstream : Upstream)
    (longer : IsLonger t settings.timeout_policy) where
  opening-Succeeds :
      (w : World)
      → IsPrompt t (t.connecting + b) w
      → Succeeds t b (wait_for settings.timeout_policy.connect_ms open_connection) w
  opening-Succeeds w p =
      wait_for-Succeeds t (t.connecting + b) b settings.timeout_policy.connect_ms open_connection w
        longer.connecting p (λ v same q. open_connection-Succeeds t b v q)

  limited-Succeeds :
      (limited : Bool) (w : World)
      → IsPrompt t (t.slot + (t.connecting + b)) w
      → Succeeds t b
          (if limited
            then enter_slot upstream
              >> finally
                  (wait_for settings.timeout_policy.connect_ms open_connection)
                  (leave_slot upstream)
            else wait_for settings.timeout_policy.connect_ms open_connection)
          w
  limited-Succeeds false w p = opening-Succeeds w (IsPrompt-less t t.slot (t.connecting + b) w p)
  limited-Succeeds true w p =
      let opening : Io (Unit {0}) = wait_for settings.timeout_policy.connect_ms open_connection in
      Succeeds->>= t (t.connecting + b) b (enter_slot upstream)
        (λ x. finally opening (leave_slot upstream)) w
        (enter_slot-Succeeds t (t.connecting + b) upstream w p)
        (λ x v e q.
          finally-Succeeds t b b opening (leave_slot upstream) v (opening-Succeeds v q)
            (leave_slot-Succeeds t b upstream))

  pub connect-Succeeds :
      (w : World)
      → IsPrompt t (t.slot + (t.connecting + b)) w
      → Succeeds t b (connect settings upstream) w
  unfolding connect open_limited
  connect-Succeeds w p =
      let (a, v, e, q) = limited-Succeeds settings.limited w p in
      (
        tt,
        record v { connected = true },
        >>=-ok (catch (open_limited settings upstream) (count_connect_error upstream))
            (λ x. modify (λ y. record y { connected = true })) w
            (catch-ok (open_limited settings upstream) (count_connect_error upstream) w e),
        q,
      )

  pub read_chunk-Succeeds :
      (w : World) → IsPrompt t b w → Succeeds t b (read_chunk settings.timeout_policy upstream) w
  unfolding read_chunk
  read_chunk-Succeeds w p =
      let (a, v, e, q) =
        wait_for-Succeeds t b b settings.timeout_policy.read_ms (upstream_read 8192) w
          longer.reading p (λ v same q. upstream_read-Succeeds t b 8192 v q) in
      (
        a,
        v,
        catch-ok (wait_for settings.timeout_policy.read_ms (upstream_read 8192))
            (count_read_error upstream) w e,
        q,
      )
