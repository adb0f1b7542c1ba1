-- ===== src/Proxy/Giving.antt =====
-- The slot of an upstream's semaphore is given back.
use mini_nginx.Common.{
  ◌≡◌, refl, ap, ◌∙◌, true, none, some, arith, if◌then◌else◌, lookup, insert, insert-restores,
  lookup-insert, nat_eq, list_eq, int_eq, pair_eq, ==_refl,
}
use mini_nginx.Pool.{Upstream}
use mini_nginx.Limits.{
  Semaphore, ConnectionLimitManager, acquire, release, upstream_connection, upstream_key,
}
use mini_nginx.Limits.Manager.{Returns, Outcome-Returns, upstream_connection-Returns}
use mini_nginx.Net.{World, Result, Io, ok, raised, modify, ◌>>◌, finally}
use mini_nginx.Net.Binds.{>>=-ok, >>=-raised}
use mini_nginx.Net.Frames.{Fixes, after-world}
use mini_nginx.Timeouts.{wait_for}
use mini_nginx.Timeouts.Laws.{Fixes-wait_for}
use mini_nginx.Proxy.Connect.{
  no_semaphore, give_back, with_semaphore, get_semaphore, put_semaphore, wait_for_slot, Settings,
  enter_slot, leave_slot, open_connection, open_limited,
}
use mini_nginx.Proxy.Slots.{Fixes-open_connection}

pub acquire-release :
    (sem : Semaphore) → (acquire 0 sem).0 ≡ true → (release (acquire 0 sem).1).1 ≡ sem
unfolding acquire release
acquire-release sem granted = ground arith

-- The manager with one semaphore replaced.
abbrev put : Upstream → Semaphore → ConnectionLimitManager → ConnectionLimitManager
put upstream sem m = record m {
  upstream_semaphores = insert (upstream_key upstream) sem m.upstream_semaphores;
}

lookup-put :
    (upstream : Upstream) (sem : Semaphore) (m : ConnectionLimitManager)
    → lookup (upstream_key upstream) (put upstream sem m).upstream_semaphores ≡ some sem
lookup-put upstream sem m = ground (
  arith,
  lookup-insert (upstream_key upstream) (upstream_key upstream) sem m.upstream_semaphores,
  ==_refl (upstream_key upstream),
)

-- Leaving a slot that has been taken puts the manager back.
leave_slot-restores :
    (upstream : Upstream) (sem : Semaphore) (m : ConnectionLimitManager) (w : World)
    → (acquire 0 sem).0 ≡ true
    → lookup (upstream_key upstream) m.upstream_semaphores ≡ some sem
    → w.manager ≡ put upstream (acquire 0 sem).1 m
    → (leave_slot upstream w).1.manager ≡ m
unfolding leave_slot
leave_slot-restores upstream sem m w granted stored now =
    let taken : Semaphore = (acquire 0 sem).1 in
    let found : lookup (upstream_key upstream) w.manager.upstream_semaphores ≡ some taken =
      ap (λ (n : ConnectionLimitManager). lookup (upstream_key upstream) n.upstream_semaphores) now
      ∙ lookup-put upstream taken m in
    ap (λ o. (give_back upstream o w).manager) found
    ∙ ap (λ n. put upstream (release taken).1 n) now
    ∙ ap (λ s. put upstream s (put upstream taken m)) (acquire-release sem granted)
    ∙ ap (λ d. record m { upstream_semaphores = d })
        (insert-restores (upstream_key upstream) taken sem m.upstream_semaphores stored)

-- Entering a slot that is free takes it at once.
enter_slot-granted :
    (upstream : Upstream) (sem : Semaphore) (m : ConnectionLimitManager) (w : World)
    → upstream_connection upstream w.manager ≡ some (sem, m)
    → (acquire 0 sem).0 ≡ true
    → enter_slot upstream w ≡ (ok tt, record w { manager = put upstream (acquire 0 sem).1 m })
unfolding enter_slot
enter_slot-granted upstream sem m w e granted =
    >>=-ok (get_semaphore upstream)
      (λ s.
        if (acquire 0 s).0 then modify (put_semaphore upstream (acquire 0 s).1) else wait_for_slot)
      w (ap (λ o. with_semaphore o w) e)
    ∙ ap
        (λ b.
          (if b then modify (put_semaphore upstream (acquire 0 sem).1) else wait_for_slot)
            (record w { manager = m }))
        granted

module _ (settings : Settings) (upstream : Upstream) (limited : settings.limited ≡ true) where
  abbrev opening : Io (Unit {0})
  opening = wait_for settings.timeout_policy.connect_ms open_connection

  open_limited-limited :
      (w : World)
      → open_limited settings upstream w
        ≡ (enter_slot upstream >> finally opening (leave_slot upstream)) w
  unfolding open_limited
  open_limited-limited w =
      ap
        (λ b.
          (if b then enter_slot upstream >> finally opening (leave_slot upstream) else opening) w)
        limited

  -- A connection attempt that has found a free slot of its upstream's semaphore gives that slot back,
  -- however it ends: the limits are then as the look-up of the semaphore has left them.
  pub open_limited-restores :
      (w : World) (sem : Semaphore) (m : ConnectionLimitManager)
      → upstream_connection upstream w.manager ≡ some (sem, m)
      → (acquire 0 sem).0 ≡ true
      → (open_limited settings upstream w).1.manager ≡ m
  open_limited-restores w sem m e granted =
      let uses : Returns upstream w.manager sem m =
        Outcome-Returns sem m e (upstream_connection-Returns upstream w.manager) in
      let entered : World = record w { manager = put upstream (acquire 0 sem).1 m } in
      let closing : Result (Unit {0}) × World = leave_slot upstream (opening entered).1 in
      let fixes : Fixes (λ v. v.manager) opening =
        Fixes-wait_for (λ v. v.manager) (λ v t s d. refl) settings.timeout_policy.connect_ms
          open_connection (Fixes-open_connection (λ v. v.manager) (λ v t s d. refl)) in
      ap (λ p. p.1.manager) (open_limited-limited w)
      ∙ ap (λ p. p.1.manager)
          (>>=-ok (enter_slot upstream) (λ z. finally opening (leave_slot upstream)) w
            (enter_slot-granted upstream sem m w e granted))
      ∙ ap (λ (v : World). v.manager) (after-world (λ x. x) (opening entered).0 closing.0 closing.1)
      ∙ leave_slot-restores upstream sem m (opening entered).1 granted uses.stored (fixes entered)

  -- Without a semaphore there is no attempt: the error of its making is raised, and nothing is changed.
  pub open_limited-refused :
      (w : World)
      → upstream_connection upstream w.manager ≡ none
      → open_limited settings upstream w ≡ (raised no_semaphore, w)
  unfolding enter_slot
  open_limited-refused w e =
      open_limited-limited w
      ∙ >>=-raised (enter_slot upstream) (λ z. finally opening (leave_slot upstream)) w
          (>>=-raised (get_semaphore upstream)
            (λ s.
              if (acquire 0 s).0
              then modify (put_semaphore upstream (acquire 0 s).1)
              else wait_for_slot)
            w (ap (λ o. with_semaphore o w) e))
