-- ===== src/Limits/Waiting.antt =====
-- A client that waits for a slot gets one (`async with cfg.connection_limits.client_connection()`).
use mini_nginx.Common.{
  ℕ, zero, suc, ◌+◌, ◌<◌, ◌≤◌, ◌≡◌, ◌≢◌, ◌⊎◌, inl, inr, refl, sym, ap, ◌∙◌, Bool-cases, List, [],
  ◌∷◌, ◌++◌, append_assoc, arith, length, ◌==◌, nat_eq,
}
use mini_nginx.Limits.{acquire, release}
use mini_nginx.Limits.Queue.{remove, count}
use mini_nginx.Limits.Clients.{
  Gate, enter, leave, give_up, enters, leaves, gives_up, Reach, here, next,
}

-- How many clients leave in a run.
abbrev pub departures : {g h : Gate} → Reach g h → ℕ
departures here = 0
departures (next r (enters other)) = departures r
departures (next r (leaves other k)) = departures r + 1
departures (next r (gives_up other k)) = departures r

-- The task is not cancelled in the run.
abbrev pub Stays : ℕ → {g h : Gate} → Reach g h → Type 0
Stays task here = Unit
Stays task (next r (enters other)) = Stays task r
Stays task (next r (leaves other k)) = Stays task r
Stays task (next r (gives_up other k)) = (other ≢ task) × Stays task r

-- At some moment of the run the task is inside.
abbrev pub Entered : ℕ → {g h : Gate} → Reach g h → Type 0
Entered task here = ⊥
Entered task (next {h} {k} r s) = Entered task r ⊎ (count task k.inside ≢ 0)

-- The task still waits, with at most `n` tasks before it.
abbrev Queued : ℕ → ℕ → Gate → Type 0
Queued task n g =
    (before : List ℕ) × (after : List ℕ) × (g.sem.waiters ≡ before ++ task ∷ after)
    × (length before ≤ n)

enter-waiters :
    (other : ℕ) (g : Gate)
    → ((enter other g).sem.waiters ≡ g.sem.waiters)
      ⊎ ((enter other g).sem.waiters ≡ g.sem.waiters ++ other ∷ [])
unfolding enter acquire
enter-waiters other g = ground arith

enter-Queued : (task other n : ℕ) (g : Gate) → Queued task n g → Queued task n (enter other g)
enter-Queued task other n g (before, after, e, h) = elim (enter-waiters other g) [
  | inl same ↦ (before, after, same ∙ e, h)
  | inr longer ↦ (
    before,
    after ++ other ∷ [],
    longer ∙ ap (λ xs. xs ++ other ∷ []) e ∙ append_assoc before (task ∷ after) (other ∷ []),
    h,
  )
]

leave-first :
    (other first : ℕ) (tasks : List ℕ) (g : Gate)
    → g.sem.waiters ≡ first ∷ tasks
    → ((leave other g).sem.waiters ≡ tasks)
      × ((leave other g).inside ≡ first ∷ remove other g.inside)
unfolding leave release
leave-first other first tasks g e = (ground arith, ground arith)

first-counted : (task : ℕ) (tasks : List ℕ) → count task (task ∷ tasks) ≢ 0
first-counted task tasks = ground arith

leave-front :
    (task other : ℕ) (after : List ℕ) (g : Gate)
    → g.sem.waiters ≡ task ∷ after
    → count task (leave other g).inside ≢ 0
leave-front task other after g e none_left =
    first-counted task (remove other g.inside)
      (ap (count task) (sym (leave-first other task after g e).1) ∙ none_left)

leave-last : (task other : ℕ) (g : Gate) → Queued task 0 g → count task (leave other g).inside ≢ 0
leave-last task other g ([], after, e, h) = leave-front task other after g e
leave-last task other g (x ∷ before, after, e, h) = absurd (omega arith)

leave-Queued :
    (task other n : ℕ) (g : Gate)
    → Queued task (suc n) g
    → (count task (leave other g).inside ≢ 0) ⊎ Queued task n (leave other g)
leave-Queued task other n g ([], after, e, h) = inl (leave-front task other after g e)
leave-Queued task other n g (first ∷ before, after, e, h) =
    inr (before, after, (leave-first other first (before ++ task ∷ after) g e).0, omega arith)

remove-around :
    (task other : ℕ) (before after : List ℕ)
    → other ≢ task
    → (before' : List ℕ) × (after' : List ℕ) × (remove other (before ++ task ∷ after)
        ≡ before' ++ task ∷ after')
      × (length before' ≤ length before)
remove-around task other [] after h = ([], remove other after, ground arith, omega arith)
remove-around task other (x ∷ before) after h = elim (Bool-cases (x == other)) [
  | inl same ↦ (before, after, rw same refl, omega arith)
  | inr different ↦
      let (before', after', e, le) = remove-around task other before after h in
      (x ∷ before', after', rw different (ap (λ xs. x ∷ xs) e), omega (arith, le))
]

give_up-Queued :
    (task other n : ℕ) (g : Gate) → other ≢ task → Queued task n g → Queued task n (give_up other g)
unfolding give_up
give_up-Queued task other n g ne (before, after, e, h) =
    let (before', after', same, le) = remove-around task other before after ne in
    (before', after', ap (remove other) e ∙ same, omega (arith, le))

-- What a run does to a task that waits behind `n` others.
run-Queued :
    (task n : ℕ) {g h : Gate} (r : Reach g h)
    → Queued task n g
    → Stays task r
    → Entered task r ⊎ ((m : ℕ) × Queued task m h × (m + departures r ≤ n))
run-Queued task n here q s = inr (n, q, omega arith)
run-Queued task n (next {h} r (enters other)) q s = elim (run-Queued task n r q s) [
  | inl entered ↦ inl (inl entered)
  | inr (m, waits, le) ↦ inr (m, enter-Queued task other m h waits, le)
]
run-Queued task n (next {h} r (gives_up other k)) q (ne, s) = elim (run-Queued task n r q s) [
  | inl entered ↦ inl (inl entered)
  | inr (m, waits, le) ↦ inr (m, give_up-Queued task other m h ne waits, le)
]
run-Queued task n (next {h} r (leaves other k)) q s = elim (run-Queued task n r q s) [
  | inl entered ↦ inl (inl entered)
  | inr (zero, waits, le) ↦ inl (inr (leave-last task other h waits))
  | inr (suc m, waits, le) ↦ elim (leave-Queued task other m h waits) [
    | inl entered ↦ inl (inr entered)
    | inr moved ↦ inr (m, moved, omega (arith, le))
  ]
]

-- A client that waits is served: in a run in which it is not cancelled and more clients leave than
-- stood before it, there is a moment at which it is inside, whatever other clients come, leave and
-- give up.
pub waiting_served :
    (task : ℕ) (before after : List ℕ) {g h : Gate} (r : Reach g h)
    → g.sem.waiters ≡ before ++ task ∷ after
    → Stays task r
    → length before < departures r
    → Entered task r
waiting_served task before after r e s le =
    elim (run-Queued task (length before) r (before, after, e, omega arith) s) [
      | inl entered ↦ entered
      | inr (m, waits, few) ↦ absurd (omega (arith, few))
    ]
