-- ===== src/Limits/Line/Steps.antt =====
-- What each step of the gate does to the two parts of the line.
use mini_nginx.Common.{
  ℕ, ◌+◌, ◌-◌, ◌<◌, ◌≡◌, ◌≢◌, ◌⊎◌, inl, inr, refl, sym, ap, ◌∙◌, subst, List, [], ◌∷◌, ◌++◌,
  append-nil, append_assoc, arith, length-append, lt→ltb, nat_eq,
}
use mini_nginx.Limits.{acquire, release}
use mini_nginx.Limits.Queue.{
  remove, count, count-append, count-remove, remove-append, length-remove,
}
use mini_nginx.Limits.Clients.{Gate, enter, leave, give_up}
use mini_nginx.Limits.Line.{Parts}

module _ (limit : ℕ) where
  enter-granted :
      (task : ℕ) (g : Gate)
      → g.sem.waiters ≡ []
      → 0 < g.sem.value
      → enter task g ≡ record {
        sem = record { value = g.sem.value - 1; waiters = g.sem.waiters };
        inside = task ∷ g.inside;
      }
  unfolding enter acquire
  enter-granted task g e h = rw (e, lt→ltb 0 g.sem.value h) refl

  enter-waits :
      (task : ℕ) (g : Gate)
      → g.sem.value ≡ 0
      → enter task g
        ≡ record g { sem = record { value = g.sem.value; waiters = g.sem.waiters ++ task ∷ [] } }
  unfolding enter acquire
  enter-waits task g e = rw e refl

  pub enter-Parts :
      (task : ℕ) (g : Gate) (line front : List ℕ)
      → Parts limit g line front
      → (front' : List ℕ) × Parts limit (enter task g) (line ++ task ∷ []) front'
  enter-Parts task g line front p = elim (zero_or_more g.sem.value) [
    | inl none_free ↦ (
      front,
      subst (λ g. Parts limit g (line ++ task ∷ []) front) (sym (enter-waits task g none_free))
          (record {
            whole =
                ap (λ xs. xs ++ task ∷ []) p.whole ∙ append_assoc front g.sem.waiters (task ∷ []);
            counted = p.counted;
            free = p.free;
            full = inr none_free;
          }),
    )
    | inr some_free ↦
        let nobody : g.sem.waiters ≡ [] = nobody_waits p.full some_free in
        (
          front ++ task ∷ [],
          subst (λ g. Parts limit g (line ++ task ∷ []) (front ++ task ∷ []))
              (sym (enter-granted task g nobody some_free))
              (record {
                whole =
                    ap (λ xs. xs ++ task ∷ [])
                      (p.whole ∙ ap (λ xs. front ++ xs) nobody ∙ append-nil front)
                    ∙ sym (ap (λ xs. (front ++ task ∷ []) ++ xs) nobody ∙ append-nil _);
                counted =
                    λ other. omega (arith, p.counted other, count-append other front (task ∷ []));
                free = omega (arith, p.free, length-append front (task ∷ []));
                full = inl nobody;
              }),
        )
  ]
    where
      zero_or_more : (n : ℕ) → (n ≡ 0) ⊎ (0 < n)
      zero_or_more n = ground arith

      nobody_waits : (g.sem.waiters ≡ []) ⊎ (g.sem.value ≡ 0) → 0 < g.sem.value → g.sem.waiters ≡ []
      nobody_waits (inl e) h = e
      nobody_waits (inr e) h = absurd (omega arith)

  -- The slot of a task that leaves, with the queue as it is.
  unfoldable pub left_gate : ℕ → Gate → List ℕ → Gate
  left_gate task g [] = record {
    sem = record { value = g.sem.value + 1; waiters = [] };
    inside = remove task g.inside;
  }
  left_gate task g (first ∷ tasks) = record {
    sem = record { value = g.sem.value; waiters = tasks };
    inside = first ∷ remove task g.inside;
  }

  pub leave-left_gate :
      (task : ℕ) (g : Gate) (tasks : List ℕ)
      → g.sem.waiters ≡ tasks
      → leave task g ≡ left_gate task g tasks
  unfolding leave release left_gate
  leave-left_gate task g [] e = rw e refl
  leave-left_gate task g (first ∷ tasks) e = rw e refl

  -- A task of the front is removed from it.
  removed :
      (task : ℕ) (g : Gate) (line front tasks : List ℕ)
      → count task front ≢ 0
      → g.sem.waiters ≡ tasks
      → Parts limit g line front
      → remove task line ≡ remove task front ++ tasks
  removed task g line front tasks there e p =
      ap (remove task) p.whole
      ∙ remove-append task front g.sem.waiters there
      ∙ ap (λ xs. remove task front ++ xs) e

  waits_full :
      (first : ℕ) (tasks : List ℕ) {waiters : List ℕ} {value : ℕ}
      → waiters ≡ first ∷ tasks
      → (waiters ≡ []) ⊎ (value ≡ 0)
      → value ≡ 0
  waits_full first tasks e (inl none_waits) = cc
  waits_full first tasks e (inr none_free) = none_free

  pub left_gate-Parts :
      (task : ℕ) (g : Gate) (line front tasks : List ℕ)
      → count task g.inside ≢ 0
      → g.sem.waiters ≡ tasks
      → Parts limit g line front
      → (front' : List ℕ) × Parts limit (left_gate task g tasks) (remove task line) front'
  unfolding left_gate
  left_gate-Parts task g line front [] h e p =
      let there : count task front ≢ 0 = λ z. h (p.counted task ∙ z) in
      (
        remove task front,
        record {
          whole = removed task g line front [] there e p;
          counted = λ other. omega (
            arith,
            p.counted other,
            count-remove other task front there,
            count-remove other task g.inside h,
          );
          free = omega (arith, p.free, length-remove task front there);
          full = inl refl;
        },
      )
  left_gate-Parts task g line front (first ∷ tasks) h e p =
      let there : count task front ≢ 0 = λ z. h (p.counted task ∙ z) in
      (
        remove task front ++ first ∷ [],
        record {
          whole =
              removed task g line front (first ∷ tasks) there e p
              ∙ sym (append_assoc (remove task front) (first ∷ []) tasks);
          counted = λ other. omega (
            arith,
            p.counted other,
            count-remove other task front there,
            count-remove other task g.inside h,
            count-append other (remove task front) (first ∷ []),
          );
          free = omega (
            arith,
            p.free,
            length-remove task front there,
            length-append (remove task front) (first ∷ []),
          );
          full = inr (waits_full first tasks e p.full);
        },
      )

  pub give_up-Parts :
      (task : ℕ) (g : Gate) (line front : List ℕ)
      → count task g.sem.waiters ≢ 0
      → Parts limit g line front
      → Parts limit (give_up task g) (front ++ remove task g.sem.waiters) front
  unfolding give_up
  give_up-Parts task g line front h p = record {
    whole = refl;
    counted = p.counted;
    free = p.free;
    full = elim p.full [
      | inl none_waits ↦ absurd (h (ap (count task) none_waits))
      | inr none_free ↦ inr none_free
    ];
  }
