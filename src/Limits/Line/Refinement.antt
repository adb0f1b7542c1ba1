-- ===== src/Limits/Line/Refinement.antt =====
-- The gate refines the line.
use mini_nginx.Common.{ℕ, ◌≡◌, inl, refl, sym, ap, ◌∙◌, subst, List, [], ◌∷◌, ◌++◌, arith, nat_eq}
use mini_nginx.Limits.{ConnectionLimits, create}
use mini_nginx.Limits.Queue.{remove, count}
use mini_nginx.Limits.Clients.{
  event, history, Gate, give_up, Step, enters, leaves, gives_up, Reach, here, next, opened,
}
use mini_nginx.Limits.Line.{
  served, waiting, Move, joins, departs, abandons, Moves, empty, followed, Implements, Parts,
  Parts-served, Parts-Implements,
}
use mini_nginx.Limits.Line.Steps.{enter-Parts, leave-left_gate, left_gate-Parts, give_up-Parts}

module _ (limit : ℕ) where
  -- One step of the gate is one move of the line.
  Step-Move :
      {g h : Gate}
      → (s : Step g h) (line front : List ℕ) → Parts limit g line front
      → (line' : List ℕ) × (front' : List ℕ) × Move limit (event s) line line'
        × Parts limit h line' front'
  Step-Move (enters task {g}) line front p =
      let (front', p') = enter-Parts limit task g line front p in
      (line ++ task ∷ [], front', joins task, p')
  Step-Move (leaves task {g} h) line front p =
      let i = Parts-Implements limit g line front p in
      let (front', p') = left_gate-Parts limit task g line front g.sem.waiters h refl p in
      (
        remove task line,
        front',
        departs task (λ z. h (i.inside task ∙ z)),
        subst (λ k. Parts limit k (remove task line) front')
            (sym (leave-left_gate limit task g g.sem.waiters refl)) p',
      )
  Step-Move (gives_up task {g} h) line front p =
      let (first, rest) = Parts-served limit g line front p in
      let same : front ++ remove task g.sem.waiters
          ≡ served limit line ++ remove task (waiting limit line) =
        ap (λ xs. xs ++ remove task g.sem.waiters) (sym first)
        ∙ ap (λ xs. served limit line ++ remove task xs) (sym rest) in
      (
        served limit line ++ remove task (waiting limit line),
        front,
        abandons task (λ z. h (ap (count task) (sym rest) ∙ z)),
        subst (λ xs. Parts limit (give_up task g) xs front) same
            (give_up-Parts limit task g line front h p),
      )

  Reach-Moves :
      {g h : Gate}
      → (r : Reach g h) → Parts limit g [] []
      → (line' : List ℕ) × (front' : List ℕ) × Moves limit (history r) line'
        × Parts limit h line' front'
  Reach-Moves here p = ([], [], empty, p)
  Reach-Moves (next r s) p =
      let (line', front', m', p') = Reach-Moves r p in
      let (line'', front'', move, p'') = Step-Move s line' front' p' in
      (line'', front'', followed m' move, p'')

-- The gate refines the line: however clients come, leave and are cancelled, the abstract moves of just
-- these events, in their order, are all possible and lead from the empty line to one whose first `max_client_conns` tasks are exactly those that are inside, and
-- whose others wait in the order of the line; a slot is free for each place that is missing in front.
pub gate_refines :
    (limits : ConnectionLimits) (g : Gate)
    → (r : Reach (opened limits) g)
    → (line : List ℕ) × Moves limits.max_client_conns (history r) line
      × Implements limits.max_client_conns g line
unfolding create
gate_refines limits g r =
    let (line, front, m, p) =
      Reach-Moves limits.max_client_conns r
        (record { whole = refl; counted = λ task. refl; free = omega arith; full = inl refl }) in
    (line, m, Parts-Implements limits.max_client_conns g line front p)
