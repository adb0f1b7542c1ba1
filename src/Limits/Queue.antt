-- ===== src/Limits/Queue.antt =====
-- Lists of tasks: membership as a count, and removal of one occurrence.
use mini_nginx.Common.{
  ℕ, ◌+◌, ◌≡◌, ◌≢◌, List, [], ◌∷◌, ◌++◌, arith, length, if◌then◌else◌, ◌==◌, nat_eq,
}

-- `tasks.remove(task)`
abbrev pub remove : ℕ → List ℕ → List ℕ
remove t [] = []
remove t (x ∷ xs) = if x == t then xs else x ∷ remove t xs

-- How often a task is listed.
abbrev pub count : ℕ → List ℕ → ℕ
count t [] = 0
count t (x ∷ xs) = (if x == t then 1 else 0) + count t xs

pub count-append : (t : ℕ) (xs ys : List ℕ) → count t (xs ++ ys) ≡ count t xs + count t ys
count-append t [] ys = omega arith
count-append t (x ∷ xs) ys = omega (arith, count-append t xs ys)

pub length-remove : (t : ℕ) (xs : List ℕ) → count t xs ≢ 0 → length (remove t xs) + 1 ≡ length xs
length-remove t [] h = absurd (omega arith)
length-remove t (x ∷ xs) h = ground (arith, length-remove t xs)

-- A removal takes one occurrence of the task, and none of the others.
pub count-remove :
    (u t : ℕ) (xs : List ℕ)
    → count t xs ≢ 0
    → count u (remove t xs) + (if t == u then 1 else 0) ≡ count u xs
count-remove u t [] h = absurd (omega arith)
count-remove u t (x ∷ xs) h = ground (arith, count-remove u t xs)

pub remove-append :
    (t : ℕ) (xs ys : List ℕ) → count t xs ≢ 0 → remove t (xs ++ ys) ≡ remove t xs ++ ys
remove-append t [] ys h = absurd (omega arith)
remove-append t (x ∷ xs) ys h = ground (arith, remove-append t xs ys)
