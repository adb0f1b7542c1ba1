-- ===== src/Net/Binds.antt =====
-- Chains of actions, taken apart and put together.
use mini_nginx.Common.{◌≡◌, ◌≢◌, refl, sym, ap}
use mini_nginx.Net.{
  World, Result, ok, raised, Io, ◌>>=◌, Exception, catch, resume, handle, after, finally,
}

resume-eq-ok :
    {A B : Type 0} (r : Result A) (w' : World) (f : A → Io B) {b : B} {w'' : World}
    → resume (r, w') f ≡ (ok b, w'')
    → (a : A) × (r ≡ ok a) × (f a w' ≡ (ok b, w''))
resume-eq-ok (ok a) w' f e = (a, refl, e)
resume-eq-ok (raised x) w' f e = cc

-- A chain that succeeds has succeeded at its first action.
pub >>=-eq-ok :
    {A B : Type 0} (m : Io A) (f : A → Io B) (w : World) {b : B} {w'' : World}
    → (m >>= f) w ≡ (ok b, w'')
    → (a : A) × (w' : World) × (m w ≡ (ok a, w')) × (f a w' ≡ (ok b, w''))
>>=-eq-ok m f w e =
    let (a, same, later) = resume-eq-ok (m w).0 (m w).1 f e in
    (a, (m w).1, ap (λ r. (r, (m w).1)) same, later)

-- A chain goes on where its first action succeeds, and stops where it raises.
pub >>=-ok :
    {A B : Type 0} (m : Io A) (f : A → Io B) (w : World) {a : A} {w' : World}
    → m w ≡ (ok a, w')
    → (m >>= f) w ≡ f a w'
>>=-ok m f w e = ap (λ p. resume p f) e

pub >>=-raised :
    {A B : Type 0} (m : Io A) (f : A → Io B) (w : World) {x : Exception} {w' : World}
    → m w ≡ (raised x, w')
    → (m >>= f) w ≡ (raised x, w')
>>=-raised m f w e = ap (λ p. resume p f) e

pub catch-ok :
    {A : Type 0} (m : Io A) (h : Exception → Io A) (w : World) {a : A} {w' : World}
    → m w ≡ (ok a, w')
    → catch m h w ≡ (ok a, w')
catch-ok m h w e = ap (λ p. handle p h) e

pub catch-raised :
    {A : Type 0} (m : Io A) (h : Exception → Io A) (w : World) {x : Exception} {w' : World}
    → m w ≡ (raised x, w')
    → catch m h w ≡ h x w'
catch-raised m h w e = ap (λ p. handle p h) e

handle-eq-ok :
    {A : Type 0} (r : Result A) (v : World) (h : Exception → Io A) {a : A} {w' : World}
    → ((e : Exception) (v : World) → (h e v).0 ≢ ok a)
    → handle (r, v) h ≡ (ok a, w')
    → ◌≡◌ {A = Result A × World} (r, v) (ok a, w')
handle-eq-ok (ok b) v h never e = e
handle-eq-ok (raised x) v h never e = absurd (never x v (ap (λ p. p.0) e))

-- Where the handler only raises, what succeeds has succeeded without it.
pub catch-eq-ok :
    {A : Type 0} (m : Io A) (h : Exception → Io A) (w : World) {a : A} {w' : World}
    → ((e : Exception) (v : World) → (h e v).0 ≢ ok a)
    → catch m h w ≡ (ok a, w')
    → m w ≡ (ok a, w')
catch-eq-ok m h w never e = handle-eq-ok (m w).0 (m w).1 h never e

resume-eq :
    {A B : Type 0} (r : Result A) (v : World) (f g : A → Io B)
    → ((a : A) → r ≡ ok a → f a v ≡ g a v)
    → resume (r, v) f ≡ resume (r, v) g
resume-eq (ok a) v f g h = h a refl
resume-eq (raised x) v f g h = refl

-- Two chains are equal where they go on equally after their first action.
pub >>=-eq :
    {A B : Type 0} (m : Io A) (f g : A → Io B) (w : World)
    → ((a : A) (v : World) → m w ≡ (ok a, v) → f a v ≡ g a v)
    → (m >>= f) w ≡ (m >>= g) w
>>=-eq m f g w h = resume-eq (m w).0 (m w).1 f g (λ a e. h a (m w).1 (ap (λ r. (r, (m w).1)) e))

after-eq-ok :
    {A : Type 0} (r : Result A) (c : Result (Unit {0})) (v : World) {a : A} {w' : World}
    → after r (c, v) ≡ (ok a, w')
    → (r ≡ ok a) × (w' ≡ v)
after-eq-ok r (ok z) v e = (ap (λ p. p.0) e, sym (ap (λ p. p.1) e))
after-eq-ok r (raised x) v e = cc

-- What succeeds before its `finally` has succeeded, and the cleanup has run.
pub finally-eq-ok :
    {A : Type 0} (m : Io A) (c : Io (Unit {0})) (w : World) {a : A} {w' : World}
    → finally m c w ≡ (ok a, w')
    → (v : World) × (m w ≡ (ok a, v)) × (w' ≡ (c v).1)
finally-eq-ok m c w e =
    let (good, same) = after-eq-ok (m w).0 (c (m w).1).0 (c (m w).1).1 e in
    ((m w).1, ap (λ r. (r, (m w).1)) good, same)
