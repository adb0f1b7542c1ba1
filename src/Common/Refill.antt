-- ===== src/Common/Refill.antt =====
-- Storing again what a dict has.
use mathlib.Core.Path.{◌≡◌}
use mathlib.Core.Option.{some}
use mathlib.Core.List.{[], ◌∷◌}
use native.Mathlib.Omega.{arith}
use mini_nginx.Common.Tests.{Eq}
use mini_nginx.Common.Assoc.{Dict, lookup, insert}

module _ {ℓ κ} {K : Type ℓ} {V : Type κ} ⦃e : Eq K⦄ where
  -- An entry that is replaced and put back is as it was.
  pub insert-restores :
      (k : K) (v old : V) (d : Dict K V) → lookup k d ≡ some old → insert k old (insert k v d) ≡ d
  insert-restores k v old [] h = cc
  insert-restores k v old ((i, w) ∷ d) h = ground (arith, e.beq_iff i k, insert-restores k v old d)
