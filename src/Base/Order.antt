-- ===== src/Base/Order.antt =====
-- Lists are well founded by their length, for loops that consume a prefix in each round.
use mathlib.Core.WellFounded.{Acc}
use Prim.Native.Nat.{ℕ, zero, suc, ◌<◌}
use mathlib.Core.List.{List}
use native.Mathlib.Omega.{arith}
use iron_babel.Base.Lists.{length}

abbrev pub Shorter : {A : Type 0} → List A → List A → Type 0
Shorter xs ys = length xs < length ys

Acc-below : {A : Type 0} (k : ℕ) (xs : List A) → length xs < k → Acc Shorter xs
Acc-below zero xs h = elim h [ ]
Acc-below (suc k) xs h = Acc.intro xs (λ ys hy. Acc-below k ys (omega arith))

unfoldable pub Shorter-Acc : {A : Type 0} (xs : List A) → Acc Shorter xs
unfolding Acc-below
Shorter-Acc xs = Acc-below (suc (length xs)) xs (omega arith)
