-- ===== src/Prelude/Order.antt =====
-- Well-founded recursion on the native numbers.
use Prim.Native.Nat.{ℕ, zero, suc, ◌<◌}
use mathlib.Core.WellFounded.{Acc, WellFounded}
use native.Mathlib.Omega.{arith}

acc-below : (k n : ℕ) → n < k → Acc ◌<◌ n
acc-below zero n h = elim h [ ]
acc-below (suc k) n h = Acc.intro n (λ m hm. acc-below k m (omega arith))

unfoldable pub lt_wf : WellFounded ◌<◌
unfolding acc-below
lt_wf = record { apply = λ n. acc-below (suc n) n (omega arith) }
