-- ===== src/Prelude/Tables.antt =====
-- Facts about all bytes, by evaluation at each.
use Prim.Native.Nat.{ℕ, zero, suc, ◌<◌}
use mathlib.Core.Path.{◌≡◌}
use mathlib.Core.Bool.{Bool, true, ◌&&◌}
use native.Mathlib.Omega.{arith}

unfoldable pub holds_below : ℕ → (ℕ → Bool) → Bool
holds_below zero test = true
holds_below (suc n) test = test n && holds_below n test

pub holds_below_lem :
    (n : ℕ) (test : ℕ → Bool) → holds_below n test ≡ true → (x : ℕ) → x < n → test x ≡ true
unfolding holds_below
holds_below_lem zero test h x lt = absurd (omega arith)
holds_below_lem (suc n) test h x lt =
    ground (arith, λ (g : holds_below n test ≡ true) (l : x < n). holds_below_lem n test g x l)
