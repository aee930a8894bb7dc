-- ===== src/Prelude/Order.antt =====
-- The Boolean tests, where the order of the numbers is known.
use Prim.Native.Nat.{ℕ, ◌≤◌, ◌<◌}
use mathlib.Core.Path.{◌≡◌}
use mathlib.Core.Bool.{Bool, true, false}
use native.Mathlib.Omega.{arith}
use blockrouter.Prelude.Tests.{ltb, leb, if◌then◌else◌}

pub at_most : (a b : ℕ) → a ≤ b → leb a b ≡ true
at_most a b h = ground arith

pub under : (a b : ℕ) → a < b → ltb a b ≡ true
under a b h = ground arith

pub not_above : (a b : ℕ) → a ≤ b → ltb b a ≡ false
not_above a b h = ground arith

-- What holds of both ends of a conditional holds of it.
pub either {ℓ κ} :
    {A : Type ℓ} (P : A → Type κ) (test : Bool) (x y : A) → P x → P y → P (if test then x else y)
either P true x y p q = p
either P false x y p q = q
