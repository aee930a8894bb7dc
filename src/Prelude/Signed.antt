-- ===== src/Prelude/Signed.antt =====
-- Signed words. An `i32` is kept as its bit pattern, a number below 2 ^ 32.
use Prim.Native.Nat.{ℕ, ◌+◌, ◌-◌, ◌^◌}
use mathlib.Core.Bool.{Bool, true, false}
use blockrouter.Prelude.Tests.{ltb, if◌then◌else◌}

-- `negsuc n` is -(n + 1).
pub data ℤ : Type 0 where
  pos : ℕ → ℤ
  negsuc : ℕ → ℤ

abbrev pub ltb_ℤ : ℤ → ℤ → Bool
ltb_ℤ (pos a) (pos b) = ltb a b
ltb_ℤ (pos a) (negsuc b) = false
ltb_ℤ (negsuc a) (pos b) = true
ltb_ℤ (negsuc a) (negsuc b) = ltb b a

-- The integer that a pattern of `w` bits stands for in two's complement.
abbrev pub signed : ℕ → ℕ → ℤ
signed w u = if ltb u (2 ^ (w - 1)) then pos u else negsuc (2 ^ w - u - 1)

abbrev pub to_i32 : ℕ → ℤ
to_i32 u = signed 32 u

-- `x as usize` of an `i32`: the sign is extended.
abbrev pub i32_as_usize : ℕ → ℕ
i32_as_usize u = if ltb u (2 ^ 31) then u else u + (2 ^ 64 - 2 ^ 32)
