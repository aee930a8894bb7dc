-- ===== src/Prelude/Bits.antt =====
-- `&` and `|` on words as arithmetic.
use Prim.Native.Nat.{ℕ, zero, suc, ◌+◌, ◌*◌, ◌/◌, ◌%◌, ◌^◌, ◌≤◌, ◌<◌, max, bit_and, bit_or}
use Prim.Native.Nat.{◌-◌, min, digits, bit_and-bitwise, bit_or-bitwise}
use mathlib.Core.Path.{◌≡◌, refl, ap, ap₂}
use mathlib.Core.Bool.{Bool, true}
use mathlib.Core.Option.{Option, none, some}
use native.Mathlib.Omega.{arith}
use native.Mathlib.Nat.{pow-suc}
use blockrouter.Prelude.Tests.{◌==◌, if◌then◌else◌}

-- Over one byte every value is tried: the largest of the first `n` numbers a test refuses.
find_miss : (ℕ → Bool) → ℕ → Option ℕ
find_miss ok zero = none
find_miss ok (suc n) = let below = find_miss ok n in if ok n then below else some n

no_miss : (ok : ℕ → Bool) (n b : ℕ) → find_miss ok n ≡ none → b < n → ok b ≡ true
unfolding find_miss
no_miss ok zero b none_found small = absurd (omega arith)
no_miss ok (suc n) b none_found small = ground (arith, no_miss ok n b)

test-eq : (m n : ℕ) → (m == n) ≡ true → m ≡ n
test-eq m n same = ground arith

low_bits_kept : find_miss (λ b. bit_and b 0x7f == b % 128) 256 ≡ none
unfolding find_miss
low_bits_kept = refl

top_bit_kept : find_miss (λ b. bit_and b 0x80 == b / 128 * 128) 256 ≡ none
unfolding find_miss
top_bit_kept = refl

-- The low seven bits of a byte.
pub bit_and_0x7f : (b : ℕ) → b < 256 → bit_and b 0x7f ≡ b % 128
bit_and_0x7f b small = test-eq _ _ (no_miss _ 256 b low_bits_kept small)

-- The top bit of a byte.
pub bit_and_0x80 : (b : ℕ) → b < 256 → bit_and b 0x80 ≡ b / 128 * 128
bit_and_0x80 b small = test-eq _ _ (no_miss _ 256 b top_bit_kept small)

-- An operation on digits gives the same for every count that is enough.
count_free :
    (z : ℕ → ℕ) (f : ℕ → ℕ → ℕ) (a n m b : ℕ) → a ≤ n → a ≤ m → digits z f n a b ≡ digits z f m a b
count_free z f a zero zero b p q = refl
count_free z f zero zero (suc m) b p q = refl
count_free z f zero (suc n) zero b p q = refl
count_free z f zero (suc n) (suc m) b p q = refl
count_free z f (suc a) zero m b p q = absurd (omega arith)
count_free z f (suc a) (suc n) zero b p q = absurd (omega arith)
count_free z f (suc a) (suc n) (suc m) b p q =
    omega (arith, count_free z f (suc a / 2) n m (b / 2) (omega arith) (omega arith))

-- One binary digit of `a | b`.
bit_or_digit : (a b : ℕ) → bit_or a b ≡ bit_or (a / 2) (b / 2) * 2 + max (a % 2) (b % 2)
bit_or_digit zero b = omega (arith, bit_or-bitwise 0 b, bit_or-bitwise 0 (b / 2))
bit_or_digit (suc a) b = omega (
  arith,
  bit_or-bitwise (suc a) b,
  bit_or-bitwise (suc a / 2) (b / 2),
  count_free (λ y. y) max (suc a / 2) a (suc a / 2) (b / 2) (omega arith) (omega arith),
)

-- Where the fields do not overlap, `|` adds them.
pub bit_or-shifted : (k a g : ℕ) → a < 2 ^ k → bit_or a (g * 2 ^ k) ≡ a + g * 2 ^ k
bit_or-shifted zero a g h = ground (arith, bit_or-bitwise 0 g)
bit_or-shifted (suc k) a g h = ground (
  arith,
  bit_or_digit a (g * 2 ^ suc k),
  pow-suc 2 k,
  ap (λ (t : ℕ). g * t) (pow-suc 2 k),
  bit_or-shifted k (a / 2) g,
)

-- One binary digit of `a & b`.
bit_and_digit : (a b : ℕ) → bit_and a b ≡ bit_and (a / 2) (b / 2) * 2 + min (a % 2) (b % 2)
bit_and_digit zero b = omega (arith, bit_and-bitwise 0 b, bit_and-bitwise 0 (b / 2))
bit_and_digit (suc a) b = omega (
  arith,
  bit_and-bitwise (suc a) b,
  bit_and-bitwise (suc a / 2) (b / 2),
  count_free (λ y. 0) min (suc a / 2) a (suc a / 2) (b / 2) (omega arith) (omega arith),
)

pub pow_pos : (k : ℕ) → 0 < 2 ^ k
pow_pos zero = omega arith
pow_pos (suc k) = omega (arith, pow-suc 2 k, pow_pos k)

pow_half :
    (k : ℕ)
    → ((2 ^ suc k - 1) / 2 ≡ 2 ^ k - 1) × (((2 ^ suc k - 1) % 2 ≡ 1) × (2 ^ suc k / 2 ≡ 2 ^ k))
pow_half k = (
  omega (arith, pow-suc 2 k, pow_pos k),
  (omega (arith, pow-suc 2 k, pow_pos k), omega (arith, pow-suc 2 k)),
)

-- A number below a power of two is its own remainder: the mask takes nothing away.
pub bit_and-mask : (k a : ℕ) → a < 2 ^ k → bit_and a (2 ^ k - 1) ≡ a
bit_and-mask zero a small = ground (arith, bit_and-bitwise 0 0)
bit_and-mask (suc k) a small = omega (
  arith,
  bit_and_digit a (2 ^ suc k - 1),
  (pow_half k).1.0,
  ap (λ m. bit_and (a / 2) m) (pow_half k).0,
  bit_and-mask k (a / 2) (omega (arith, pow-suc 2 k)),
)

-- The mask of `2 ^ k` slots maps `2 ^ k` itself to slot 0.
pub bit_and-full : (k : ℕ) → bit_and (2 ^ k) (2 ^ k - 1) ≡ 0
bit_and-full zero = refl
bit_and-full (suc k) = omega (
  arith,
  bit_and_digit (2 ^ suc k) (2 ^ suc k - 1),
  pow-suc 2 k,
  ap₂ bit_and (pow_half k).1.1 (pow_half k).0,
  bit_and-full k,
)
