-- ===== src/Parser/Group.antt =====
-- Groups of seven bits in a word, as arithmetic.
use blockrouter.Prelude.{ℕ, zero, suc, ◌+◌, ◌-◌, ◌*◌, ◌/◌, ◌%◌, ◌^◌, ◌≤◌, ◌<◌, ◌≡◌, ap, ◌∙◌, arith}
use blockrouter.Prelude.{bit_or}
use blockrouter.Prelude.Bits.{bit_or-shifted}
use native.Mathlib.Nat.{
  pow-suc, add-mul-mod_self_right, mod-eq_of_lt, div-add-mod, one-le-pow, add-zero,
}

pow-plus : (i d : ℕ) → 2 ^ (i + d) ≡ 2 ^ i * 2 ^ d
pow-plus i zero = rw (add-zero i) (omega arith)
pow-plus i (suc d) =
    let e : i + suc d ≡ suc (i + d) = omega arith in
    rw e (
      omega (
        arith,
        pow-suc 2 (i + d),
        ap (λ (t : ℕ). 2 ^ i * t) (pow-suc 2 d),
        ap (λ (t : ℕ). t * 2) (pow-plus i d),
      ))

below_product : (p q a r : ℕ) → a < p → r < q → a + r * p < p * q
below_product p q a r h k = grind arith

-- A field above `p`, cut off at `p * q`.
mod_fields : (p q a g : ℕ) → a < p → 0 < q → (a + g * p) % (p * q) ≡ a + g % q * p
mod_fields p q a g h k =
    let parts : a + g * p ≡ a + g % q * p + g / q * (p * q) =
      omega (arith, ap (λ (t : ℕ). t * p) (div-add-mod g q)) in
    rw parts (
      add-mul-mod_self_right (a + g % q * p) (g / q) (p * q)
      ∙ mod-eq_of_lt (below_product p q a (g % q) h (omega arith)))

-- One round's `result |= group << i` at `width` bits adds the group, and wraps.
pub or_group :
    (a g i width : ℕ)
    → a < 2 ^ i
    → i ≤ width
    → bit_or a (g * 2 ^ i % 2 ^ width) ≡ (a + g * 2 ^ i) % 2 ^ width
or_group a g i width h le =
    let d = width - i in
    let e : 2 ^ width ≡ 2 ^ i * 2 ^ d = ap (λ (t : ℕ). 2 ^ t) (omega arith) ∙ pow-plus i d in
    let one = one-le-pow d 2 (omega arith) in
    let low : g * 2 ^ i % (2 ^ i * 2 ^ d) ≡ g % 2 ^ d * 2 ^ i =
      let f : (0 + g * 2 ^ i) % (2 ^ i * 2 ^ d) ≡ 0 + g % 2 ^ d * 2 ^ i =
        mod_fields (2 ^ i) (2 ^ d) 0 g (omega arith) one in
      let z : 0 + g * 2 ^ i ≡ g * 2 ^ i = omega arith in (rw z at f) ∙ omega arith in
    rw (e, mod_fields (2 ^ i) (2 ^ d) a g h one, low) (bit_or-shifted i a (g % 2 ^ d) h)

pub push_value : (a g i v : ℕ) → a + g * 2 ^ i + v * 2 ^ (i + 7) ≡ a + (g + 128 * v) * 2 ^ i
push_value a g i v =
    let e : 2 ^ (i + 7) ≡ 2 ^ i * 128 = pow-plus i 7 in omega (arith, ap (λ (t : ℕ). v * t) e)

pub group_fits : (a g i : ℕ) → a < 2 ^ i → g < 128 → a + g * 2 ^ i < 2 ^ (i + 7)
group_fits a g i ha hg = rw (pow-plus i 7) (below_product (2 ^ i) 128 a g ha hg)
