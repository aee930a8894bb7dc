-- ===== src/Mempool/Pool/Pages.antt =====
-- src/mempool.rs: the slices that the mapped pages are cut into.
use blockrouter.Prelude.{
  ℕ, zero, suc, ◌+◌, ◌*◌, ◌^◌, ◌≤◌, ◌<◌, ◌≡◌, refl, ap, ◌⊎◌, inl, inr, false, Option, none, some,
  arith, List, [], ◌∷◌, ◌++◌, ◌==◌, if◌then◌else◌, Bool-cases,
}
use blockrouter.Mempool.Pool.{push_slices}

unfoldable pub occurs : ℕ → List ℕ → ℕ
occurs b [] = 0
occurs b (x ∷ xs) = (if x == b then 1 else 0) + occurs b xs

-- `n` slices of `size` bytes from `ptr` on.
unfoldable pub slots : ℕ → ℕ → ℕ → List ℕ
slots size ptr zero = []
slots size ptr (suc n) = ptr ∷ slots size (ptr + size) n

pub occurs-append : (b : ℕ) (xs ys : List ℕ) → occurs b (xs ++ ys) ≡ occurs b xs + occurs b ys
unfolding occurs
occurs-append b [] ys = omega arith
occurs-append b (x ∷ xs) ys = omega (arith, occurs-append b xs ys)

suc_times : (n size : ℕ) → suc n * size ≡ size + n * size
suc_times n size = grind arith

-- A slot lies within the page, and is there once.
pub slots-bounds :
    (size b ptr n : ℕ) → 0 < occurs b (slots size ptr n) → (ptr ≤ b) × (b + size ≤ ptr + n * size)
unfolding occurs slots
slots-bounds size b ptr zero h = absurd (omega arith)
slots-bounds size b ptr (suc n) h = elim (Bool-cases (ptr == b)) [
  | inl first ↦ ground (arith, suc_times n size)
  | inr later ↦ ground (arith, suc_times n size, slots-bounds size b (ptr + size) n)
]

none_below : (size b ptr n : ℕ) → b < ptr → occurs b (slots size ptr n) ≡ 0
unfolding occurs slots
none_below size b ptr zero h = refl
none_below size b ptr (suc n) h = ground (arith, none_below size b (ptr + size) n)

pub slots-once : (size b ptr n : ℕ) → 0 < size → occurs b (slots size ptr n) ≤ 1
unfolding occurs slots
slots-once size b ptr zero h = omega arith
slots-once size b ptr (suc n) h = elim (Bool-cases (ptr == b)) [
  | inl first ↦ ground (arith, none_below size b (ptr + size) n)
  | inr later ↦ ground (arith, slots-once size b (ptr + size) n)
]

head_or_later :
    (size b ptr n : ℕ)
    → 0 < occurs b (slots size ptr (suc n))
    → (ptr ≡ b) ⊎ (0 < occurs b (slots size (ptr + size) n))
unfolding occurs slots
head_or_later size b ptr n h = elim (Bool-cases (ptr == b)) [
  | inl first ↦ inl (ground arith)
  | inr later ↦ inr (ground arith)
]

none_at_all : (size b ptr : ℕ) → 0 < occurs b (slots size ptr zero) → ⊥
unfolding occurs slots
none_at_all size b ptr h = omega arith

next_slot : (base itr size : ℕ) → base + (itr + 1) * size ≡ base + itr * size + size
next_slot base itr size = grind arith

-- Two slots of a page are a whole slot apart.
pub slots-apart :
    (size a b ptr n : ℕ)
    → 0 < occurs a (slots size ptr n)
    → 0 < occurs b (slots size ptr n)
    → (a == b) ≡ false
    → (a + size ≤ b) ⊎ (b + size ≤ a)
slots-apart size a b ptr zero in_a in_b other = absurd (none_at_all size a ptr in_a)
slots-apart size a b ptr (suc n) in_a in_b other = elim (head_or_later size a ptr n in_a) [
  | inl a_first ↦ elim (head_or_later size b ptr n in_b) [
    | inl b_first ↦ absurd (ground arith)
    | inr b_later ↦ inl (omega (arith, (slots-bounds size b (ptr + size) n b_later).0))
  ]
  | inr a_later ↦ elim (head_or_later size b ptr n in_b) [
    | inl b_first ↦ inr (omega (arith, (slots-bounds size a (ptr + size) n a_later).0))
    | inr b_later ↦ slots-apart size a b (ptr + size) n a_later b_later other
  ]
]

-- What the loop of a new page puts into the queue.
pub push_slices-occurs :
    (buf_size base itr count b : ℕ) (memory : List ℕ)
    → occurs b (push_slices buf_size base itr count memory)
      ≡ occurs b memory + occurs b (slots (2 ^ buf_size) (base + itr * 2 ^ buf_size) count)
unfolding push_slices slots occurs
push_slices-occurs buf_size base itr zero b memory = omega arith
push_slices-occurs buf_size base itr (suc count) b memory = omega (
  arith,
  push_slices-occurs buf_size base (itr + 1) count b (memory ++ (base + itr * 2 ^ buf_size) ∷ []),
  occurs-append b memory ((base + itr * 2 ^ buf_size) ∷ []),
  ap (λ (ptr : ℕ). occurs b (slots (2 ^ buf_size) ptr count)) (next_slot base itr (2 ^ buf_size)),
)

-- A mapping of the `memmap` crate has the length that was asked for, here always the same, and
-- overlaps no other: the pages are never unmapped.
pub record IsMapping (map_anon : ℕ → Option ℕ) (bytes : ℕ) : Type 0 where
  pub apart :
      (m m' base base' : ℕ)
      → map_anon m ≡ some base
      → map_anon m' ≡ some base'
      → m < m'
      → (base + bytes ≤ base') ⊎ (base' + bytes ≤ base)

module _ (map_anon : ℕ → Option ℕ) (size entries : ℕ) where
  slots_of : Option ℕ → List ℕ
  slots_of none = []
  slots_of (some base) = slots size base entries

  -- The slots of the `m`-th page, and those of the first `m` pages.
  unfoldable pub page : ℕ → List ℕ
  unfolding slots_of
  page m = slots_of (map_anon m)

  unfoldable pub all_slots : ℕ → List ℕ
  all_slots zero = []
  all_slots (suc m) = page m ++ all_slots m

  pub page-none : (m b : ℕ) → map_anon m ≡ none → occurs b (page m) ≡ 0
  unfolding page occurs
  page-none m b failed = rw failed refl

  pub page-some : (m base : ℕ) → map_anon m ≡ some base → page m ≡ slots size base entries
  unfolding page
  page-some m base at = rw at refl
