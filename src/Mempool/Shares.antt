-- ===== src/Mempool/Shares.antt =====
-- src/mempool.rs: the parts that are alive, and the memory and counts that they share.
pub mod Order
pub mod Windows
pub mod Calls
pub mod Writes
use blockrouter.Prelude.{
  ℕ, zero, suc, ◌+◌, ◌^◌, ◌≤◌, ◌<◌, ◌≡◌, ◌≢◌, refl, sym, ap, ◌∙◌, ◌⊎◌, inl, inr, Bool, true, false,
  Option, none, some, arith, List, [], ◌∷◌, length, All, ◌==◌, if◌then◌else◌, Bool-cases,
}
use mathlib.Core.Path.{subst}
use blockrouter.Mempool.Memory.{
  Memory, read_u32, write_u32, write_u32-elsewhere, read_u32-write_u32, read_u32-elsewhere,
  read-agree,
}
use blockrouter.Mempool.Part
use blockrouter.Mempool.Part.{Part, deref}

test-eq : (a b : ℕ) → (a == b) ≡ true → a ≡ b
test-eq a b h = ground arith

-- How many parts of a block there are.
unfoldable pub parts_of : ℕ → List Part → ℕ
parts_of block [] = 0
parts_of block (p ∷ ps) = (if p.parent_slice == block then 1 else 0) + parts_of block ps

-- The windows of two parts have no byte in common.
abbrev pub Apart : Part → Part → Type 0
Apart p q = (p.ptr + p.len ≤ q.ptr) ⊎ (q.ptr + q.len ≤ p.ptr)

abbrev pub AllApart : List Part → Type 0
AllApart [] = Unit
AllApart (p ∷ ps) = All (Apart p) ps × AllApart ps

-- The blocks of a pool: any two are a whole block apart, `realsize` bytes and the count.
pub record Blocks : Type 1 where
  pub realsize : ℕ
  pub IsBlock : ℕ → Type 0
  pub blocks_apart :
      (a b : ℕ)
      → IsBlock a
      → IsBlock b
      → (a == b) ≡ false
      → (a + realsize + 4 ≤ b) ⊎ (b + realsize + 4 ≤ a)

module _ (K : Blocks) where
  open K use {realsize, IsBlock, blocks_apart}

  pub record IsInside (p : Part) : Type 0 where
    pub block : IsBlock p.parent_slice
    pub starts : p.parent_slice ≤ p.ptr
    pub ends : p.ptr + p.len ≤ p.parent_slice + realsize

  -- The parts lie in their blocks, share no byte, and the count behind a block that has parts is
  -- their number.
  pub record IsSound (mem : Memory) (ps : List Part) : Type 0 where
    pub inside : All IsInside ps
    pub apart : AllApart ps
    pub counted :
        (b : ℕ) → IsBlock b → 0 < parts_of b ps → read_u32 mem (b + realsize) ≡ parts_of b ps
    pub few : length ps < 2 ^ 32

  -- The count of a block is in no part's window.
  pub count-outside :
      (p : Part) (b j : ℕ)
      → IsInside p
      → IsBlock b
      → p.ptr ≤ j
      → j < p.ptr + p.len
      → (j < b + realsize) ⊎ (b + realsize + 4 ≤ j)
  count-outside p b j i block low high = elim (Bool-cases (p.parent_slice == b)) [
    | inl same ↦ inl (ground (arith, i.ends, i.starts))
    | inr other ↦ elim (blocks_apart p.parent_slice b i.block block other) [
      | inl before ↦ inl (omega (arith, i.ends))
      | inr behind ↦ inr (omega (arith, i.starts))
    ]
  ]

  -- A write of a count changes no part's bytes.
  pub deref-count :
      (mem : Memory) (p : Part) (b v : ℕ)
      → IsInside p
      → IsBlock b
      → deref (write_u32 mem (b + realsize) v) p ≡ deref mem p
  unfolding deref
  deref-count mem p b v i block =
      read-agree mem (write_u32 mem (b + realsize) v) p.ptr p.len (λ j low high.
        write_u32-elsewhere mem (b + realsize) v j (count-outside p b j i block low high))

  -- It changes no other block's count either.
  pub read_u32-other :
      (mem : Memory) (a b v : ℕ)
      → IsBlock a
      → IsBlock b
      → (a == b) ≡ false
      → read_u32 (write_u32 mem (a + realsize) v) (b + realsize) ≡ read_u32 mem (b + realsize)
  read_u32-other mem a b v block_a block_b other = elim (blocks_apart a b block_a block_b other) [
    | inl before ↦ read_u32-elsewhere mem (a + realsize) v (b + realsize) (inr (omega arith))
    | inr behind ↦ read_u32-elsewhere mem (a + realsize) v (b + realsize) (inl (omega arith))
  ]

  pub parts_of-le : (b : ℕ) (ps : List Part) → parts_of b ps ≤ length ps
  unfolding parts_of
  parts_of-le b [] = omega arith
  parts_of-le b (p ∷ ps) = ground (arith, parts_of-le b ps)

  -- The counts after a write to the count of `a`, where the parts of the other blocks are as before.
  pub counted-write :
      (mem : Memory) (ps qs : List Part) (a v : ℕ)
      → IsBlock a
      → v < 2 ^ 32
      → v ≡ parts_of a qs
      → ((b : ℕ) → (a == b) ≡ false → parts_of b qs ≡ parts_of b ps)
      → ((b : ℕ) → IsBlock b → 0 < parts_of b ps → read_u32 mem (b + realsize) ≡ parts_of b ps)
      → (b : ℕ) → IsBlock b
      → 0 < parts_of b qs
      → read_u32 (write_u32 mem (a + realsize) v) (b + realsize) ≡ parts_of b qs
  counted-write mem ps qs a v block_a small new others counted b block_b some_parts =
      elim (Bool-cases (a == b)) [
        | inl same ↦
            subst (λ c. read_u32 (write_u32 mem (a + realsize) v) (c + realsize) ≡ parts_of c qs)
              (test-eq a b same) (read_u32-write_u32 mem (a + realsize) v small ∙ new)
        | inr other ↦
            read_u32-other mem a b v block_a block_b other
            ∙ (counted b block_b (omega (arith, others b other)) ∙ sym (others b other))
      ]
