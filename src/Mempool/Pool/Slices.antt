-- ===== src/Mempool/Pool/Slices.antt =====
-- src/mempool.rs: the slices of all pages, where the mappings overlap nowhere.
use blockrouter.Prelude.{
  ℕ, zero, suc, ◌+◌, ◌-◌, ◌*◌, ◌≤◌, ◌<◌, ◌≡◌, refl, ap, ◌⊎◌, inl, inr, false, Option, none, some,
  arith, ◌==◌, ltb, Bool-cases, [],
}
use blockrouter.Mempool.Shares.{Blocks}
use blockrouter.Mempool.Pool.Pages.{
  occurs, occurs-append, slots, slots-bounds, slots-once, slots-apart, IsMapping, page, page-none,
  page-some, all_slots,
}

order : (m m' : ℕ) → (m ≡ m') ⊎ ((m < m') ⊎ (m' < m))
order m m' = elim (Bool-cases (m == m')) [
  | inl same ↦ inl (ground arith)
  | inr other ↦ elim (Bool-cases (ltb m m')) [
    | inl lower ↦ inr (inl (ground arith))
    | inr higher ↦ inr (inr (ground arith))
  ]
]

some_of : (x y : ℕ) → 0 < x + y → (0 < x) ⊎ (0 < y)
some_of zero y h = inr (omega arith)
some_of (suc x) y h = inl (omega arith)

some_or_none : (x : ℕ) → (x ≡ 0) ⊎ (0 < x)
some_or_none zero = inl refl
some_or_none (suc x) = inr (omega arith)

no_slot : (b : ℕ) → 0 < occurs b [] → ⊥
unfolding occurs
no_slot b h = omega arith

module _ (map_anon : ℕ → Option ℕ) (size entries : ℕ) where
  record FromPage (b m : ℕ) : Type 0 where
    base : ℕ
    at : map_anon m ≡ some base
    slot : 0 < occurs b (slots size base entries)

  mapped-cases : (o : Option ℕ) → (o ≡ none) ⊎ ((base : ℕ) × (o ≡ some base))
  mapped-cases none = inl refl
  mapped-cases (some base) = inr (base, refl)

  page-FromPage : (b m : ℕ) → 0 < occurs b (page map_anon size entries m) → FromPage b m
  page-FromPage b m h = elim (mapped-cases (map_anon m)) [
    | inl failed ↦ absurd (omega (arith, page-none map_anon size entries m b failed))
    | inr (base, at) ↦ record {
      base = base;
      at = at;
      slot = omega (arith, ap (occurs b) (page-some map_anon size entries m base at));
    }
  ]

  -- A slice of some page.
  abbrev pub IsSlice : ℕ → Type 0
  IsSlice b = (m : ℕ) × (0 < occurs b (page map_anon size entries m))

  module _ (M : IsMapping map_anon (entries * size)) (room : 4 ≤ size) where
    pages-apart :
        (a b m m' : ℕ)
        → m < m'
        → 0 < occurs a (page map_anon size entries m)
        → 0 < occurs b (page map_anon size entries m')
        → (a + size ≤ b) ⊎ (b + size ≤ a)
    pages-apart a b m m' lower in_a in_b =
        let f = page-FromPage a m in_a in
        let g = page-FromPage b m' in_b in
        let (low, high) = slots-bounds size a f.base entries f.slot in
        let (low', high') = slots-bounds size b g.base entries g.slot in
        elim (M.apart m m' f.base g.base f.at g.at lower) [
          | inl before ↦ inl (omega arith)
          | inr behind ↦ inr (omega arith)
        ]

    -- Two slices, of one page or of two, are a whole slice apart.
    pub slices-apart :
        (a b : ℕ) → IsSlice a → IsSlice b → (a == b) ≡ false → (a + size ≤ b) ⊎ (b + size ≤ a)
    slices-apart a b (m, in_a) (m', in_b) other = elim (order m m') [
      | inl same ↦
          let f = page-FromPage a m in_a in
          let in_b' : 0 < occurs b (slots size f.base entries) = omega (
            arith,
            ap (λ (k : ℕ). occurs b (page map_anon size entries k)) same,
            ap (occurs b) (page-some map_anon size entries m f.base f.at),
          ) in
          slots-apart size a b f.base entries f.slot in_b' other
      | inr (inl lower) ↦ pages-apart a b m m' lower in_a in_b
      | inr (inr higher) ↦ elim (pages-apart b a m' m higher in_b in_a) [
        | inl before ↦ inr before
        | inr behind ↦ inl behind
      ]
    ]

    pub by_size :
        (a b : ℕ)
        → (a + size ≤ b) ⊎ (b + size ≤ a)
        → (a + (size - 4) + 4 ≤ b) ⊎ (b + (size - 4) + 4 ≤ a)
    by_size a b (inl before) = inl (omega arith)
    by_size a b (inr behind) = inr (omega arith)

    -- The slices are the blocks that parts live in.
    unfoldable pub slice_blocks : Blocks
    slice_blocks = record {
      realsize = size - 4;
      IsBlock = IsSlice;
      blocks_apart = λ a b in_a in_b other. by_size a b (slices-apart a b in_a in_b other);
    }

    pub all_slots-page :
        (b m : ℕ)
        → 0 < occurs b (all_slots map_anon size entries m)
        → (k : ℕ) × (k < m) × (0 < occurs b (page map_anon size entries k))
    unfolding all_slots
    all_slots-page b zero h = absurd (no_slot b h)
    all_slots-page b (suc m) h =
        elim (some_of (occurs b (page map_anon size entries m))
          (occurs b (all_slots map_anon size entries m))
          (omega (
            arith,
            occurs-append b (page map_anon size entries m) (all_slots map_anon size entries m),
          ))) [
            | inl here ↦ (m, omega arith, here)
            | inr below ↦ let (k, low, at) = all_slots-page b m below in (k, omega arith, at)
          ]

    -- A slice of an earlier page is not in a later one.
    new_page :
        (b k m : ℕ)
        → k < m
        → 0 < occurs b (page map_anon size entries k)
        → occurs b (page map_anon size entries m) ≡ 0
    new_page b k m lower at = elim (some_or_none (occurs b (page map_anon size entries m))) [
      | inl gone ↦ gone
      | inr again ↦
          absurd (elim (pages-apart b b k m lower at again) [
            | inl h ↦ omega arith
            | inr h ↦ omega arith
          ])
    ]

    page-once : (b m : ℕ) → occurs b (page map_anon size entries m) ≤ 1
    page-once b m = elim (mapped-cases (map_anon m)) [
      | inl failed ↦ omega (arith, page-none map_anon size entries m b failed)
      | inr (base, at) ↦ omega (
        arith,
        ap (occurs b) (page-some map_anon size entries m base at),
        slots-once size b base entries (omega arith),
      )
    ]

    -- No slice is there twice.
    pub all_slots-once : (b m : ℕ) → occurs b (all_slots map_anon size entries m) ≤ 1
    unfolding all_slots occurs
    all_slots-once b zero = omega arith
    all_slots-once b (suc m) = elim (some_or_none (occurs b (all_slots map_anon size entries m))) [
      | inl gone ↦ omega (
        arith,
        gone,
        page-once b m,
        occurs-append b (page map_anon size entries m) (all_slots map_anon size entries m),
      )
      | inr below ↦
          let (k, low, at) = all_slots-page b m below in
          omega (
            arith,
            new_page b k m low at,
            all_slots-once b m,
            occurs-append b (page map_anon size entries m) (all_slots map_anon size entries m),
          )
    ]
