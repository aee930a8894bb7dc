-- ===== src/Mempool/Pool/Places.antt =====
-- src/mempool.rs: where the slices of a pool are: in the cache, in the queue, or with parts.
use blockrouter.Prelude.{
  at_most, ℕ, zero, suc, ◌+◌, ◌-◌, ◌*◌, ◌^◌, ◌<◌, ◌≡◌, refl, sym, ap, ◌∙◌, inl, inr, Bool, Option,
  none, some, arith, List, [], ◌∷◌, length, ◌==◌, ltb, if◌then◌else◌, List-cases, Bool-cases,
}
use mathlib.Core.Path.{subst}
use blockrouter.Mempool.Part
use blockrouter.Mempool.Pool.{
  GlobalMemPool, Taken, taken, page_bytes, reclaim, take_slice, allocate_global, map_page, admit,
  pop_or, cached_or, fetch_add, fetch_sub, push_slices,
}
use blockrouter.Mempool.Pool.Pages.{
  occurs, occurs-append, slots, push_slices-occurs, page, page-some, all_slots,
}

-- How often a slice is free.
unfoldable pub free : ℕ → GlobalMemPool → ℕ
free b pool = occurs b pool.cache + occurs b pool.memory

unfoldable pub one_if : ℕ → ℕ → ℕ
one_if slice b = if slice == b then 1 else 0

one_on : (base size : ℕ) → base + size ≡ base + 1 * size
one_on base size = grind arith

one_less : (n : ℕ) → suc n - 1 ≡ n
one_less n = omega arith

plus_one : (m : ℕ) → m + 1 ≡ suc m
plus_one m = omega arith

pub occurs-cons : (b x : ℕ) (xs : List ℕ) → occurs b (x ∷ xs) ≡ one_if x b + occurs b xs
unfolding occurs one_if
occurs-cons b x xs = refl

pub occurs-nil : (b : ℕ) → occurs b [] ≡ 0
unfolding occurs
occurs-nil b = refl

-- reclaim makes the slice free once more, whether the cache has room or not.
pub free-reclaim :
    (b slice : ℕ) (pool : GlobalMemPool)
    → free b (reclaim pool slice) ≡ one_if slice b + free b pool
unfolding free reclaim
free-reclaim b slice pool = elim (Bool-cases (ltb 0 (pool.capacity - length pool.cache))) [
  | inl roomy ↦ rw roomy (omega (arith, occurs-cons b slice pool.cache))
  | inr full ↦ rw full (
      omega (arith, occurs-append b pool.memory (slice ∷ []), occurs-cons b slice [], occurs-nil b))
]

pub slots-first :
    (b size base n : ℕ)
    → 0 < n
    → occurs b (slots size base n) ≡ one_if base b + occurs b (slots size (base + 1 * size) (n - 1))
unfolding slots
slots-first b size base zero h = absurd (omega arith)
slots-first b size base (suc n) h = omega (
  arith,
  occurs-cons b base (slots size (base + size) n),
  ap (λ (p : ℕ). occurs b (slots size p n)) (one_on base size),
  ap (λ (k : ℕ). occurs b (slots size (base + 1 * size) k)) (one_less n),
)

pub all_slots-next :
    (map_anon : ℕ → Option ℕ) (size entries b m : ℕ)
    → occurs b (all_slots map_anon size entries (m + 1))
      ≡ occurs b (page map_anon size entries m) + occurs b (all_slots map_anon size entries m)
unfolding all_slots
all_slots-next map_anon size entries b m =
    ap (λ k. occurs b (all_slots map_anon size entries k)) (plus_one m)
    ∙ occurs-append b (page map_anon size entries m) (all_slots map_anon size entries m)

module _ (checks : Bool) (map_anon : ℕ → ℕ → Option ℕ) (fuel : ℕ) where
  -- A slice was taken: it is one that was free, or one of a new page, whose others are free now.
  pub record Takes (pool : GlobalMemPool) (run : Taken) : Type 0 where
    pub pool' : GlobalMemPool
    pub slice : ℕ
    pub ran : run ≡ taken pool' slice
    pub same_settings : pool'.settings ≡ pool.settings
    pub quiet : pool'.allocs ≡ 0
    pub places :
        (b : ℕ)
        → free b pool'
            + one_if slice b
            + occurs b (
                all_slots
                  (map_anon (page_bytes pool.settings))
                  (2 ^ pool.settings.buf_size)
                  pool.settings.page_entries
                  pool.mapped)
          ≡ free b pool
            + occurs b (
                all_slots
                  (map_anon (page_bytes pool.settings))
                  (2 ^ pool.settings.buf_size)
                  pool.settings.page_entries
                  pool'.mapped)

  -- The new page, in a pool whose queue is empty.
  page-places :
      (pool : GlobalMemPool) (base : ℕ)
      → map_anon (page_bytes pool.settings) pool.mapped ≡ some base
      → 0 < pool.settings.page_entries
      → pool.allocs ≡ 0
      → Takes pool (map_page pool (some base))
  unfolding map_page fetch_add fetch_sub free
  page-places pool base at some_entries quiet =
      let s = pool.settings in
      record {
        pool' = record pool {
          memory = push_slices s.buf_size base 1 (s.page_entries - 1) pool.memory;
          allocs = fetch_sub (fetch_add pool.allocs);
          mapped = pool.mapped + 1;
        };
        slice = base;
        ran = refl;
        same_settings = refl;
        quiet = omega arith;
        places = λ b. omega (
          arith,
          push_slices-occurs s.buf_size base 1 (s.page_entries - 1) b pool.memory,
          slots-first b (2 ^ s.buf_size) base s.page_entries some_entries,
          all_slots-next (map_anon (page_bytes s)) (2 ^ s.buf_size) s.page_entries b pool.mapped,
          ap (occurs b) (
              page-some (map_anon (page_bytes s)) (2 ^ s.buf_size) s.page_entries pool.mapped base
                at),
        );
      }

  -- A slice of the queue, whose first entry it is.
  queue-places :
      (pool : GlobalMemPool) (slice : ℕ) (rest : List ℕ)
      → pool.memory ≡ slice ∷ rest
      → pool.allocs ≡ 0
      → Takes pool (taken (record pool { memory = rest }) slice)
  unfolding free
  queue-places pool slice rest e quiet = record {
    pool' = record pool { memory = rest };
    slice = slice;
    ran = refl;
    same_settings = refl;
    quiet = quiet;
    places = λ b. omega (arith, ap (occurs b) e, occurs-cons b slice rest);
  }

  cache-places :
      (pool : GlobalMemPool) (slice : ℕ) (rest : List ℕ)
      → pool.cache ≡ slice ∷ rest
      → pool.allocs ≡ 0
      → Takes pool (taken (record pool { cache = rest }) slice)
  unfolding free
  cache-places pool slice rest e quiet = record {
    pool' = record pool { cache = rest };
    slice = slice;
    ran = refl;
    same_settings = refl;
    quiet = quiet;
    places = λ b. omega (arith, ap (occurs b) e, occurs-cons b slice rest);
  }

  -- What the queue and the counter lead to, where no other thread allocates.
  round-mapped :
      (pool : GlobalMemPool) (base : ℕ) (again : Taken)
      → 0 < pool.settings.concurrent_allocation_limit
      → pool.allocs ≡ 0
      → map_anon (page_bytes pool.settings) pool.mapped ≡ some base
      → admit checks map_anon pool
          (Part.sub checks 64 pool.settings.concurrent_allocation_limit 1)
          again
        ≡ map_page pool (some base)
  unfolding admit Part.sub
  round-mapped pool base again some_limit quiet at =
      let limit = pool.settings.concurrent_allocation_limit in
      ap
        (λ t.
          admit checks map_anon pool
            (if t then some (limit - 1) else if checks then none else some (limit + 2 ^ 64 - 1))
            again)
        (at_most 1 limit some_limit)
      ∙ (ap
            (λ t.
              if t then map_page pool (map_anon (page_bytes pool.settings) pool.mapped) else again)
            (at_most pool.allocs (limit - 1) (omega arith))
          ∙ ap (map_page pool) at)

  global-Takes :
      (pool : GlobalMemPool) (base : ℕ)
      → 0 < pool.settings.page_entries
      → 0 < pool.settings.concurrent_allocation_limit
      → pool.allocs ≡ 0
      → map_anon (page_bytes pool.settings) pool.mapped ≡ some base
      → Takes pool (allocate_global checks map_anon (suc fuel) pool)
  unfolding allocate_global pop_or
  global-Takes pool base some_entries some_limit quiet at =
      let again : Taken =
        allocate_global checks map_anon fuel
          (record pool { allocs = fetch_sub (fetch_add pool.allocs) }) in
      let mapping : Taken =
        admit checks map_anon pool (Part.sub checks 64 pool.settings.concurrent_allocation_limit 1)
          again in
      elim (List-cases pool.memory) [
        | inr (slice, rest, e) ↦
            subst (Takes pool) (sym (ap (λ m. pop_or pool m mapping) e))
              (queue-places pool slice rest e quiet)
        | inl e ↦
            subst (Takes pool)
              (sym (
                ap (λ m. pop_or pool m mapping) e
                ∙ round-mapped pool base again some_limit quiet at))
              (page-places pool base at some_entries quiet)
      ]

  -- take_slice with one round of fuel or more, where the limit and the pages are not empty, no other
  -- thread allocates and a new mapping does not fail: it gives a slice.
  pub take_slice-Takes :
      (pool : GlobalMemPool) (base : ℕ)
      → 0 < pool.settings.page_entries
      → 0 < pool.settings.concurrent_allocation_limit
      → pool.allocs ≡ 0
      → map_anon (page_bytes pool.settings) pool.mapped ≡ some base
      → Takes pool (take_slice checks map_anon (suc fuel) pool)
  unfolding take_slice cached_or
  take_slice-Takes pool base some_entries some_limit quiet at = elim (List-cases pool.cache) [
    | inr (slice, rest, e) ↦
        subst (Takes pool)
          (sym (ap (λ c. cached_or pool c (allocate_global checks map_anon (suc fuel) pool)) e))
          (cache-places pool slice rest e quiet)
    | inl e ↦
        subst (Takes pool)
          (sym (ap (λ c. cached_or pool c (allocate_global checks map_anon (suc fuel) pool)) e))
          (global-Takes pool base some_entries some_limit quiet at)
  ]
