-- ===== src/Mempool/Threads/Turns.antt =====
-- src/mempool.rs: what a thread's turn does to the counter, with the other threads.
use blockrouter.Prelude.{
  at_most, either, ℕ, ◌+◌, ◌-◌, ◌*◌, ◌^◌, ◌≤◌, ◌<◌, ◌≡◌, refl, sym, inl, inr, Bool, Option, none,
  some, arith, List, [], ◌∷◌, ◌++◌, ltb, leb, Bool-cases,
}
use mathlib.Core.Path.{subst}
use blockrouter.Mempool.Part.{sub}
use blockrouter.Mempool.Pool.{GlobalMemPoolSettings, page_bytes, fetch_add, fetch_sub}
use blockrouter.Mempool.Threads.{
  Shared, Place, outside, popping, adding, mapping, pushing, leaving, backing, panicked, Thread,
  pop_shared, pop_cache, admit_place, mapped_place, push_turn, turn_at,
}
use blockrouter.Mempool.Threads.Weights.{counted, admitted}

-- What one thread and the others count.
pub record Counts (limit : ℕ) (sh : Shared) (place : Place) (others others_admitted : ℕ)
    : Type 0 where
  pub exact : sh.allocs ≡ counted place + others
  pub bounded : admitted place + others_admitted ≤ limit

module _ (checks : Bool) (map_anon : ℕ → ℕ → Option ℕ) (settings : GlobalMemPoolSettings) where
  abbrev pub limit : ℕ
  limit = settings.concurrent_allocation_limit

  pub record Fits (others others_admitted : ℕ) : Type 0 where
    pub some_limit : 0 < limit
    pub fewer : others_admitted ≤ others
    pub few : others + 1 < 2 ^ 64

  sub_one : 0 < limit → sub checks 64 limit 1 ≡ some (limit - 1)
  unfolding sub
  sub_one h = rw (at_most 1 limit h) refl

  -- The counters after a turn of a thread.
  abbrev pub After : ℕ → ℕ → Shared × Thread → Type 0
  After others others_admitted (sh, t) = Counts limit sh t.place others others_admitted

  adding-Counts :
      (allocs others others_admitted : ℕ)
      → Fits others others_admitted
      → allocs ≡ others
      → others_admitted ≤ limit
      → (fetch_add allocs ≡ counted (admit_place allocs (some (limit - 1))) + others)
        × (admitted (admit_place allocs (some (limit - 1))) + others_admitted ≤ limit)
  unfolding admit_place counted admitted fetch_add
  adding-Counts allocs others others_admitted f e within =
      elim (Bool-cases (leb allocs (limit - 1))) [
        | inl passed ↦ ground (arith, f.few, f.fewer, f.some_limit)
        | inr refused ↦ ground (arith, f.few, f.fewer, f.some_limit)
      ]

  pop_cache-After :
      (sh : Shared) (t : Thread) (others others_admitted : ℕ) (cache : List ℕ)
      → Counts limit sh outside others others_admitted
      → After others others_admitted (pop_cache sh t cache)
  unfolding pop_cache counted admitted
  pop_cache-After sh t others others_admitted [] c = record { exact = c.exact; bounded = c.bounded }
  pop_cache-After sh t others others_admitted (x ∷ rest) c = record {
    exact = c.exact;
    bounded = c.bounded;
  }

  pop_shared-After :
      (sh : Shared) (t : Thread) (others others_admitted : ℕ) (memory : List ℕ)
      → Counts limit sh popping others others_admitted
      → After others others_admitted (pop_shared sh t memory)
  unfolding pop_shared counted admitted
  pop_shared-After sh t others others_admitted [] c = record {
    exact = c.exact;
    bounded = c.bounded;
  }
  pop_shared-After sh t others others_admitted (x ∷ rest) c = record {
    exact = c.exact;
    bounded = c.bounded;
  }

  mapping-After :
      (sh : Shared) (o : Option ℕ) (others others_admitted : ℕ)
      → Counts limit sh mapping others others_admitted
      → Counts limit (record sh { mapped = sh.mapped + 1 }) (mapped_place o) others others_admitted
  unfolding mapped_place counted admitted
  mapping-After sh none others others_admitted c = record { exact = c.exact; bounded = c.bounded }
  mapping-After sh (some base) others others_admitted c = record {
    exact = c.exact;
    bounded = c.bounded;
  }

  push-After :
      (sh : Shared) (t : Thread) (base itr others others_admitted : ℕ)
      → Counts limit sh (pushing base itr) others others_admitted
      → After others others_admitted (push_turn checks map_anon settings sh t base itr)
  unfolding push_turn counted admitted
  push-After sh t base itr others others_admitted c =
      either (After others others_admitted) (ltb itr settings.page_entries)
        (
          record sh { memory = sh.memory ++ (base + itr * 2 ^ settings.buf_size) ∷ [] },
          record t { place = pushing base (itr + 1) },
        )
        (sh, record t { place = leaving base }) (record { exact = c.exact; bounded = c.bounded })
        (record { exact = c.exact; bounded = c.bounded })

  -- A turn keeps the counter exact, and admits no thread above the limit.
  pub turn_at-Counts :
      (place : Place) (sh : Shared) (t : Thread) (others others_admitted : ℕ)
      → Fits others others_admitted
      → Counts limit sh place others others_admitted
      → After others others_admitted (turn_at checks map_anon settings place sh t)
  unfolding turn_at counted admitted fetch_sub
  turn_at-Counts outside sh t others others_admitted f c =
      pop_cache-After sh t others others_admitted t.cache c
  turn_at-Counts popping sh t others others_admitted f c =
      pop_shared-After sh t others others_admitted sh.memory c
  turn_at-Counts adding sh t others others_admitted f c =
      let (exact, bounded) =
        adding-Counts sh.allocs others others_admitted f (omega (arith, c.exact))
          (omega (arith, c.bounded)) in
      subst
        (λ o.
          Counts limit (record sh { allocs = fetch_add sh.allocs }) (admit_place sh.allocs o) others
            others_admitted)
        (sym (sub_one f.some_limit)) (record { exact = exact; bounded = bounded })
  turn_at-Counts mapping sh t others others_admitted f c =
      mapping-After sh (map_anon (page_bytes settings) sh.mapped) others others_admitted c
  turn_at-Counts (pushing base itr) sh t others others_admitted f c =
      push-After sh t base itr others others_admitted c
  turn_at-Counts (leaving base) sh t others others_admitted f c = record {
    exact = omega (arith, c.exact, f.few);
    bounded = omega (arith, c.bounded);
  }
  turn_at-Counts backing sh t others others_admitted f c = record {
    exact = omega (arith, c.exact, f.few);
    bounded = omega (arith, c.bounded);
  }
  turn_at-Counts panicked sh t others others_admitted f c = record {
    exact = c.exact;
    bounded = c.bounded;
  }
