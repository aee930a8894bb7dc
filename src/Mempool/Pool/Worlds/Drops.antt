-- ===== src/Mempool/Pool/Worlds/Drops.antt =====
-- src/mempool.rs: the drop of a part, with everything else in the world.
use blockrouter.Prelude.{
  ℕ, ◌+◌, ◌-◌, ◌^◌, ◌≡◌, refl, sym, ap, ◌∙◌, inl, inr, Bool, Option, none, some, arith, ◌∷◌, length,
  min, ◌==◌, ltb, if◌then◌else◌, Bool-cases, true, false, List,
}
use blockrouter.Mempool.Memory.{Memory}
use blockrouter.Mempool.Part
use blockrouter.Mempool.Part.{Part, deref}
use blockrouter.Mempool.Shares.{parts_of, IsInside}
use blockrouter.Mempool.Shares.Calls.{Drops, drop-Drops}
use blockrouter.Mempool.Pool.{GlobalMemPool, GlobalMemPoolSettings, realsize, reclaim, drop_part}
use blockrouter.Mempool.Pool.Pages.{occurs, all_slots}
use blockrouter.Mempool.Pool.Slices.{slice_blocks}
use blockrouter.Mempool.Pool.Places.{free, one_if, free-reclaim}
use blockrouter.Mempool.Pool.Worlds.{pages_of, IsUsable, blocks, Kept, parts_of-cons}

record Same (pool pool' : GlobalMemPool) : Type 0 where
  settings : pool'.settings ≡ pool.settings
  allocs : pool'.allocs ≡ pool.allocs
  mapped : pool'.mapped ≡ pool.mapped

reclaim-Same : (pool : GlobalMemPool) (slice : ℕ) → Same pool (reclaim pool slice)
unfolding reclaim
reclaim-Same pool slice = elim (Bool-cases (ltb 0 (pool.capacity - length pool.cache))) [
  | inl roomy ↦ record { settings = rw roomy refl; allocs = rw roomy refl; mapped = rw roomy refl }
  | inr full ↦ record { settings = rw full refl; allocs = rw full refl; mapped = rw full refl }
]

at_same : (a b : ℕ) (ps : List Part) → (a == b) ≡ true → parts_of a ps ≡ parts_of b ps
at_same a b ps h = let e : a ≡ b = ground arith in ap (λ (c : ℕ). parts_of c ps) e

module _ (checks : Bool) (map_anon : ℕ → ℕ → Option ℕ) (st : GlobalMemPoolSettings)
    (U : IsUsable map_anon st) where
  -- The drop of the first of the parts.
  pub record DropsPart (pool : GlobalMemPool) (mem : Memory) (p : Part) (ps : List Part)
      : Type 0 where
    pub pool' : GlobalMemPool
    pub mem' : Memory
    pub ran : drop_part checks map_anon pool mem p ≡ some (pool', mem')
    pub kept : Kept checks map_anon st U (record { pool = pool'; mem = mem'; parts = ps })
    pub others : (q : Part) → IsInside (blocks checks map_anon st U) q → deref mem' q ≡ deref mem q

  abbrev left_of : GlobalMemPool → Part → Bool → GlobalMemPool
  left_of pool p last = if last then reclaim pool p.parent_slice else pool

  drop_part-left :
      (pool : GlobalMemPool) (mem mem' : Memory) (p : Part) (last : Bool)
      → Part.drop checks (realsize pool.settings) mem p
        ≡ some (mem', if last then some p.parent_slice else none)
      → drop_part checks map_anon pool mem p ≡ some (left_of pool p last, mem')
  unfolding drop_part
  drop_part-left pool mem mem' p true e = rw (drop_part, e) refl
  drop_part-left pool mem mem' p false e = rw (drop_part, e) refl

  left-Same : (pool : GlobalMemPool) (p : Part) (last : Bool) → Same pool (left_of pool p last)
  left-Same pool p true = reclaim-Same pool p.parent_slice
  left-Same pool p false = record { settings = refl; allocs = refl; mapped = refl }

  -- The block of the part that is dropped is free from now on if no other part is in it.
  left_place :
      (pool : GlobalMemPool) (mem : Memory) (p : Part) (ps : List Part) (b : ℕ)
      → free b (left_of pool p (parts_of p.parent_slice ps == 0)) + min 1 (parts_of b ps)
        ≡ free b pool + min 1 (parts_of b (p ∷ ps))
  unfolding one_if
  left_place pool mem p ps b =
      let a : ℕ = p.parent_slice in
      let cons = parts_of-cons checks map_anon st U b p ps in
      elim (Bool-cases (parts_of p.parent_slice ps == 0)) [
        | inl last ↦ rw last (elim (Bool-cases (p.parent_slice == b)) [
          | inl same ↦ ground (arith, cons, free-reclaim b p.parent_slice pool, at_same a b ps same)
          | inr other ↦ ground (arith, cons, free-reclaim b p.parent_slice pool)
        ])
        | inr shared ↦ rw shared (elim (Bool-cases (p.parent_slice == b)) [
          | inl same ↦ ground (arith, cons, at_same a b ps same)
          | inr other ↦ ground (arith, cons)
        ])
      ]

  -- The drop of any part, in a world where everything is in its place: it does not panic, everything
  -- is in its place again, and no other part's bytes change.
  pub drop_part-Drops :
      (pool : GlobalMemPool) (mem : Memory) (p : Part) (ps : List Part)
      → Kept checks map_anon st U (record { pool = pool; mem = mem; parts = p ∷ ps })
      → DropsPart pool mem p ps
  unfolding realsize slice_blocks
  drop_part-Drops pool mem p ps k =
      let d : Drops (blocks checks map_anon st U) checks mem p ps =
        drop-Drops (blocks checks map_anon st U) checks mem p ps k.sound in
      let last = parts_of p.parent_slice ps == 0 in
      let same = left-Same pool p last in
      record {
        pool' = left_of pool p last;
        mem' = d.mem';
        ran =
            drop_part-left pool mem d.mem' p last
              (ap (λ s. Part.drop checks (realsize s) mem p) k.same_settings ∙ d.ran);
        kept = record {
          sound = d.sound;
          same_settings = same.settings ∙ k.same_settings;
          quiet = same.allocs ∙ k.quiet;
          placed = λ b.
              left_place pool mem p ps b
              ∙ (k.placed b
                  ∙ sym (
                      ap
                        (λ (m : ℕ).
                          occurs b
                            (all_slots (pages_of map_anon st) (2 ^ st.buf_size) st.page_entries m))
                        same.mapped));
        };
        others = d.others;
      }
