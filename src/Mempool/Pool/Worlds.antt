-- ===== src/Mempool/Pool/Worlds.antt =====
-- src/mempool.rs: a pool with its memory and the parts that are alive, all in one thread.
pub mod Calls
pub mod Drops
pub mod Runs
pub mod Histories
pub mod Reach
use blockrouter.Prelude.{
  ℕ, zero, suc, ◌+◌, ◌-◌, ◌*◌, ◌^◌, ◌≤◌, ◌<◌, ◌≡◌, refl, sym, ap, ◌∙◌, inl, inr, Bool, Option, none,
  some, arith, List, [], ◌∷◌, ◌++◌, length, min, ◌==◌, if◌then◌else◌, Bool-cases, true, false, All,
}
use mathlib.Core.Path.{subst}
use native.Mathlib.Nat.{mod-eq_of_lt}
use blockrouter.Mempool.Memory.{Memory}
use blockrouter.Mempool.Part
use blockrouter.Mempool.Part.{Part, deref, whole}
use blockrouter.Mempool.Shares.{parts_of, Blocks, IsInside, IsSound, deref-count}
use blockrouter.Mempool.Shares.Windows.{own_part, other_part, whole-IsSound}
use blockrouter.Mempool.Pool
use blockrouter.Mempool.Pool.{
  GlobalMemPool, GlobalMemPoolSettings, page_bytes, realsize, reclaim, take_slice, allocate,
  drop_part,
}
use blockrouter.Mempool.Pool.Pages.{occurs, IsMapping, all_slots}
use blockrouter.Mempool.Pool.Slices.{slice_blocks, all_slots-page, all_slots-once}
use blockrouter.Mempool.Pool.Places.{free, one_if, free-reclaim, Takes, take_slice-Takes}

-- The mappings that pages of the settings are made of.
abbrev pub pages_of : (ℕ → ℕ → Option ℕ) → GlobalMemPoolSettings → ℕ → Option ℕ
pages_of map_anon st = map_anon (page_bytes st)

-- Settings that make sense, and mappings that do not fail.
pub record IsUsable (map_anon : ℕ → ℕ → Option ℕ) (st : GlobalMemPoolSettings) : Type 0 where
  pub mapping : (bytes : ℕ) → IsMapping (map_anon bytes) bytes
  pub succeeds : (m : ℕ) → (base : ℕ) × (map_anon (page_bytes st) m ≡ some base)
  pub some_entries : 0 < st.page_entries
  pub some_limit : 0 < st.concurrent_allocation_limit
  pub room : 4 ≤ 2 ^ st.buf_size
  pub in_word : st.page_entries * 2 ^ st.buf_size < 2 ^ 64

-- The length that a page asks for is that of its slices.
pub apart_pages :
    (map_anon : ℕ → ℕ → Option ℕ) (st : GlobalMemPoolSettings)
    → IsUsable map_anon st
    → IsMapping (pages_of map_anon st) (st.page_entries * 2 ^ st.buf_size)
unfolding page_bytes
apart_pages map_anon st U =
    subst (λ bytes. IsMapping (pages_of map_anon st) bytes) (mod-eq_of_lt U.in_word)
      (U.mapping (page_bytes st))

pub record World : Type 0 where
  pub pool : GlobalMemPool
  pub mem : Memory
  pub parts : List Part

module _ (checks : Bool) (map_anon : ℕ → ℕ → Option ℕ) (st : GlobalMemPoolSettings)
    (U : IsUsable map_anon st) where
  abbrev pub blocks : Blocks
  blocks =
      slice_blocks (pages_of map_anon st) (2 ^ st.buf_size) st.page_entries
        (apart_pages map_anon st U) U.room

  -- The parts are sound, and every slice of every mapped page is in one place: free once and without
  -- parts, or not free and with parts.
  pub record Kept (w : World) : Type 0 where
    pub sound : IsSound blocks w.mem w.parts
    pub same_settings : w.pool.settings ≡ st
    pub quiet : w.pool.allocs ≡ 0
    pub placed :
        (b : ℕ)
        → free b w.pool + min 1 (parts_of b w.parts)
          ≡ occurs b
              (all_slots (pages_of map_anon st) (2 ^ st.buf_size) st.page_entries w.pool.mapped)

  -- `allocate` gave a part over a whole slice, and no part's bytes changed.
  pub record Allocates (fuel : ℕ) (w : World) : Type 0 where
    pub pool' : GlobalMemPool
    pub mem' : Memory
    pub part : Part
    pub ran : allocate checks map_anon fuel w.pool w.mem ≡ some (pool', (mem', part))
    pub size : part.len ≡ realsize st
    pub kept : Kept (record { pool = pool'; mem = mem'; parts = part ∷ w.parts })
    pub others : (q : Part) → IsInside blocks q → deref mem' q ≡ deref w.mem q

  pub taken-allocate :
      (fuel : ℕ) (w : World)
      (t : Takes checks map_anon fuel w.pool (take_slice checks map_anon (suc fuel) w.pool))
      → w.pool.settings ≡ st
      → allocate checks map_anon (suc fuel) w.pool w.mem
        ≡ some (t.pool', whole (realsize st) w.mem t.slice)
  unfolding allocate
  taken-allocate fuel w t same =
      rw (allocate, t.ran)
        (ap (λ s. some (t.pool', whole (realsize s) w.mem t.slice)) (t.same_settings ∙ same))

  -- The slots of the settings, by the pool's.
  pub slots_by :
      (w : World) (b m : ℕ)
      → w.pool.settings ≡ st
      → occurs b (
          all_slots
            (pages_of map_anon w.pool.settings)
            (2 ^ w.pool.settings.buf_size)
            w.pool.settings.page_entries
            m)
        ≡ occurs b (all_slots (pages_of map_anon st) (2 ^ st.buf_size) st.page_entries m)
  slots_by w b m same =
      ap (λ s. occurs b (all_slots (pages_of map_anon s) (2 ^ s.buf_size) s.page_entries m)) same

  pub one_if-same : (b : ℕ) → one_if b b ≡ 1
  unfolding one_if
  one_if-same b = ground arith

  pub parts_of-cons :
      (b : ℕ) (p : Part) (ps : List Part)
      → parts_of b (p ∷ ps) ≡ one_if p.parent_slice b + parts_of b ps
  unfolding parts_of one_if
  parts_of-cons b p ps = refl
