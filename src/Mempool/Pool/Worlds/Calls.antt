-- ===== src/Mempool/Pool/Worlds/Calls.antt =====
-- src/mempool.rs: `allocate` and the drop of a part, with everything else in the world.
use blockrouter.Prelude.{
  ℕ, suc, ◌+◌, ◌^◌, ◌<◌, ◌≡◌, refl, sym, ap, ◌∙◌, inl, inr, Bool, Option, arith, ◌∷◌, length, min,
  ◌==◌, Bool-cases, true,
}
use mathlib.Core.Path.{subst}
use blockrouter.Mempool.Part.{Part, whole}
use blockrouter.Mempool.Shares.{parts_of, deref-count}
use blockrouter.Mempool.Shares.Windows.{whole-IsSound}
use blockrouter.Mempool.Pool.{GlobalMemPoolSettings, realsize, take_slice}
use blockrouter.Mempool.Pool.Pages.{occurs, all_slots}
use blockrouter.Mempool.Pool.Slices.{IsSlice, slice_blocks, all_slots-page, all_slots-once}
use blockrouter.Mempool.Pool.Places.{free, one_if, Takes, take_slice-Takes}
use blockrouter.Mempool.Pool.Worlds.{
  pages_of, apart_pages, IsUsable, World, blocks, Kept, Allocates, taken-allocate, slots_by,
  one_if-same, parts_of-cons,
}

module _ (checks : Bool) (map_anon : ℕ → ℕ → Option ℕ) (st : GlobalMemPoolSettings)
    (U : IsUsable map_anon st) where
  -- The slice that was taken has no parts.
  record IsNew (w : World) (mapped slice : ℕ) : Type 0 where
    slot : IsSlice (pages_of map_anon st) (2 ^ st.buf_size) st.page_entries slice
    none_yet : parts_of slice w.parts ≡ 0

  taken-IsNew :
      (fuel : ℕ) (w : World)
      (t : Takes checks map_anon fuel w.pool (take_slice checks map_anon (suc fuel) w.pool))
      → Kept checks map_anon st U w
      → IsNew w t.pool'.mapped t.slice
  taken-IsNew fuel w t k =
      let all = all_slots (pages_of map_anon st) (2 ^ st.buf_size) st.page_entries in
      let once =
        all_slots-once (pages_of map_anon st) (2 ^ st.buf_size) st.page_entries
          (apart_pages map_anon st U) U.room t.slice t.pool'.mapped in
      let facts : occurs t.slice (all t.pool'.mapped) ≡ 1 × (parts_of t.slice w.parts ≡ 0) = omega (
        arith,
        t.places t.slice,
        k.placed t.slice,
        one_if-same checks map_anon st U t.slice,
        slots_by checks map_anon st U w t.slice w.pool.mapped k.same_settings,
        slots_by checks map_anon st U w t.slice t.pool'.mapped k.same_settings,
        once,
      ) in
      let (page, low, at) =
        all_slots-page (pages_of map_anon st) (2 ^ st.buf_size) st.page_entries
          (apart_pages map_anon st U) U.room t.slice t.pool'.mapped (omega arith) in
      record { slot = (page, at); none_yet = facts.1 }

  none_at :
      (w : World) (slice b : ℕ)
      → (slice == b) ≡ true
      → parts_of slice w.parts ≡ 0
      → parts_of b w.parts ≡ 0
  none_at w slice b same h =
      let e : slice ≡ b = ground arith in sym (ap (λ (c : ℕ). parts_of c w.parts) e) ∙ h

  new_place :
      (fuel : ℕ) (w : World)
      (t : Takes checks map_anon fuel w.pool (take_slice checks map_anon (suc fuel) w.pool))
      → Kept checks map_anon st U w
      → IsNew w t.pool'.mapped t.slice
      → (b : ℕ)
      → free b t.pool' + min 1 (parts_of b ((whole (realsize st) w.mem t.slice).1 ∷ w.parts))
        ≡ occurs b
            (all_slots (pages_of map_anon st) (2 ^ st.buf_size) st.page_entries t.pool'.mapped)
  unfolding whole one_if
  new_place fuel w t k fresh b =
      let part : Part = (whole (realsize st) w.mem t.slice).1 in
      let cons = parts_of-cons checks map_anon st U b part w.parts in
      let before = slots_by checks map_anon st U w b w.pool.mapped k.same_settings in
      let after = slots_by checks map_anon st U w b t.pool'.mapped k.same_settings in
      elim (Bool-cases (t.slice == b)) [
        | inl same ↦ ground (
          arith,
          cons,
          t.places b,
          k.placed b,
          before,
          after,
          none_at w t.slice b same fresh.none_yet,
        )
        | inr other ↦ ground (arith, cons, t.places b, k.placed b, before, after)
      ]

  -- With usable settings (a limit and a number of entries above 0, slices of 4 bytes at least, pages
  -- of less than 2^64 bytes) and mappings that never fail, have the length asked for and overlap
  -- nowhere: allocate in a world where everything is in its place, with fewer than 2^32 - 1 parts, does
  -- not panic and does not spin; the new part is a whole slice that has no other part, everything is
  -- in its place again, and no part's bytes change.
  pub allocate-Allocates :
      (fuel : ℕ) (w : World)
      → Kept checks map_anon st U w
      → length w.parts + 1 < 2 ^ 32
      → Allocates checks map_anon st U (suc fuel) w
  unfolding whole realsize slice_blocks
  allocate-Allocates fuel w k few =
      let same = k.same_settings in
      let (base, at) = U.succeeds w.pool.mapped in
      let t =
        take_slice-Takes checks map_anon fuel w.pool base
          (subst (λ s. 0 < s.page_entries) (sym same) U.some_entries)
          (subst (λ s. 0 < s.concurrent_allocation_limit) (sym same) U.some_limit) k.quiet
          (ap (λ s. pages_of map_anon s w.pool.mapped) same ∙ at) in
      let fresh = taken-IsNew fuel w t k in
      let slice = t.slice in
      record {
        pool' = t.pool';
        mem' = (whole (realsize st) w.mem slice).0;
        part = (whole (realsize st) w.mem slice).1;
        ran = taken-allocate checks map_anon st U fuel w t same;
        size = refl;
        kept = record {
          sound =
              whole-IsSound (blocks checks map_anon st U) w.mem slice w.parts k.sound fresh.slot
                fresh.none_yet few;
          same_settings = t.same_settings ∙ same;
          quiet = t.quiet;
          placed = λ b. new_place fuel w t k fresh b;
        };
        others = λ q i. deref-count (blocks checks map_anon st U) w.mem q slice 1 i fresh.slot;
      }
