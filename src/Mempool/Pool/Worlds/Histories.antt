-- ===== src/Mempool/Pool/Worlds/Histories.antt =====
-- src/mempool.rs: the calls of a part, with everything else in the world.
use blockrouter.Prelude.{
  ℕ, ◌+◌, ◌-◌, ◌^◌, ◌<◌, ◌≡◌, refl, ap, ◌∙◌, Bool, Option, some, arith, ◌∷◌, length, min, List, [],
  ◌++◌, All,
}
use blockrouter.Mempool.Memory.{Memory}
use blockrouter.Mempool.Part.{Part, deref, split_to}
use blockrouter.Mempool.Shares.{parts_of, IsInside, IsSound}
use blockrouter.Mempool.Shares.Calls.{Halves, split_to-Halves}
use blockrouter.Mempool.Shares.Windows.{narrow-IsSound}
use blockrouter.Mempool.Shares.Writes.{Writes, set_at-Writes}
use blockrouter.Mempool.Pool.{GlobalMemPool, GlobalMemPoolSettings, realsize}
use blockrouter.Mempool.Pool.Slices.{slice_blocks}
use blockrouter.Mempool.Pool.Places.{one_if}
use blockrouter.Mempool.Pool.Worlds.{IsUsable, blocks, Kept, parts_of-cons}
use blockrouter.Mempool.Pool.Worlds.Drops.{DropsPart, drop_part-Drops}
use blockrouter.Mempool.Pool.Worlds.Runs.{
  Call, splits, drops, advances, truncates, writes, IsInRange, call, splits-runs, drops-runs,
  writes-runs, advances-runs, truncates-runs,
}

module _ (checks : Bool) (map_anon : ℕ → ℕ → Option ℕ) (st : GlobalMemPoolSettings)
    (U : IsUsable map_anon st) where
  -- A call of the part `p`, with the parts `ps` beside it.
  pub record Called (c : Call) (pool : GlobalMemPool) (mem : Memory) (p : Part) (ps : List Part)
      : Type 0 where
    pub pool' : GlobalMemPool
    pub mem' : Memory
    pub left : List Part
    pub ran : call checks map_anon c pool mem p ≡ some (pool', (mem', left))
    pub kept : Kept checks map_anon st U (record { pool = pool'; mem = mem'; parts = left ++ ps })
    pub others : All (λ q. deref mem' q ≡ deref mem q) ps

  same_bytes :
      (mem mem' : Memory) (ps : List Part)
      → ((q : Part) → IsInside (blocks checks map_anon st U) q → deref mem' q ≡ deref mem q)
      → All (IsInside (blocks checks map_anon st U)) ps
      → All (λ q. deref mem' q ≡ deref mem q) ps
  same_bytes mem mem' [] same inside = tt
  same_bytes mem mem' (q ∷ qs) same inside = (same q inside.0, same_bytes mem mem' qs same inside.1)

  unchanged : (mem : Memory) (ps : List Part) → All (λ q. deref mem q ≡ deref mem q) ps
  unchanged mem [] = tt
  unchanged mem (q ∷ qs) = (refl, unchanged mem qs)

  -- The invariant for the same pool, where the parts of each block are some exactly if they were.
  same_pool :
      (pool : GlobalMemPool) (mem mem' : Memory) (ps qs : List Part)
      → Kept checks map_anon st U (record { pool = pool; mem = mem; parts = ps })
      → IsSound (blocks checks map_anon st U) mem' qs
      → ((b : ℕ) → min 1 (parts_of b qs) ≡ min 1 (parts_of b ps))
      → Kept checks map_anon st U (record { pool = pool; mem = mem'; parts = qs })
  same_pool pool mem mem' ps qs k sound as_many = record {
    sound = sound;
    same_settings = k.same_settings;
    quiet = k.quiet;
    placed = λ b. omega (arith, k.placed b, as_many b);
  }

  as_many_split :
      (b : ℕ) (p front back : Part) (ps : List Part)
      → front.parent_slice ≡ p.parent_slice
      → back.parent_slice ≡ p.parent_slice
      → min 1 (parts_of b (front ∷ back ∷ ps)) ≡ min 1 (parts_of b (p ∷ ps))
  unfolding one_if
  as_many_split b p front back ps e f = ground (
    arith,
    parts_of-cons checks map_anon st U b front (back ∷ ps),
    parts_of-cons checks map_anon st U b back ps,
    parts_of-cons checks map_anon st U b p ps,
    ap (λ (c : ℕ). one_if c b) e,
    ap (λ (c : ℕ). one_if c b) f,
  )

  as_many_narrow :
      (b : ℕ) (p : Part) (ptr len : ℕ) (ps : List Part)
      → min 1 (parts_of b (record p { ptr = ptr; len = len } ∷ ps)) ≡ min 1 (parts_of b (p ∷ ps))
  unfolding parts_of
  as_many_narrow b p ptr len ps = refl

  -- With usable settings and mappings that have the length asked for and overlap nowhere: any call in
  -- its range, in a world where everything is in its place, with fewer than 2^32 - 2 parts, does not
  -- panic; everything is in its place again, and no other part's bytes change.
  pub call-Called :
      (c : Call) (pool : GlobalMemPool) (mem : Memory) (p : Part) (ps : List Part)
      → Kept checks map_anon st U (record { pool = pool; mem = mem; parts = p ∷ ps })
      → IsInRange c p
      → length ps + 2 < 2 ^ 32
      → Called c pool mem p ps
  unfolding realsize slice_blocks
  call-Called (splits at) pool mem p ps k within room =
      let d : Halves (blocks checks map_anon st U) checks mem p at ps =
        split_to-Halves (blocks checks map_anon st U) checks mem p at ps k.sound within room in
      record {
        pool' = pool;
        mem' = d.mem';
        left = d.front ∷ d.back ∷ [];
        ran =
            splits-runs checks map_anon pool mem d.mem' p d.front d.back at
              (ap (λ s. split_to checks (realsize s) mem p at) k.same_settings ∙ d.ran);
        kept =
            same_pool pool mem d.mem' (p ∷ ps) (d.front ∷ d.back ∷ ps) k d.sound
              (λ b. as_many_split b p d.front d.back ps d.front_block d.back_block);
        others = same_bytes mem d.mem' ps d.others k.sound.inside.1;
      }
  call-Called drops pool mem p ps k within room =
      let d : DropsPart checks map_anon st U pool mem p ps =
        drop_part-Drops checks map_anon st U pool mem p ps k in
      record {
        pool' = d.pool';
        mem' = d.mem';
        left = [];
        ran = drops-runs checks map_anon pool d.pool' mem d.mem' p d.ran;
        kept = d.kept;
        others = same_bytes mem d.mem' ps d.others k.sound.inside.1;
      }
  call-Called (advances cnt) pool mem p ps k within room = record {
    pool' = pool;
    mem' = mem;
    left = record p { ptr = p.ptr + cnt; len = p.len - cnt } ∷ [];
    ran = advances-runs checks map_anon pool mem p cnt within;
    kept =
        same_pool pool mem mem (p ∷ ps) (record p { ptr = p.ptr + cnt; len = p.len - cnt } ∷ ps) k
          (narrow-IsSound (blocks checks map_anon st U) mem p (p.ptr + cnt) (p.len - cnt) ps k.sound
            (omega arith) (omega arith))
          (λ b. as_many_narrow b p (p.ptr + cnt) (p.len - cnt) ps);
    others = unchanged mem ps;
  }
  call-Called (truncates len) pool mem p ps k within room = record {
    pool' = pool;
    mem' = mem;
    left = record p { len = len } ∷ [];
    ran = truncates-runs checks map_anon pool mem p len within;
    kept =
        same_pool pool mem mem (p ∷ ps) (record p { len = len } ∷ ps) k
          (narrow-IsSound (blocks checks map_anon st U) mem p p.ptr len ps k.sound (omega arith)
            (omega arith))
          (λ b. as_many_narrow b p p.ptr len ps);
    others = unchanged mem ps;
  }
  call-Called (writes i v) pool mem p ps k within room =
      let d : Writes (blocks checks map_anon st U) mem p i v ps =
        set_at-Writes (blocks checks map_anon st U) mem p i v ps k.sound within in
      record {
        pool' = pool;
        mem' = d.mem';
        left = p ∷ [];
        ran = writes-runs checks map_anon pool mem d.mem' p i v d.ran;
        kept = same_pool pool mem d.mem' (p ∷ ps) (p ∷ ps) k d.sound (λ b. refl);
        others = d.others;
      }
