-- ===== src/Mempool/Pool/Worlds/Reach.antt =====
-- src/mempool.rs: the worlds that a new pool can come to in one thread.
use blockrouter.Prelude.{
  ℕ, suc, ◌+◌, ◌^◌, ◌<◌, ◌≡◌, refl, sym, ap, ◌∙◌, Bool, Option, some, arith, ◌∷◌, length, List, [],
  ◌++◌,
}
use mathlib.Core.Path.{subst}
use mathlib.Core.Option.{some-injective}
use blockrouter.Mempool.Memory.{Memory}
use blockrouter.Mempool.Part.{Part}
use blockrouter.Mempool.Shares.{parts_of}
use blockrouter.Mempool.Shares.Order.{IsSound-front, parts_of-front}
use blockrouter.Mempool.Pool
use blockrouter.Mempool.Pool.{GlobalMemPool, GlobalMemPoolSettings, allocate}
use blockrouter.Mempool.Pool.Pages.{occurs, all_slots}
use blockrouter.Mempool.Pool.Places.{free}
use blockrouter.Mempool.Pool.Worlds.{IsUsable, World, blocks, Kept}
use blockrouter.Mempool.Pool.Worlds.Calls.{allocate-Allocates}
use blockrouter.Mempool.Pool.Worlds.Runs.{Call, IsInRange, call}
use blockrouter.Mempool.Pool.Worlds.Histories.{call-Called}

module _ (checks : Bool) (map_anon : ℕ → ℕ → Option ℕ) where
  -- A step: `allocate`, or a call in its range of any part that is alive. The new parts come first.
  pub data Step (w w' : World) : Type 0 where
    allocates :
        (fuel : ℕ) (pool' : GlobalMemPool) (mem' : Memory) (part : Part)
        → length w.parts + 1 < 2 ^ 32
        → allocate checks map_anon (suc fuel) w.pool w.mem ≡ some (pool', (mem', part))
        → w' ≡ record { pool = pool'; mem = mem'; parts = part ∷ w.parts }
        → Step w w'
    calls :
        (c : Call) (xs : List Part) (p : Part) (ys : List Part) (pool' : GlobalMemPool)
        (mem' : Memory) (left : List Part)
        → w.parts ≡ xs ++ p ∷ ys
        → IsInRange c p
        → length (xs ++ ys) + 2 < 2 ^ 32
        → call checks map_anon c w.pool w.mem p ≡ some (pool', (mem', left))
        → w' ≡ record { pool = pool'; mem = mem'; parts = left ++ (xs ++ ys) }
        → Step w w'

  pub data Reach (w : World) : World → Type 0 where
    here : Reach w w
    next : {u v : World} → Reach w u → Step u v → Reach w v

-- A new pool, and memory with anything in it.
abbrev pub start : ℕ → GlobalMemPoolSettings → Memory → World
start capacity st mem = record { pool = Pool.new capacity st; mem = mem; parts = [] }

result : {A : Type 0} (run : Option A) (x y : A) → run ≡ some x → run ≡ some y → x ≡ y
result run x y e f = some-injective x y (sym e ∙ f)

module _ (checks : Bool) (map_anon : ℕ → ℕ → Option ℕ) (st : GlobalMemPoolSettings)
    (U : IsUsable map_anon st) where
  pub start-Kept : (capacity : ℕ) (mem : Memory) → Kept checks map_anon st U (start capacity st mem)
  unfolding Pool.new free occurs parts_of all_slots
  start-Kept capacity mem = record {
    sound = record {
      inside = tt;
      apart = tt;
      counted = λ b block some_parts. absurd (omega arith);
      few = omega arith;
    };
    same_settings = refl;
    quiet = refl;
    placed = λ b. refl;
  }

  Kept-front :
      (pool : GlobalMemPool) (mem : Memory) (xs : List Part) (p : Part) (ys : List Part)
      → Kept checks map_anon st U (record { pool = pool; mem = mem; parts = xs ++ p ∷ ys })
      → Kept checks map_anon st U (record { pool = pool; mem = mem; parts = p ∷ (xs ++ ys) })
  Kept-front pool mem xs p ys k = record {
    sound = IsSound-front (blocks checks map_anon st U) mem xs p ys k.sound;
    same_settings = k.same_settings;
    quiet = k.quiet;
    placed = λ b. omega (arith, k.placed b, parts_of-front b xs p ys);
  }

  abbrev allocated : List Part → GlobalMemPool × (Memory × Part) → World
  allocated ps (pool, (mem, part)) = record { pool = pool; mem = mem; parts = part ∷ ps }

  abbrev called : List Part → GlobalMemPool × (Memory × List Part) → World
  called ps (pool, (mem, left)) = record { pool = pool; mem = mem; parts = left ++ ps }

  Step-Kept :
      (w w' : World)
      → Step checks map_anon w w'
      → Kept checks map_anon st U w
      → Kept checks map_anon st U w'
  Step-Kept w w' (allocates fuel pool' mem' part few ran e) k =
      let a = allocate-Allocates checks map_anon st U fuel w k few in
      subst (Kept checks map_anon st U)
        (ap (allocated w.parts) (
            result (allocate checks map_anon (suc fuel) w.pool w.mem) (a.pool', (a.mem', a.part))
              (pool', (mem', part)) a.ran ran)
          ∙ sym e)
        a.kept
  Step-Kept w w' (calls c xs p ys pool' mem' left at within few ran e) k =
      let k' = Kept-front w.pool w.mem xs p ys (
        subst (λ ps. Kept checks map_anon st U (record { pool = w.pool; mem = w.mem; parts = ps }))
          at k) in
      let d = call-Called checks map_anon st U c w.pool w.mem p (xs ++ ys) k' within few in
      subst (Kept checks map_anon st U)
        (ap (called (xs ++ ys)) (
            result (call checks map_anon c w.pool w.mem p) (d.pool', (d.mem', d.left))
              (pool', (mem', left)) d.ran ran)
          ∙ sym e)
        d.kept

  -- With usable settings (a limit and a number of entries above 0, slices of 4 bytes at least, pages
  -- of less than 2^64 bytes) and mappings that never fail, have the length asked for and overlap
  -- nowhere: in every world that a new pool comes to by allocations and by calls of its parts in their
  -- range, with fewer than 2^32 - 2 other parts, the parts lie in slices of mapped pages and no two overlap,
  -- the count behind each slice that has parts is their number, no allocation is under way, and each
  -- slice of the mapped pages is in one place: free once and without parts, or not free and with parts.
  pub Reach-Kept :
      (capacity : ℕ) (mem : Memory) (w : World)
      → Reach checks map_anon (start capacity st mem) w
      → Kept checks map_anon st U w
  Reach-Kept capacity mem w here = start-Kept capacity mem
  Reach-Kept capacity mem w (next {u} r s) = Step-Kept u w s (Reach-Kept capacity mem u r)
