-- ===== src/Mempool/Tests.antt =====
-- Pages of two slices of 16 bytes, one page mapped behind the other.
use blockrouter.Prelude.{ℕ, ◌*◌, ◌≤◌, ◌≡◌, refl, inl, arith, true, false, Option, some, [], ◌∷◌}
use blockrouter.Mempool.Pool.{take_slice}
use mathlib.Core.Option.{some-injective}
use native.Mathlib.Nat.{mul-le-mul_right}
use blockrouter.Prelude.{◌+◌, ◌<◌}
use blockrouter.Mempool.Memory.{Memory, write_u32}
use blockrouter.Mempool.Part
use blockrouter.Mempool.Part.{Part, whole}
use blockrouter.Mempool.Shares.Calls.{Halves, split_to-Halves, Drops, drop-Drops}
use blockrouter.Mempool.Pool.{
  GlobalMemPool, GlobalMemPoolSettings, allocate, take_slice, allocate_global, map_page,
  push_slices, page_bytes, fetch_add, fetch_sub, pop_or, cached_or, admit, realsize,
}
use blockrouter.Mempool.Pool
use blockrouter.Mempool.Pool.Pages.{IsMapping}
use blockrouter.Mempool.Pool.Worlds.{IsUsable, World, blocks, Kept, Allocates}
use blockrouter.Mempool.Pool.Worlds.Calls.{allocate-Allocates}
use blockrouter.Mempool.Pool.Worlds.Runs.{splits}
use blockrouter.Mempool.Pool.Worlds.Histories.{Called, call-Called}
use blockrouter.Mempool.Pool.Worlds.Reach as Reach
use blockrouter.Mempool.Pool.Worlds.Reach.{Step, allocates, Reach-Kept}
use blockrouter.Mempool.Threads.{System}
use blockrouter.Mempool.Threads as Threads
use blockrouter.Mempool.Threads.Weights.{counted, total}
use blockrouter.Mempool.Threads.Systems.{mappers}
use blockrouter.Mempool.Threads.Histories.{Reach-mappers}

abbrev pages : ℕ → ℕ → Option ℕ
pages bytes m = some (m * bytes)

abbrev small : GlobalMemPoolSettings
small = record { buf_size = 4; page_entries = 2; concurrent_allocation_limit = 1 }

pages-apart : (bytes m m' : ℕ) → m < m' → m * bytes + bytes ≤ m' * bytes
pages-apart bytes m m' lower =
    omega (arith, mul-le-mul_right bytes (next m m' lower), suc_mul m bytes)
  where
    next : (m m' : ℕ) → m < m' → m + 1 ≤ m'
    next m m' h = omega arith

    suc_mul : (m bytes : ℕ) → (m + 1) * bytes ≡ m * bytes + bytes
    suc_mul m bytes = grind arith

pages-IsMapping : (bytes : ℕ) → IsMapping (pages bytes) bytes
pages-IsMapping bytes = record {
  apart = λ m m' base base' e e' lower. inl (
      omega (
        arith,
        some-injective (m * bytes) base e,
        some-injective (m' * bytes) base' e',
        pages-apart bytes m m' lower,
      ));
}

small-IsUsable : IsUsable pages small
small-IsUsable = record {
  mapping = pages-IsMapping;
  succeeds = λ m. (m * page_bytes small, refl);
  some_entries = omega arith;
  some_limit = omega arith;
  room = omega arith;
  in_word = omega arith;
}

abbrev blank : Memory
blank address = 0

abbrev first_pool : GlobalMemPool
first_pool = record {
  memory = 16 ∷ [];
  cache = [];
  capacity = 1;
  settings = small;
  allocs = 0;
  mapped = 1;
}

abbrev first_part : Part
first_part = record { parent_slice = 0; ptr = 0; len = 12 }

abbrev first_mem : Memory
first_mem = write_u32 blank 12 1

abbrev first_world : World
first_world = record { pool = first_pool; mem = first_mem; parts = first_part ∷ [] }

opening : Step false pages (Reach.start 1 small blank) first_world
unfolding Pool.new page_bytes allocate take_slice allocate_global map_page push_slices fetch_add
    fetch_sub pop_or cached_or admit realsize whole Part.sub
opening = allocates 0 first_pool first_mem first_part (omega arith) refl refl

Reach-Kept_example : Kept false pages small small-IsUsable first_world
Reach-Kept_example =
    Reach-Kept false pages small small-IsUsable 1 blank first_world (Reach.next Reach.here opening)

opened : Kept false pages small small-IsUsable first_world
opened =
    Reach-Kept false pages small small-IsUsable 1 blank first_world (Reach.next Reach.here opening)

allocate-Allocates_example : Allocates false pages small small-IsUsable 1 first_world
allocate-Allocates_example =
    allocate-Allocates false pages small small-IsUsable 0 first_world opened (omega arith)

call-Called_example :
    Called false pages small small-IsUsable (splits 5) first_pool first_mem first_part []
call-Called_example =
    call-Called false pages small small-IsUsable (splits 5) first_pool first_mem first_part []
      opened (omega arith) (omega arith)

split_to-Halves_example :
    Halves (blocks false pages small small-IsUsable) true first_mem first_part 5 []
split_to-Halves_example =
    split_to-Halves (blocks false pages small small-IsUsable) true first_mem first_part 5 []
      opened.sound (omega arith) (omega arith)

drop-Drops_example : Drops (blocks false pages small small-IsUsable) true first_mem first_part []
drop-Drops_example =
    drop-Drops (blocks false pages small small-IsUsable) true first_mem first_part [] opened.sound

abbrev idle : Threads.Thread
idle = record { cache = []; capacity = 1; held = []; place = Threads.outside }

-- The first of two threads takes a turn.
abbrev after_turn : Threads.Shared → Threads.Thread → System
after_turn sh t = record {
  shared = (Threads.turn false pages small sh t).0;
  threads = (Threads.turn false pages small sh t).1 ∷ idle ∷ [];
}

takes_turn :
    (sh : Threads.Shared) (t : Threads.Thread)
    → Threads.Step false pages small
        (record { shared = sh; threads = t ∷ idle ∷ [] })
        (after_turn sh t)
takes_turn sh t = Threads.turns [] t (idle ∷ []) refl refl

abbrev now_at : Threads.Place → Threads.Thread
now_at place = record idle { place = place }

abbrev one_mapping : System
one_mapping = record {
  shared = record { memory = []; allocs = 1; mapped = 0 };
  threads = now_at Threads.mapping ∷ idle ∷ [];
}

abbrev cutting : System
cutting = record {
  shared = record { memory = []; allocs = 1; mapped = 1 };
  threads = now_at (Threads.pushing 0 1) ∷ idle ∷ [];
}

abbrev unused : ℕ → Threads.Shared
unused allocs = record { memory = []; allocs = allocs; mapped = 0 }

reach_mapping : Threads.Reach false pages small (Threads.start (1 ∷ 1 ∷ [])) one_mapping
unfolding Threads.turn Threads.turn_at Threads.pop_cache Threads.pop_shared Threads.admit_place
    Part.sub fetch_add
reach_mapping =
    Threads.next
      (Threads.next (Threads.next Threads.here (takes_turn (unused 0) idle))
        (takes_turn (unused 0) (now_at Threads.popping)))
      (takes_turn (unused 0) (now_at Threads.adding))

reach_cutting : Threads.Reach false pages small (Threads.start (1 ∷ 1 ∷ [])) cutting
unfolding Threads.turn Threads.turn_at Threads.mapped_place page_bytes
reach_cutting = Threads.next reach_mapping (takes_turn (unused 1) (now_at Threads.mapping))

Reach-mappers_example :
    (mappers one_mapping ≤ 1) × (1 ≡ total (λ t. counted t.place) one_mapping.threads)
Reach-mappers_example =
    Reach-mappers false pages small (1 ∷ 1 ∷ []) one_mapping reach_mapping (omega arith)
      (omega arith)
