-- ===== src/Mempool/Threads.antt =====
-- src/mempool.rs: threads that allocate from one pool and give slices back. A thread's turn is one
-- access to what they share: the queue and the counter, whose operations are atomic.
pub mod Weights
pub mod Turns
pub mod Systems
pub mod Histories
use blockrouter.Prelude.{
  ℕ, ◌+◌, ◌-◌, ◌*◌, ◌^◌, ◌<◌, ◌≡◌, Bool, Option, none, some, List, [], ◌∷◌, ◌++◌, ltb, leb,
  if◌then◌else◌,
}
use blockrouter.Mempool.Part
use blockrouter.Mempool.Part.{sub}
use blockrouter.Mempool.Pool.{
  GlobalMemPool, GlobalMemPoolSettings, page_bytes, reclaim, fetch_add, fetch_sub,
}

pub record Shared : Type 0 where
  pub memory : List ℕ
  pub allocs : ℕ
  pub mapped : ℕ

-- Where a thread stands, with the locals of `allocate_global` that are live there. `panicked` is a
-- thread whose mapping failed, or for which the limit less one overflowed.
pub data Place : Type 0 where
  outside : Place
  popping : Place
  adding : Place
  mapping : Place
  pushing : (base_ptr itr : ℕ) → Place
  leaving : (base_ptr : ℕ) → Place
  backing : Place
  panicked : Place

-- `held` are the slices that the thread's calls of `allocate` have returned.
pub record Thread : Type 0 where
  pub cache : List ℕ
  pub capacity : ℕ
  pub held : List ℕ
  pub place : Place

-- `memory.pop()`
unfoldable pub pop_shared : Shared → Thread → List ℕ → Shared × Thread
pop_shared sh t [] = (sh, record t { place = adding })
pop_shared sh t (slice ∷ rest) =
    (record sh { memory = rest }, record t { held = slice ∷ t.held; place = outside })

-- The cache's `pop`, else the first round of `allocate_global`
unfoldable pub pop_cache : Shared → Thread → List ℕ → Shared × Thread
pop_cache sh t [] = (sh, record t { place = popping })
pop_cache sh t (slice ∷ rest) =
    (sh, record t { cache = rest; held = slice ∷ t.held; place = outside })

-- Where the test after `fetch_add` leads, by the counter before and the limit less one.
unfoldable pub admit_place : ℕ → Option ℕ → Place
admit_place previous_allocs none = panicked
admit_place previous_allocs (some last) = if leb previous_allocs last then mapping else backing

-- `map_anon(..).unwrap()`
unfoldable pub mapped_place : Option ℕ → Place
mapped_place none = panicked
mapped_place (some base_ptr) = pushing base_ptr 1

module _ (checks : Bool) (map_anon : ℕ → ℕ → Option ℕ) (settings : GlobalMemPoolSettings) where
  -- One round of `for itr in 1..page_entries`, or its end.
  unfoldable pub push_turn : Shared → Thread → ℕ → ℕ → Shared × Thread
  push_turn sh t base_ptr itr =
      if ltb itr settings.page_entries
      then (
        record sh { memory = sh.memory ++ (base_ptr + itr * 2 ^ settings.buf_size) ∷ [] },
        record t { place = pushing base_ptr (itr + 1) },
      )
      else (sh, record t { place = leaving base_ptr })

  -- The next turn of a thread at a place; from outside it is an `allocate`.
  unfoldable pub turn_at : Place → Shared → Thread → Shared × Thread
  unfolding pop_cache pop_shared admit_place mapped_place push_turn fetch_add fetch_sub sub
  turn_at outside sh t = pop_cache sh t t.cache
  turn_at popping sh t = pop_shared sh t sh.memory
  turn_at adding sh t = (
    record sh { allocs = fetch_add sh.allocs },
    record t {
      place = admit_place sh.allocs (sub checks 64 settings.concurrent_allocation_limit 1);
    },
  )
  turn_at mapping sh t = (
    record sh { mapped = sh.mapped + 1 },
    record t { place = mapped_place (map_anon (page_bytes settings) sh.mapped) },
  )
  turn_at (pushing base_ptr itr) sh t = push_turn sh t base_ptr itr
  turn_at (leaving base_ptr) sh t = (
    record sh { allocs = fetch_sub sh.allocs },
    record t { held = base_ptr ∷ t.held; place = outside },
  )
  turn_at backing sh t = (record sh { allocs = fetch_sub sh.allocs }, record t { place = popping })
  turn_at panicked sh t = (sh, record t { place = panicked })

  unfoldable pub turn : Shared → Thread → Shared × Thread
  unfolding turn_at
  turn sh t = turn_at t.place sh t

  -- The pool as a thread sees it.
  abbrev pub seen : Shared → Thread → GlobalMemPool
  seen sh t = record {
    memory = sh.memory;
    cache = t.cache;
    capacity = t.capacity;
    settings = settings;
    allocs = sh.allocs;
    mapped = sh.mapped;
  }

  -- `reclaim` of a slice by the thread.
  unfoldable pub give_back : Shared → Thread → ℕ → Shared × Thread
  unfolding reclaim
  give_back sh t slice =
      let pool = reclaim (seen sh t) slice in
      (record sh { memory = pool.memory }, record t { cache = pool.cache })

pub record System : Type 0 where
  pub shared : Shared
  pub threads : List Thread

module _ (checks : Bool) (map_anon : ℕ → ℕ → Option ℕ) (settings : GlobalMemPoolSettings) where
  -- Any thread takes its turn, or reclaims a slice. The `drop` of a part calls `reclaim` by the slice's
  -- count, which threads that share the slice read and write without order; the counts are left out
  -- here, and a thread may reclaim any slice, be it held or not, and more than once.
  pub data Step (s s' : System) : Type 0 where
    turns :
        (xs : List Thread) (t : Thread) (ys : List Thread)
        → s.threads ≡ xs ++ t ∷ ys
        → s' ≡ (
            let (sh, t') = turn checks map_anon settings s.shared t in
            record { shared = sh; threads = xs ++ t' ∷ ys })
        → Step s s'
    reclaims :
        (xs : List Thread) (t : Thread) (ys : List Thread) (slice : ℕ)
        → s.threads ≡ xs ++ t ∷ ys
        → t.place ≡ outside
        → s' ≡ (
            let (sh, t') = give_back checks map_anon settings s.shared t slice in
            record { shared = sh; threads = xs ++ t' ∷ ys })
        → Step s s'

  pub data Reach (s : System) : System → Type 0 where
    here : Reach s s
    next : {u v : System} → Reach s u → Step u v → Reach s v

-- A new pool with threads that have done nothing yet; the numbers are the capacities of their caches.
abbrev pub idle_threads : List ℕ → List Thread
idle_threads [] = []
idle_threads (capacity ∷ rest) =
    record { cache = []; capacity = capacity; held = []; place = outside } ∷ idle_threads rest

abbrev pub start : List ℕ → System
start capacities = record {
  shared = record { memory = []; allocs = 0; mapped = 0 };
  threads = idle_threads capacities;
}
