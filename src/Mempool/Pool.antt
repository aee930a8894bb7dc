-- ===== src/Mempool/Pool.antt =====
-- src/mempool.rs: `GlobalMemPool` with the cache of the one thread that uses it.
pub mod Pages
pub mod Slices
pub mod Places
pub mod Worlds
use blockrouter.Prelude.{
  ℕ, zero, suc, ◌+◌, ◌-◌, ◌*◌, ◌%◌, ◌^◌, Bool, Option, none, some, List, [], ◌∷◌, ◌++◌, length, ltb,
  leb, if◌then◌else◌,
}
use blockrouter.Mempool.Memory.{Memory}
use blockrouter.Mempool.Part
use blockrouter.Mempool.Part.{Part, sub, whole}

pub record GlobalMemPoolSettings : Type 0 where
  pub buf_size : ℕ
  pub page_entries : ℕ
  pub concurrent_allocation_limit : ℕ

-- `memory` is the queue, its oldest entry first; `cache` is the thread's `TLMemPool`, its last entry
-- first, with the capacity of its vector. `mapped` counts the pages mapped so far, which the source
-- leaks and never looks at again.
pub record GlobalMemPool : Type 0 where
  pub memory : List ℕ
  pub cache : List ℕ
  pub capacity : ℕ
  pub settings : GlobalMemPoolSettings
  pub allocs : ℕ
  pub mapped : ℕ

unfoldable pub realsize : GlobalMemPoolSettings → ℕ
realsize s = 2 ^ s.buf_size - 4

unfoldable pub new : ℕ → GlobalMemPoolSettings → GlobalMemPool
new capacity settings = record {
  memory = [];
  cache = [];
  capacity = capacity;
  settings = settings;
  allocs = 0;
  mapped = 0;
}

unfoldable pub reclaim : GlobalMemPool → ℕ → GlobalMemPool
reclaim pool slice =
    if ltb 0 (pool.capacity - length pool.cache)
    then record pool { cache = slice ∷ pool.cache }
    else record pool { memory = pool.memory ++ slice ∷ [] }

-- `for itr in 1..page_entries`, from `itr` on for `count` rounds.
unfoldable pub push_slices : ℕ → ℕ → ℕ → ℕ → List ℕ → List ℕ
push_slices buf_size base_ptr itr zero memory = memory
push_slices buf_size base_ptr itr (suc count) memory =
    push_slices buf_size base_ptr (itr + 1) count (memory ++ (base_ptr + itr * 2 ^ buf_size) ∷ [])

-- How `allocate_global` ends; `spinning` is its loop out of the model's fuel.
pub data Taken : Type 0 where
  taken : GlobalMemPool → ℕ → Taken
  panicked : Taken
  spinning : Taken

-- `fetch_add(1)` and `fetch_sub(1)` on 64 bits.
unfoldable pub fetch_add : ℕ → ℕ
fetch_add n = (n + 1) % 2 ^ 64

unfoldable pub fetch_sub : ℕ → ℕ
fetch_sub n = (n + 2 ^ 64 - 1) % 2 ^ 64

-- A new page, of which all slices but the first go into the queue.
unfoldable pub map_page : GlobalMemPool → Option ℕ → Taken
unfolding push_slices fetch_add fetch_sub
map_page pool none = panicked
map_page pool (some base_ptr) =
    let s = pool.settings in
    taken
      (record pool {
        memory = push_slices s.buf_size base_ptr 1 (s.page_entries - 1) pool.memory;
        allocs = fetch_sub (fetch_add pool.allocs);
        mapped = pool.mapped + 1;
      })
      base_ptr

-- `memory.pop()`
unfoldable pub pop_or : GlobalMemPool → List ℕ → Taken → Taken
pop_or pool [] otherwise = otherwise
pop_or pool (slice ∷ rest) otherwise = taken (record pool { memory = rest }) slice

-- The cache's `pop`
unfoldable pub cached_or : GlobalMemPool → List ℕ → Taken → Taken
cached_or pool [] otherwise = otherwise
cached_or pool (slice ∷ rest) otherwise = taken (record pool { cache = rest }) slice

-- `self.settings.page_entries << self.settings.buf_size` on 64 bits, for a shift below 64.
unfoldable pub page_bytes : GlobalMemPoolSettings → ℕ
page_bytes s = s.page_entries * 2 ^ s.buf_size % 2 ^ 64

-- `map_anon` is the call of the `memmap` crate, on the length that is asked for: the address of its
-- `n`-th mapping, or its failure.
module _ (checks : Bool) (map_anon : ℕ → ℕ → Option ℕ) where
  -- The test after `fetch_add`; its bound is the limit less one, `none` if that subtraction panics,
  -- and the last argument is the next round.
  unfoldable pub admit : GlobalMemPool → Option ℕ → Taken → Taken
  unfolding map_page
  admit pool none again = panicked
  admit pool (some last) again =
      let map = map_page pool (map_anon (page_bytes pool.settings) pool.mapped) in
      if leb pool.allocs last then map else again

  -- The loop; each round takes one of the fuel.
  unfoldable pub allocate_global : ℕ → GlobalMemPool → Taken
  unfolding fetch_add fetch_sub
  allocate_global zero pool = spinning
  allocate_global (suc fuel) pool =
      let again =
        allocate_global fuel (record pool { allocs = fetch_sub (fetch_add pool.allocs) }) in
      let last = sub checks 64 pool.settings.concurrent_allocation_limit 1 in
      pop_or pool pool.memory (admit pool last again)

  -- The slice that `allocate` takes: from the cache, else from the pool.
  unfoldable pub take_slice : ℕ → GlobalMemPool → Taken
  take_slice fuel pool = cached_or pool pool.cache (allocate_global fuel pool)

  -- `allocate`; `none` is a panic or a loop out of fuel.
  unfoldable pub allocate : ℕ → GlobalMemPool → Memory → Option (GlobalMemPool × (Memory × Part))
  unfolding take_slice whole
  allocate fuel pool mem = elim (take_slice fuel pool) [
    | taken pool' slice ↦ some (pool', whole (realsize pool'.settings) mem slice)
    | panicked ↦ none
    | spinning ↦ none
  ]

  -- `Drop` of a part, whose `reclaim` is this pool's.
  unfoldable pub drop_part : GlobalMemPool → Memory → Part → Option (GlobalMemPool × Memory)
  unfolding Part.drop reclaim
  drop_part pool mem p = elim (Part.drop checks (realsize pool.settings) mem p) [
    | none ↦ none
    | some (mem', none) ↦ some (pool, mem')
    | some (mem', some slice) ↦ some (reclaim pool slice, mem')
  ]
