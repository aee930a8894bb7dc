-- ===== src/Mempool/Threads/Histories.antt =====
-- src/mempool.rs: the states that a pool and its threads can come to.
use blockrouter.Prelude.{
  ℕ, ◌^◌, ◌≤◌, ◌<◌, ◌≡◌, refl, sym, Bool, Option, arith, List, [], ◌∷◌, length,
}
use mathlib.Core.Path.{subst}
use blockrouter.Mempool.Pool.{GlobalMemPoolSettings}
use blockrouter.Mempool.Threads.{
  Shared, outside, Thread, System, Step, Reach, turns, reclaims, here, next, idle_threads, start,
}
use blockrouter.Mempool.Threads.Weights.{counted, admitted, total}
use blockrouter.Mempool.Threads.Systems.{counts, mappers, Orderly, turn-Orderly, give_back-Orderly}

length-idle_threads : (capacities : List ℕ) → length (idle_threads capacities) ≡ length capacities
length-idle_threads [] = refl
length-idle_threads (c ∷ rest) = omega (arith, length-idle_threads rest)

total-idle_threads :
    (weight : Thread → ℕ) (capacities : List ℕ)
    → ((c : ℕ) → weight (record { cache = []; capacity = c; held = []; place = outside }) ≡ 0)
    → total weight (idle_threads capacities) ≡ 0
unfolding total
total-idle_threads weight [] h = refl
total-idle_threads weight (c ∷ rest) h = omega (arith, h c, total-idle_threads weight rest h)

module _ (checks : Bool) (map_anon : ℕ → ℕ → Option ℕ) (settings : GlobalMemPoolSettings) where
  start-Orderly :
      (capacities : List ℕ)
      → Orderly checks map_anon settings (length capacities) (start capacities)
  unfolding counted admitted
  start-Orderly capacities = record {
    number = length-idle_threads capacities;
    exact = sym (total-idle_threads counts capacities (λ c. refl));
    bounded = omega (arith, total-idle_threads (λ t. admitted t.place) capacities (λ c. refl));
  }

  abbrev with_threads : Shared → List Thread → System
  with_threads sh threads = record { shared = sh; threads = threads }

  Step-Orderly :
      (n : ℕ) (s s' : System)
      → Step checks map_anon settings s s'
      → 0 < settings.concurrent_allocation_limit
      → n < 2 ^ 64
      → Orderly checks map_anon settings n s
      → Orderly checks map_anon settings n s'
  Step-Orderly n s s' (turns xs t ys at e) some_limit few o =
      subst (Orderly checks map_anon settings n) (sym e) (
        turn-Orderly checks map_anon settings n s.shared xs t ys
          (subst (λ ts. Orderly checks map_anon settings n (with_threads s.shared ts)) at o)
          some_limit few)
  Step-Orderly n s s' (reclaims xs t ys slice at out e) some_limit few o =
      subst (Orderly checks map_anon settings n) (sym e) (
        give_back-Orderly checks map_anon settings n s.shared xs t ys slice
          (subst (λ ts. Orderly checks map_anon settings n (with_threads s.shared ts)) at o))

  Reach-Orderly :
      (capacities : List ℕ) (s : System)
      → Reach checks map_anon settings (start capacities) s
      → 0 < settings.concurrent_allocation_limit
      → length capacities < 2 ^ 64
      → Orderly checks map_anon settings (length capacities) s
  Reach-Orderly capacities s here some_limit few = start-Orderly capacities
  Reach-Orderly capacities s (next {u} r st) some_limit few =
      Step-Orderly (length capacities) u s st some_limit few
        (Reach-Orderly capacities u r some_limit few)

  -- However fewer than 2^64 threads interleave their turns and reclaim slices, where the limit is not
  -- 0: at most as many threads as the limit are between the test that admits them and their
  -- `fetch_sub`, those with a failed mapping among them for ever, and the counter is the number of the
  -- threads between `fetch_add` and `fetch_sub`.
  pub Reach-mappers :
      (capacities : List ℕ) (s : System)
      → Reach checks map_anon settings (start capacities) s
      → 0 < settings.concurrent_allocation_limit
      → length capacities < 2 ^ 64
      → (mappers s ≤ settings.concurrent_allocation_limit)
        × (s.shared.allocs ≡ total (λ t. counted t.place) s.threads)
  Reach-mappers capacities s r some_limit few =
      let o = Reach-Orderly capacities s r some_limit few in (o.bounded, o.exact)
