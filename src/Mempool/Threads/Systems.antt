-- ===== src/Mempool/Threads/Systems.antt =====
-- src/mempool.rs: all threads of a pool, in any interleaving of their turns.
use blockrouter.Prelude.{
  ℕ, ◌+◌, ◌^◌, ◌≤◌, ◌<◌, ◌≡◌, sym, ◌∙◌, Bool, Option, arith, List, ◌∷◌, ◌++◌, length, length-append,
}
use blockrouter.Mempool.Pool.{GlobalMemPoolSettings}
use blockrouter.Mempool.Threads.{
  Shared, Place, outside, popping, adding, mapping, pushing, leaving, backing, panicked, Thread,
  turn, give_back, System,
}
use blockrouter.Mempool.Threads.Weights.{
  counted, admitted, total, total-append, total-le, total_mono,
}
use blockrouter.Mempool.Threads.Turns.{Counts, Fits, turn_at-Counts}

abbrev pub counts : Thread → ℕ
counts t = counted t.place

-- How many threads may be mapping a page or cutting one up.
abbrev pub mappers : System → ℕ
mappers s = total (λ t. admitted t.place) s.threads

counted-bounds : (place : Place) → (admitted place ≤ counted place) × (counted place ≤ 1)
unfolding counted admitted
counted-bounds outside = (omega arith, omega arith)
counted-bounds popping = (omega arith, omega arith)
counted-bounds adding = (omega arith, omega arith)
counted-bounds mapping = (omega arith, omega arith)
counted-bounds (pushing base itr) = (omega arith, omega arith)
counted-bounds (leaving base) = (omega arith, omega arith)
counted-bounds backing = (omega arith, omega arith)
counted-bounds panicked = (omega arith, omega arith)

module _ (checks : Bool) (map_anon : ℕ → ℕ → Option ℕ) (settings : GlobalMemPoolSettings) where
  -- The invariant of the threads.
  pub record Orderly (n : ℕ) (s : System) : Type 0 where
    pub number : length s.threads ≡ n
    pub exact : s.shared.allocs ≡ total counts s.threads
    pub bounded : mappers s ≤ settings.concurrent_allocation_limit

  -- A change of one thread
  changed :
      (n : ℕ) (sh sh' : Shared) (xs : List Thread) (t t' : Thread) (ys : List Thread)
      → Orderly n (record { shared = sh; threads = xs ++ t ∷ ys })
      → Counts settings.concurrent_allocation_limit sh' t'.place
          (total counts xs + total counts ys)
          (total (λ t. admitted t.place) xs + total (λ t. admitted t.place) ys)
      → Orderly n (record { shared = sh'; threads = xs ++ t' ∷ ys })
  changed n sh sh' xs t t' ys o c = record {
    number = omega (arith, o.number, length-append xs (t ∷ ys), length-append xs (t' ∷ ys));
    exact = c.exact ∙ sym (total-append counts xs t' ys);
    bounded = omega (arith, c.bounded, total-append (λ t. admitted t.place) xs t' ys);
  }

  -- What the threads but one count.
  others_fit :
      (n : ℕ) (sh : Shared) (xs : List Thread) (t : Thread) (ys : List Thread)
      → Orderly n (record { shared = sh; threads = xs ++ t ∷ ys })
      → 0 < settings.concurrent_allocation_limit
      → n < 2 ^ 64
      → Fits checks map_anon settings
          (total counts xs + total counts ys)
          (total (λ t. admitted t.place) xs + total (λ t. admitted t.place) ys)
  others_fit n sh xs t ys o some_limit few =
      let below = total_mono (λ t. admitted t.place) counts (λ t. (counted-bounds t.place).0) in
      let small = total-le counts (λ t. (counted-bounds t.place).1) in
      record {
        some_limit = some_limit;
        fewer = omega (arith, below xs, below ys);
        few = omega (arith, small xs, small ys, o.number, length-append xs (t ∷ ys));
      }

  before :
      (n : ℕ) (sh : Shared) (xs : List Thread) (t : Thread) (ys : List Thread)
      → Orderly n (record { shared = sh; threads = xs ++ t ∷ ys })
      → Counts settings.concurrent_allocation_limit sh t.place
          (total counts xs + total counts ys)
          (total (λ t. admitted t.place) xs + total (λ t. admitted t.place) ys)
  before n sh xs t ys o = record {
    exact = o.exact ∙ total-append counts xs t ys;
    bounded = omega (arith, o.bounded, total-append (λ t. admitted t.place) xs t ys);
  }

  pub turn-Orderly :
      (n : ℕ) (sh : Shared) (xs : List Thread) (t : Thread) (ys : List Thread)
      → Orderly n (record { shared = sh; threads = xs ++ t ∷ ys })
      → 0 < settings.concurrent_allocation_limit
      → n < 2 ^ 64
      → Orderly n (
          let (sh', t') = turn checks map_anon settings sh t in
          record { shared = sh'; threads = xs ++ t' ∷ ys })
  unfolding turn
  turn-Orderly n sh xs t ys o some_limit few =
      let r = turn checks map_anon settings sh t in
      changed n sh r.0 xs t r.1 ys o (
        turn_at-Counts checks map_anon settings t.place sh t (total counts xs + total counts ys)
          (total (λ t. admitted t.place) xs + total (λ t. admitted t.place) ys)
          (others_fit n sh xs t ys o some_limit few) (before n sh xs t ys o))

  pub give_back-Orderly :
      (n : ℕ) (sh : Shared) (xs : List Thread) (t : Thread) (ys : List Thread) (slice : ℕ)
      → Orderly n (record { shared = sh; threads = xs ++ t ∷ ys })
      → Orderly n (
          let (sh', t') = give_back checks map_anon settings sh t slice in
          record { shared = sh'; threads = xs ++ t' ∷ ys })
  unfolding give_back
  give_back-Orderly n sh xs t ys slice o =
      let r = give_back checks map_anon settings sh t slice in
      let c = before n sh xs t ys o in
      changed n sh r.0 xs t r.1 ys o (record { exact = c.exact; bounded = c.bounded })
