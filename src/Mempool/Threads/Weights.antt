-- ===== src/Mempool/Threads/Weights.antt =====
-- What the threads hold of the counter.
use blockrouter.Prelude.{ℕ, ◌+◌, ◌≤◌, ◌≡◌, arith, List, [], ◌∷◌, ◌++◌, length}
use blockrouter.Mempool.Threads.{Place, outside, popping, adding, backing, Thread}

-- What a thread adds to the counter, from its `fetch_add` to its `fetch_sub`.
unfoldable pub counted : Place → ℕ
counted outside = 0
counted popping = 0
counted adding = 0
counted place = 1

-- The threads that passed the test and have not left yet.
unfoldable pub admitted : Place → ℕ
admitted outside = 0
admitted popping = 0
admitted adding = 0
admitted backing = 0
admitted place = 1

unfoldable pub total : (Thread → ℕ) → List Thread → ℕ
total weight [] = 0
total weight (t ∷ ts) = weight t + total weight ts

module _ (weight : Thread → ℕ) where
  pub total-append :
      (xs : List Thread) (t : Thread) (ys : List Thread)
      → total weight (xs ++ t ∷ ys) ≡ weight t + (total weight xs + total weight ys)
  unfolding total
  total-append [] t ys = omega arith
  total-append (x ∷ xs) t ys = omega (arith, total-append xs t ys)

  -- The threads but one.
  pub total-le : ((t : Thread) → weight t ≤ 1) → (ts : List Thread) → total weight ts ≤ length ts
  unfolding total
  total-le small [] = omega arith
  total-le small (t ∷ ts) = omega (arith, small t, total-le small ts)

pub total_mono :
    (v w : Thread → ℕ) → ((t : Thread) → v t ≤ w t) → (ts : List Thread) → total v ts ≤ total w ts
unfolding total
total_mono v w below [] = omega arith
total_mono v w below (t ∷ ts) = omega (arith, below t, total_mono v w below ts)
