-- ===== src/Fragments.antt =====
-- src/packet.rs: `FragmentPool`, a stack of at most 64 spare elements.
pub mod Stack
pub mod Sessions
mod Tests
use blockrouter.Prelude.{ℕ, zero, suc, ◌+◌, ◌-◌, Option, none, some, List, [], ◌∷◌, ◌++◌}
use blockrouter.Prelude.{ltb, ◌==◌, if◌then◌else◌, ◌>>=◌}

-- A cell of `pool` that nothing was written to, or whose element was moved out, is `none`.
pub record FragmentPool {ℓ} (T : Type ℓ) : Type ℓ where
  pub end : ℕ
  pub pool : ℕ → Option T

-- The length of `pool`.
unfoldable pub capacity : ℕ
capacity = 64

module _ {ℓ} {T : Type ℓ} where
  unfoldable pub new : FragmentPool T
  new = record { end = 0; pool = λ i. none }

  unfoldable pub put : (ℕ → Option T) → ℕ → Option T → ℕ → Option T
  put pool at cell = λ i. if i == at then cell else pool i

  -- `get_mut` answers a cell inside the array only; without one the element is dropped.
  unfoldable pub lossy_push : FragmentPool T → T → FragmentPool T
  unfolding capacity put
  lossy_push p element =
      if ltb p.end capacity
      then record { end = p.end + 1; pool = put p.pool p.end (some element) }
      else p

  -- The outer `none` is a read of a cell without an element, which the source says never happens.
  unfoldable pub maybe_pop : FragmentPool T → Option (FragmentPool T × Option T)
  unfolding put
  maybe_pop p =
      let end = p.end - 1 in
      let read = p.pool end >>= λ element.
      some (record { end = end; pool = put p.pool end none }, some element) in
      if p.end == 0 then some (p, none) else read

  -- The loop of `Drop`, with the elements dropped, in order.
  unfoldable pub drop_all : ℕ → (ℕ → Option T) → Option (List T)
  drop_all zero pool = some []
  drop_all (suc end) pool = do element ← pool end; rest ← drop_all end pool; some (element ∷ rest)

  unfoldable pub drop : FragmentPool T → Option (List T)
  unfolding drop_all
  drop p = drop_all p.end p.pool
