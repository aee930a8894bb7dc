-- ===== src/Ring.antt =====
-- src/ring.rs: the buffer of `FramedRing`, which grows as elements are appended.
pub mod Growth
pub mod Frames
pub mod Contents
pub mod Filling
pub mod Drops
pub mod Sessions
mod Tests
use blockrouter.Prelude.{ℕ, ◌+◌, ◌-◌, ◌^◌, bit_and, Bool, ◌&&◌, Option, none, some}
use blockrouter.Prelude.{ltb, leb, ◌==◌, if◌then◌else◌}

pub record FrameHeader : Type 0 where
  pub next : ℕ
  pub is_live : Bool

pub data RingElement {ℓ} (T : Type ℓ) : Type ℓ where
  header : FrameHeader → RingElement T
  element : T → RingElement T

-- The buffer that `ring` points to, cell by cell; `none` is a cell nothing was written to.
pub record FramedRing {ℓ} (T : Type ℓ) : Type ℓ where
  pub ring : ℕ → Option (RingElement T)
  pub base : ℕ
  pub head : ℕ
  pub ring_size_2 : ℕ

-- How a call ends: `invalid` reads a cell that holds another member of the union or none, and
-- `endless` is a loop that never ends.
pub data Run {ℓ} (A : Type ℓ) : Type ℓ where
  done : A → Run A
  panicked : Run A
  invalid : Run A
  endless : Run A

infixl 5 ◌>>=◌
abbrev pub ◌>>=◌ {ℓ κ} : {A : Type ℓ} {B : Type κ} → Run A → (A → Run B) → Run B
done a >>= k = k a
panicked >>= k = panicked
invalid >>= k = invalid
endless >>= k = endless

module _ {ℓ} {T : Type ℓ} where
  -- A write to one cell.
  unfoldable pub write :
      (ℕ → Option (RingElement T)) → ℕ → RingElement T → ℕ → Option (RingElement T)
  write cells at re = λ j. if j == at then some re else cells j

  -- `copy_nonoverlapping` of `count` cells from `source` of one buffer to `target` of the other.
  unfoldable pub copy_nonoverlapping :
      (ℕ → Option (RingElement T))
      → ℕ
      → (ℕ → Option (RingElement T))
      → ℕ
      → ℕ
      → ℕ
      → Option (RingElement T)
  copy_nonoverlapping from source to target count =
      λ j. if leb target j && ltb j (target + count) then from (source + (j - target)) else to j

  unfoldable pub new : FramedRing T
  new = record { ring = λ j. none; base = 0; head = 0; ring_size_2 = 0 }

  unfoldable pub mask : FramedRing T → ℕ
  mask r = 2 ^ r.ring_size_2 - 1

  -- The part of `append_to_ring` under `base_i == old_head_i`: the buffer of twice the size, and the
  -- new size. `old_head & !mask` is written as `old_head` less its low bits. A `pivot_point` below
  -- `base` makes the subtraction overflow.
  unfoldable pub grow : FramedRing T → ℕ → Run (FramedRing T)
  unfolding mask copy_nonoverlapping
  grow r old_head =
      let base_i = bit_and r.base (mask r) in
      let pivot_point = old_head - bit_and old_head (mask r) in
      let new_mask = 2 ^ (r.ring_size_2 + 1) - 1 in
      let fresh : ℕ → Option (RingElement T) = λ j. none in
      let lower =
        copy_nonoverlapping r.ring base_i fresh (bit_and r.base new_mask) (pivot_point - r.base) in
      let both =
        copy_nonoverlapping r.ring 0 lower (bit_and pivot_point new_mask)
          (old_head - pivot_point) in
      if ltb pivot_point r.base
      then panicked
      else done (record r { ring = both; ring_size_2 = r.ring_size_2 + 1 })

  unfoldable pub append_to_ring : FramedRing T → RingElement T → Run (FramedRing T)
  unfolding mask write
  append_to_ring r re =
      let old_head = r.head in
      let roomy =
        if bit_and r.base (mask r) == bit_and old_head (mask r) then grow r old_head else done r in
      roomy >>= λ r'.
      done (record r' { head = old_head + 1; ring = write r'.ring (bit_and old_head (mask r')) re })

  -- Reads of a cell as the one and as the other member of the union.
  unfoldable pub as_header : Option (RingElement T) → Run FrameHeader
  as_header none = invalid
  as_header (some (RingElement.header h)) = done h
  as_header (some (element x)) = invalid

  unfoldable pub as_element : Option (RingElement T) → Run T
  as_element none = invalid
  as_element (some (RingElement.header h)) = invalid
  as_element (some (element x)) = done x

  unfoldable pub get_masked : FramedRing T → ℕ → Option (RingElement T)
  get_masked r i = r.ring i

  unfoldable pub get : FramedRing T → ℕ → Option (RingElement T)
  unfolding mask get_masked
  get r i = get_masked r (bit_and i (mask r))

  unfoldable pub set_header : FramedRing T → ℕ → FrameHeader → FramedRing T
  unfolding mask write
  set_header r i h = record r { ring = write r.ring (bit_and i (mask r)) (RingElement.header h) }
