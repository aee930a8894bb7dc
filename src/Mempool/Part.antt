-- ===== src/Mempool/Part.antt =====
-- src/mempool.rs: `Part`, a window into a block of memory whose last four bytes count the parts of
-- the block.
use blockrouter.Prelude.{
  ℕ, ◌+◌, ◌-◌, ◌%◌, ◌^◌, Bool, Option, none, some, List, ltb, leb, ◌==◌, if◌then◌else◌, ◌>>=◌,
}
use blockrouter.Mempool.Memory.{Memory, read, write_byte, read_u32, write_u32}

-- A pointer is an address. The pointer to the pool is left out: of the pool the operations use
-- `realsize`, which is an argument, and `reclaim`, which `drop` answers with.
pub record Part : Type 0 where
  pub parent_slice : ℕ
  pub ptr : ℕ
  pub len : ℕ

-- `a - b` and `a + b` on `w` bits: with overflow checks the result out of range is a panic, `none`,
-- and without them it wraps.
unfoldable pub sub : Bool → ℕ → ℕ → ℕ → Option ℕ
sub checks w a b = if leb b a then some (a - b) else if checks then none else some (a + 2 ^ w - b)

unfoldable pub add : Bool → ℕ → ℕ → ℕ → Option ℕ
add checks w a b =
    if ltb (a + b) (2 ^ w) then some (a + b) else if checks then none else some ((a + b) % 2 ^ w)

-- `deref`, which also gives `as_ref` and `Buf::bytes`
unfoldable pub deref : Memory → Part → List ℕ
deref mem p = read mem p.ptr p.len

-- `part[i] = v` through `deref_mut`, which also gives `as_mut` and `bytes_mut`
unfoldable pub set_at : Memory → Part → ℕ → ℕ → Option Memory
unfolding write_byte
set_at mem p i v = if ltb i p.len then some (write_byte mem (p.ptr + i) v) else none

unfoldable pub remaining : Part → ℕ
remaining p = p.len

unfoldable pub truncate : Part → ℕ → Option Part
truncate p len = if ltb p.len len then none else some (record p { len = len })

-- The two parts of `split_to` before the second is counted: the one that it returns, and `self`.
unfoldable pub windows : Bool → Part → ℕ → Option (Part × Part)
unfolding sub
windows checks p at = sub checks 64 p.len at >>= λ len.
    some (record p { len = at }, record p { ptr = p.ptr + at; len = len })

-- `Buf::advance`, and `BufMut::advance_mut`
unfoldable pub advance : Bool → Part → ℕ → Option Part
unfolding sub
advance checks p cnt =
    sub checks 64 p.len cnt >>= λ len. some (record p { ptr = p.ptr + cnt; len = len })

module _ (realsize : ℕ) where
  -- Where `rc` points.
  unfoldable pub rc : Part → ℕ
  rc p = p.parent_slice + realsize

  -- The end of `allocate`: a part over all of a block but its count.
  unfoldable pub whole : Memory → ℕ → Memory × Part
  whole mem slice = (
    write_u32 mem (slice + realsize) 1,
    record { parent_slice = slice; ptr = slice; len = realsize },
  )

module _ (checks : Bool) (realsize : ℕ) where
  unfoldable pub increment_rc : Memory → Part → Option Memory
  unfolding rc add
  increment_rc mem p = add checks 32 (read_u32 mem (rc realsize p)) 1 >>= λ count.
      some (write_u32 mem (rc realsize p) count)

  unfoldable pub split_to : Memory → Part → ℕ → Option (Memory × (Part × Part))
  unfolding increment_rc windows
  split_to mem p at =
      windows checks p at >>= λ parts. increment_rc mem p >>= λ mem'. some (mem', parts)

  -- The memory afterwards, and the block that was given to `reclaim`, if any.
  unfoldable pub drop : Memory → Part → Option (Memory × Option ℕ)
  unfolding rc sub
  drop mem p =
      let count = read_u32 mem (rc realsize p) in
      let reclaimed = if count == 1 then some p.parent_slice else none in
      sub checks 32 count 1 >>= λ left. some (write_u32 mem (rc realsize p) left, reclaimed)
