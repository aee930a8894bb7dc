-- ===== src/Mempool/Pool/Worlds/Runs.antt =====
-- src/mempool.rs: the calls of a part, each by its function.
use blockrouter.Prelude.{
  not_above, at_most, ℕ, ◌+◌, ◌-◌, ◌≤◌, ◌<◌, ◌≡◌, refl, Bool, Option, none, some, ◌∷◌, List, [],
}
use blockrouter.Mempool.Memory.{Memory}
use blockrouter.Mempool.Part
use blockrouter.Mempool.Part.{Part, deref, split_to, set_at, truncate, windows}
use blockrouter.Mempool.Pool.{GlobalMemPool, realsize, drop_part}

-- The calls of a part.
pub data Call : Type 0 where
  splits : ℕ → Call
  drops : Call
  advances : ℕ → Call
  truncates : ℕ → Call
  writes : ℕ → ℕ → Call

abbrev pub IsInRange : Call → Part → Type 0
IsInRange (splits at) p = at ≤ p.len
IsInRange drops p = Unit
IsInRange (advances cnt) p = cnt ≤ p.len
IsInRange (truncates len) p = len ≤ p.len
IsInRange (writes i v) p = i < p.len

module _ (checks : Bool) (map_anon : ℕ → ℕ → Option ℕ) where
  -- A call of a part: the pool, the memory and what has become of the part.
  unfoldable pub call :
      Call → GlobalMemPool → Memory → Part → Option (GlobalMemPool × (Memory × List Part))
  call (splits at) pool mem p = elim (split_to checks (realsize pool.settings) mem p at) [
    | some (mem', (front, back)) ↦ some (pool, (mem', front ∷ back ∷ []))
    | none ↦ none
  ]
  call drops pool mem p = elim (drop_part checks map_anon pool mem p) [
    | some (pool', mem') ↦ some (pool', (mem', []))
    | none ↦ none
  ]
  call (advances cnt) pool mem p = elim (Part.advance checks p cnt) [
    | some p' ↦ some (pool, (mem, p' ∷ []))
    | none ↦ none
  ]
  call (truncates len) pool mem p = elim (truncate p len) [
    | some p' ↦ some (pool, (mem, p' ∷ []))
    | none ↦ none
  ]
  call (writes i v) pool mem p = elim (set_at mem p i v) [
    | some mem' ↦ some (pool, (mem', p ∷ []))
    | none ↦ none
  ]

  pub splits-runs :
      (pool : GlobalMemPool) (mem mem' : Memory) (p front back : Part) (at : ℕ)
      → split_to checks (realsize pool.settings) mem p at ≡ some (mem', (front, back))
      → call (splits at) pool mem p ≡ some (pool, (mem', front ∷ back ∷ []))
  unfolding call
  splits-runs pool mem mem' p front back at e = rw (call, e) refl

  pub drops-runs :
      (pool pool' : GlobalMemPool) (mem mem' : Memory) (p : Part)
      → drop_part checks map_anon pool mem p ≡ some (pool', mem')
      → call drops pool mem p ≡ some (pool', (mem', []))
  unfolding call
  drops-runs pool pool' mem mem' p e = rw (call, e) refl

  pub writes-runs :
      (pool : GlobalMemPool) (mem mem' : Memory) (p : Part) (i v : ℕ)
      → set_at mem p i v ≡ some mem'
      → call (writes i v) pool mem p ≡ some (pool, (mem', p ∷ []))
  unfolding call
  writes-runs pool mem mem' p i v e = rw (call, e) refl

  pub advances-runs :
      (pool : GlobalMemPool) (mem : Memory) (p : Part) (cnt : ℕ)
      → cnt ≤ p.len
      → call (advances cnt) pool mem p
        ≡ some (pool, (mem, record p { ptr = p.ptr + cnt; len = p.len - cnt } ∷ []))
  unfolding call Part.advance Part.sub
  advances-runs pool mem p cnt within = rw (call, at_most cnt p.len within) refl

  pub truncates-runs :
      (pool : GlobalMemPool) (mem : Memory) (p : Part) (len : ℕ)
      → len ≤ p.len
      → call (truncates len) pool mem p ≡ some (pool, (mem, record p { len = len } ∷ []))
  unfolding call truncate
  truncates-runs pool mem p len within = rw (call, not_above len p.len within) refl
