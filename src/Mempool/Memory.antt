-- ===== src/Mempool/Memory.antt =====
-- The memory behind the raw pointers of src/mempool.rs, byte by byte, and the `u32` at an address
-- (its bytes with the lowest first, as the code's targets have them).
use blockrouter.Prelude.{
  ℕ, zero, suc, ◌+◌, ◌*◌, ◌/◌, ◌%◌, ◌^◌, ◌≤◌, ◌<◌, ◌≡◌, refl, ap, ap₂, arith, List, [], ◌∷◌, length,
  take, drop, ◌==◌, if◌then◌else◌, ◌⊎◌, inl, inr, set, ◌∙◌,
}

-- The byte at each address.
abbrev pub Memory : Type 0
Memory = ℕ → ℕ

-- `slice::from_raw_parts(ptr, len)`
unfoldable pub read : Memory → ℕ → ℕ → List ℕ
read mem ptr zero = []
read mem ptr (suc len) = mem ptr ∷ read mem (ptr + 1) len

unfoldable pub write_byte : Memory → ℕ → ℕ → Memory
write_byte mem at v = λ j. if j == at then v else mem j

unfoldable pub read_u32 : Memory → ℕ → ℕ
read_u32 mem at = mem at + mem (at + 1) * 256 + mem (at + 2) * 2 ^ 16 + mem (at + 3) * 2 ^ 24

unfoldable pub write_u32 : Memory → ℕ → ℕ → Memory
write_u32 mem at v = λ j.
    if j == at
    then v % 256
    else if j == at + 1
    then v / 256 % 256
    else if j == at + 2
    then v / 2 ^ 16 % 256
    else if j == at + 3
    then v / 2 ^ 24 % 256
    else mem j

pub write_u32-elsewhere :
    (mem : Memory) (at v j : ℕ) → (j < at) ⊎ (at + 4 ≤ j) → write_u32 mem at v j ≡ mem j
unfolding write_u32
write_u32-elsewhere mem at v j h = ground arith

pub read_u32-write_u32 :
    (mem : Memory) (at v : ℕ) → v < 2 ^ 32 → read_u32 (write_u32 mem at v) at ≡ v
unfolding read_u32 write_u32
read_u32-write_u32 mem at v h = ground arith

pub read_u32-elsewhere :
    (mem : Memory) (at v other : ℕ)
    → (other + 4 ≤ at) ⊎ (at + 4 ≤ other)
    → read_u32 (write_u32 mem at v) other ≡ read_u32 mem other
unfolding read_u32
read_u32-elsewhere mem at v other h = omega (
  arith,
  write_u32-elsewhere mem at v other (ground arith),
  write_u32-elsewhere mem at v (other + 1) (ground arith),
  write_u32-elsewhere mem at v (other + 2) (ground arith),
  write_u32-elsewhere mem at v (other + 3) (ground arith),
)

pub write_byte-elsewhere :
    (mem : Memory) (at v j : ℕ) → (j < at) ⊎ (at < j) → write_byte mem at v j ≡ mem j
unfolding write_byte
write_byte-elsewhere mem at v j h = ground arith

written : (mem : Memory) (at j v : ℕ) → j ≡ at → write_byte mem at v j ≡ v
unfolding write_byte
written mem at j v h = ground arith

pub read_u32-agree :
    (mem mem' : Memory) (at : ℕ)
    → ((j : ℕ) → at ≤ j → j < at + 4 → mem' j ≡ mem j)
    → read_u32 mem' at ≡ read_u32 mem at
unfolding read_u32
read_u32-agree mem mem' at same = omega (
  arith,
  same at (omega arith) (omega arith),
  same (at + 1) (omega arith) (omega arith),
  same (at + 2) (omega arith) (omega arith),
  same (at + 3) (omega arith) (omega arith),
)

-- A range of memory reads the same wherever its bytes are the same.
pub read-agree :
    (mem mem' : Memory) (ptr len : ℕ)
    → ((j : ℕ) → ptr ≤ j → j < ptr + len → mem' j ≡ mem j)
    → read mem' ptr len ≡ read mem ptr len
unfolding read
read-agree mem mem' ptr zero same = refl
read-agree mem mem' ptr (suc len) same =
    ap₂ (λ (b : ℕ) bs. b ∷ bs) (same ptr (omega arith) (omega arith))
      (read-agree mem mem' (ptr + 1) len (λ j p q. same j (omega arith) (omega arith)))

pub length-read : (mem : Memory) (ptr len : ℕ) → length (read mem ptr len) ≡ len
unfolding read
length-read mem ptr zero = refl
length-read mem ptr (suc len) = ap suc (length-read mem (ptr + 1) len)

-- The bytes at the front of a range, and those behind them.
pub read-take :
    (mem : Memory) (at ptr len : ℕ) → at ≤ len → take at (read mem ptr len) ≡ read mem ptr at
unfolding read
read-take mem zero ptr len h = refl
read-take mem (suc at) ptr zero h = absurd (omega arith)
read-take mem (suc at) ptr (suc len) h =
    ap (λ bs. mem ptr ∷ bs) (read-take mem at (ptr + 1) len (omega arith))

pub read-drop :
    (mem : Memory) (at ptr len rest : ℕ)
    → len ≡ at + rest
    → drop at (read mem ptr len) ≡ read mem (ptr + at) rest
unfolding read
read-drop mem zero ptr len rest h = ap₂ (λ (p n : ℕ). read mem p n) (omega arith) (omega arith)
read-drop mem (suc at) ptr zero rest h = absurd (omega arith)
read-drop mem (suc at) ptr (suc len) rest h =
    rw (read-drop mem at (ptr + 1) len rest (omega arith))
      (ap (λ (p : ℕ). read mem p rest) (omega arith))

-- A byte written at `i` in a range is the byte at `i` of the bytes read.
pub read-write_byte :
    (mem : Memory) (i v ptr len : ℕ)
    → read (write_byte mem (ptr + i) v) ptr len ≡ set (read mem ptr len) i v
unfolding read
read-write_byte mem i v ptr zero = refl
read-write_byte mem zero v ptr (suc len) =
    ap₂ (λ (b : ℕ) bs. b ∷ bs) (written mem (ptr + 0) ptr v (omega arith))
      (read-agree mem (write_byte mem (ptr + 0) v) (ptr + 1) len
        (λ j low high. write_byte-elsewhere mem (ptr + 0) v j (inr (omega arith))))
read-write_byte mem (suc i) v ptr (suc len) =
    ap₂ (λ (b : ℕ) bs. b ∷ bs) (write_byte-elsewhere mem (ptr + suc i) v ptr (inl (omega arith)))
      (ap (λ (a : ℕ). read (write_byte mem a v) (ptr + 1) len) (omega arith)
        ∙ read-write_byte mem i v (ptr + 1) len)
