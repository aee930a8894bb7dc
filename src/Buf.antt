-- ===== src/Buf.antt =====
-- `get_u8`, which src/cursor.rs and src/parser.rs take from the `bytes` crate: a method that the
-- trait `Buf` provides on top of the three methods that a buffer implements.
pub mod First
use blockrouter.Prelude.{ℕ, ◌<◌, ◌≡◌, Option, none, some, List, ◌∷◌}

-- The arguments are the buffer's `remaining`, `bytes` and `advance`. `none` is a panic.
pub record BufMethods : Type 1 where
  pub get_u8 : (B : Type 0) → (B → ℕ) → (B → Option (List ℕ)) → (B → ℕ → B) → B → Option (ℕ × B)

-- As documented: it reads the first byte of `bytes` and advances by one, and it panics if nothing
-- remains.
pub record IsDocumented (M : BufMethods) : Type 1 where
  pub get_u8_returns :
      (B : Type 0) (remaining : B → ℕ) (bytes : B → Option (List ℕ)) (advance : B → ℕ → B)
      → (b : B) (x : ℕ) (xs : List ℕ) → 0 < remaining b
      → bytes b ≡ some (x ∷ xs)
      → M.get_u8 B remaining bytes advance b ≡ some (x, advance b 1)
  pub get_u8_panics :
      (B : Type 0) (remaining : B → ℕ) (bytes : B → Option (List ℕ)) (advance : B → ℕ → B)
      → (b : B) → remaining b ≡ 0
      → M.get_u8 B remaining bytes advance b ≡ none
