-- ===== src/DirectBuf.antt =====
-- The buffer interface of src/cursor.rs and src/direct.rs. The `bytes` crate implements it for
-- `Bytes` and `BytesMut`; code that is generic over it takes it as a parameter.
pub mod Slice
use blockrouter.Prelude.{ℕ, ◌≤◌, ◌≡◌, Option, some, List, length, take, drop}

-- `trait DirectBuf: bytes::Buf + AsRef<[u8]>`. A method on `&mut self` returns the new buffer; a
-- panic is `none`. `split_to` returns the front part and what `self` becomes.
pub record DirectBuf : Type 1 where
  pub T : Type 0
  pub remaining : T → ℕ
  pub bytes : T → List ℕ
  pub as_ref : T → List ℕ
  pub split_to : T → ℕ → Option (T × T)
  pub truncate : T → ℕ → Option T

-- What the callers rely on: one contiguous chunk, split and cut short inside its length.
pub record IsLawful (D : DirectBuf) : Type 0 where
  pub remaining-bytes : (b : D.T) → D.remaining b ≡ length (D.bytes b)
  pub as_ref-bytes : (b : D.T) → D.as_ref b ≡ D.bytes b
  pub split_to_returns :
      (b : D.T) (at : ℕ)
      → at ≤ D.remaining b
      → (front : D.T) × (back : D.T) × (D.split_to b at ≡ some (front, back))
        × (D.bytes front ≡ take at (D.bytes b))
        × (D.bytes back ≡ drop at (D.bytes b))
  pub truncate_returns :
      (b : D.T) (len : ℕ)
      → len ≤ D.remaining b
      → (cut : D.T) × (D.truncate b len ≡ some cut) × (D.bytes cut ≡ take len (D.bytes b))
