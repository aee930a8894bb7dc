-- ===== src/Readers/Owned.antt =====
-- src/cursor.rs and src/direct.rs: `Bytes` and `BytesMut` as buffers and as what the parsers read.
-- The two types belong to the `bytes` crate and are a parameter.
use blockrouter.Prelude.{
  ℕ, ◌<◌, ◌≤◌, ◌≡◌, ap, ◌∙◌, arith, Bool, Option, some, List, length, take, drop, leb,
}
use blockrouter.Buf.{BufMethods, IsDocumented}
use blockrouter.DirectBuf.{DirectBuf, IsLawful}
use blockrouter.Parser.{SliceCursor}
use blockrouter.Parser.Decode.{Reads}

-- `none` is a panic.
pub record BytesCrate : Type 1 where
  pub B : Type 0
  pub remaining : B → ℕ
  pub bytes : B → List ℕ
  pub as_ref : B → List ℕ
  pub advance : B → ℕ → B
  pub split_to : B → ℕ → Option (B × B)
  pub truncate : B → ℕ → Option B

-- What the crate documents: one contiguous chunk.
pub record IsContiguous (C : BytesCrate) : Type 0 where
  pub remaining-bytes : (b : C.B) → C.remaining b ≡ length (C.bytes b)
  pub as_ref-bytes : (b : C.B) → C.as_ref b ≡ C.bytes b
  pub bytes-advance :
      (b : C.B) (n : ℕ) → n ≤ C.remaining b → C.bytes (C.advance b n) ≡ drop n (C.bytes b)
  pub split_to_returns :
      (b : C.B) (at : ℕ)
      → at ≤ C.remaining b
      → (front : C.B) × (back : C.B) × (C.split_to b at ≡ some (front, back))
        × (C.bytes front ≡ take at (C.bytes b))
        × (C.bytes back ≡ drop at (C.bytes b))
  pub truncate_returns :
      (b : C.B) (len : ℕ)
      → len ≤ C.remaining b
      → (cut : C.B) × (C.truncate b len ≡ some cut) × (C.bytes cut ≡ take len (C.bytes b))

module _ (C : BytesCrate) where
  -- `DirectBuf for Bytes` and `DirectBuf for BytesMut`
  abbrev pub owned_buf : DirectBuf
  owned_buf = record {
    T = C.B;
    remaining = C.remaining;
    bytes = C.bytes;
    as_ref = C.as_ref;
    split_to = C.split_to;
    truncate = C.truncate;
  }

  -- The method that `SliceCursor` provides.
  unfoldable pub has_atleast : C.B → ℕ → Bool
  has_atleast b len = leb len (C.remaining b)

  -- `SliceCursor for Bytes` and `SliceCursor for BytesMut`
  module _ (M : BufMethods) where
    abbrev pub owned_cursor : SliceCursor
    owned_cursor = record {
      B = C.B;
      has_atleast = has_atleast;
      get_u8 = M.get_u8 C.B C.remaining (λ b. some (C.bytes b)) C.advance;
    }

  module _ (K : IsContiguous C) where
    pub owned_buf-IsLawful : IsLawful owned_buf
    owned_buf-IsLawful = record {
      remaining-bytes = K.remaining-bytes;
      as_ref-bytes = K.as_ref-bytes;
      split_to_returns = K.split_to_returns;
      truncate_returns = K.truncate_returns;
    }

    pub owned_cursor-Reads :
        (M : BufMethods) (doc : IsDocumented M) → Reads (owned_cursor M) C.bytes (λ b. Unit)
    unfolding has_atleast
    owned_cursor-Reads M doc = record {
      atleast_one = λ b _. ground (arith, K.remaining-bytes b);
      reads_byte = λ b x xs _ e.
          let some_bytes : 0 < C.remaining b =
            omega (arith, K.remaining-bytes b, ap (λ (l : List ℕ). length l) e) in
          (
            C.advance b 1,
            doc.get_u8_returns C.B C.remaining (λ b. some (C.bytes b)) C.advance b x xs some_bytes
                (ap some e),
            K.bytes-advance b 1 some_bytes ∙ ap (drop 1) e,
            tt,
          );
    }
