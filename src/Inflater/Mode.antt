-- ===== src/Inflater/Mode.antt =====
-- src/inflater.rs: what a `PacketInflater` keeps from packet to packet.
use blockrouter.Prelude.{ℕ, ◌≡◌, refl, ◌⊎◌, Option, none, some, Bool-cases, inl, inr, ◌==◌}
use mathlib.Core.Option.{map}
use blockrouter.Prelude.Signed.{ℤ, ltb_ℤ, to_i32}
use blockrouter.DirectBuf.{DirectBuf}
use blockrouter.Buf.{BufMethods}
use blockrouter.Cursor
use blockrouter.Cursor.{Cursor, Multibytes}
use blockrouter.Cursor.Indexed
use blockrouter.Cursor.Indexed.{IndexedMultibytes}
use blockrouter.Parser.{ParseResult, varint}
use blockrouter.Readers.{indexed_cursor}
use blockrouter.Framer.{Frame}
use blockrouter.Zlib.{ZlibOperator}
use blockrouter.Compress.{ProcessResult}
use blockrouter.Inflater
use blockrouter.Inflater.{InflateState, PacketInflater, InflateResult}

module _ (Z : ZlibOperator) where
  -- Whether compression is on, and from which size.
  unfoldable pub mode : PacketInflater Z → Option ℤ
  mode p = map (λ st. st.threshold) p.inflate

given-cases {ℓ} : {A : Type ℓ} (o : Option A) → (o ≡ none) ⊎ ((a : A) × (o ≡ some a))
given-cases none = inl refl
given-cases (some a) = inr (a, refl)

module _ (M : BufMethods) (D : DirectBuf) (Z : ZlibOperator) where
  with_data-mode :
      (st : InflateState Z) (h : Multibytes D) (r : ProcessResult Z.S)
      → mode Z (Inflater.with_data M D Z st h r).0 ≡ some st.threshold
  unfolding mode Inflater.with_data
  with_data-mode st h (ProcessResult.ok s pages) = refl
  with_data-mode st h (ProcessResult.err s e) = refl
  with_data-mode st h ProcessResult.stuck = refl

  decompress-mode :
      (capacity fuel : ℕ) (st : InflateState Z) (parts : Multibytes D × Cursor)
      → mode Z (Inflater.decompress M D Z capacity fuel st parts).0 ≡ some st.threshold
  unfolding mode Inflater.decompress
  decompress-mode capacity fuel st (msg, c) = elim (given-cases (Cursor.split_to D msg c)) [
    | inl missing ↦ rw (Inflater.decompress, missing) refl
    | inr ((header, rest), cut) ↦ rw (Inflater.decompress, cut) (with_data-mode st header _)
  ]

  after_size-mode :
      (capacity fuel : ℕ) (st : InflateState Z) (r : ParseResult (IndexedMultibytes D))
      → mode Z (Inflater.after_size M D Z capacity fuel st r).0 ≡ some st.threshold
  unfolding mode Inflater.after_size
  after_size-mode capacity fuel st (ParseResult.ok compressed size) =
      elim (Bool-cases (size == 0)) [
        | inl plain ↦ rw plain refl
        | inr sized ↦ elim (Bool-cases (ltb_ℤ (to_i32 size) st.threshold)) [
          | inl small ↦ rw (sized, small) refl
          | inr large ↦
              rw (sized, large) (decompress-mode capacity fuel st (Indexed.dissolve D compressed))
        ]
      ]
  after_size-mode capacity fuel st ParseResult.incomplete = refl
  after_size-mode capacity fuel st (ParseResult.error e) = refl
  after_size-mode capacity fuel st ParseResult.panicked = refl
  after_size-mode capacity fuel st ParseResult.stuck = refl

  -- No frame changes whether compression is on, nor its threshold, on any branch of inflate: not with
  -- a header that cannot be decoded, not with a size under the threshold, and not with an error of
  -- the operator.
  pub inflate-mode :
      (capacity fuel : ℕ) (p : PacketInflater Z) (f : Frame D)
      → mode Z (Inflater.inflate M D Z capacity fuel p f).0 ≡ mode Z p
  unfolding mode Inflater.inflate
  inflate-mode capacity fuel p f = elim (given-cases p.inflate) [
    | inl off ↦ rw off refl
    | inr (st, on) ↦ rw on (
        after_size-mode capacity fuel st
          (varint (indexed_cursor M D) (Indexed.cursor_indexed D f.packet f.data_start)))
  ]
