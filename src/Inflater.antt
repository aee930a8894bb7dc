-- ===== src/Inflater.antt =====
-- src/inflater.rs: `PacketInflater`, which undoes the compression of a frame's packet. The pages that
-- the operator writes are lists of bytes here.
pub mod Mode
pub mod Pages
pub mod Unpacks
pub mod Arrives
mod Tests
use blockrouter.Prelude.{ℕ, Option, none, some, ◌⊎◌, inl, inr, List, map, ◌==◌, if◌then◌else◌}
use blockrouter.Prelude.Signed.{ℤ, ltb_ℤ, to_i32}
use blockrouter.DirectBuf.{DirectBuf}
use blockrouter.Buf.{BufMethods}
use blockrouter.Cursor
use blockrouter.Cursor.{Cursor, Multibytes}
use blockrouter.Cursor.Indexed
use blockrouter.Cursor.Indexed.{IndexedMultibytes}
use blockrouter.Parser.{ParseResult, varint}
use blockrouter.Readers.{indexed_cursor}
use blockrouter.Framer.{Frame}
use blockrouter.Zlib.{ZLibError, ZlibOperator}
use blockrouter.Compress
use blockrouter.Compress.{ProcessResult}

pub data InflaterError : Type 0 where
  compression_size_decode_fail : InflaterError
  small_compression : InflaterError
  zlib_error : ZLibError → InflaterError

pub data DataBacking : Type 0 where
  cursor : Cursor → DataBacking
  multibytes : List (List ℕ) → DataBacking

pub record Packet (D : DirectBuf) : Type 0 where
  pub h : Multibytes D
  pub d : DataBacking

pub record InflateState (Z : ZlibOperator) : Type 0 where
  pub threshold : ℤ
  pub inflater : Z.S

pub record PacketInflater (Z : ZlibOperator) : Type 0 where
  pub inflate : Option (InflateState Z)

-- `Result<Packet<T>, InflaterError>`, and the ends of a call that are no result.
pub data InflateResult (D : DirectBuf) : Type 0 where
  ok : Packet D → InflateResult D
  err : InflaterError → InflateResult D
  panicked : InflateResult D
  stuck : InflateResult D

module _ (M : BufMethods) (D : DirectBuf) (Z : ZlibOperator) where
  unfoldable pub new : PacketInflater Z
  new = record { inflate = none }

  -- What `process` answers becomes the packet's data; the operator's state is kept in any case.
  unfoldable pub with_data :
      InflateState Z → Multibytes D → ProcessResult Z.S → PacketInflater Z × InflateResult D
  with_data st header (ProcessResult.ok s pages) = (
    record { inflate = some (record st { inflater = s }) },
    ok (record { h = header; d = multibytes pages }),
  )
  with_data st header (ProcessResult.err s e) =
      (record { inflate = some (record st { inflater = s }) }, err (zlib_error e))
  with_data st header ProcessResult.stuck = (record { inflate = some st }, stuck)

  -- The header is cut off, and the rest inflated.
  unfoldable pub decompress :
      ℕ → ℕ → InflateState Z → Multibytes D × Cursor → PacketInflater Z × InflateResult D
  unfolding with_data
  decompress capacity fuel st (msg, c) = elim (Cursor.split_to D msg c) [
    | none ↦ (record { inflate = some st }, panicked)
    | some (header, rest) ↦
        with_data st header (Compress.process Z capacity fuel st.inflater (map D.as_ref rest.b))
  ]

  -- The match on the parser's result.
  unfoldable pub after_size :
      ℕ
      → ℕ
      → InflateState Z
      → ParseResult (IndexedMultibytes D)
      → PacketInflater Z × InflateResult D
  unfolding decompress
  after_size capacity fuel st (ParseResult.ok compressed size) =
      let parts = Indexed.dissolve D compressed in
      let whole : Packet D = record { h = parts.0; d = cursor parts.1 } in
      let same : PacketInflater Z = record { inflate = some st } in
      let inflated = decompress capacity fuel st parts in
      if size == 0
      then (same, ok whole)
      else if ltb_ℤ (to_i32 size) st.threshold
      then (same, err small_compression)
      else inflated
  after_size capacity fuel st ParseResult.incomplete =
      (record { inflate = some st }, err compression_size_decode_fail)
  after_size capacity fuel st (ParseResult.error e) =
      (record { inflate = some st }, err compression_size_decode_fail)
  after_size capacity fuel st ParseResult.panicked = (record { inflate = some st }, panicked)
  after_size capacity fuel st ParseResult.stuck = (record { inflate = some st }, stuck)

  unfoldable pub inflate : ℕ → ℕ → PacketInflater Z → Frame D → PacketInflater Z × InflateResult D
  unfolding after_size
  inflate capacity fuel p f = elim p.inflate [
    | none ↦ (p, ok (record { h = f.packet; d = cursor f.data_start }))
    | some st ↦
        after_size capacity fuel st
          (varint (indexed_cursor M D) (Indexed.cursor_indexed D f.packet f.data_start))
  ]

  -- The argument is what `Inflater::inflate()` answers.
  unfoldable pub start_compression :
      PacketInflater Z → ℤ → ZLibError ⊎ Z.S → PacketInflater Z × Option ZLibError
  start_compression p threshold (inl e) = (p, some e)
  start_compression p threshold (inr s) =
      (record { inflate = some (record { threshold = threshold; inflater = s }) }, none)
