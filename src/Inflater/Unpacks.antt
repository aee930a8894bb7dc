-- ===== src/Inflater/Unpacks.antt =====
-- src/inflater.rs: what `inflate` makes of the bytes of a frame.
use blockrouter.Prelude.{
  ℕ, ◌+◌, ◌%◌, ◌^◌, ◌<◌, ◌≡◌, refl, sym, ap, Bool, true, false, some, arith, List, length, drop,
  ◌==◌, if◌then◌else◌,
}
use mathlib.Core.Path.{subst}
use blockrouter.Prelude.Signed.{ltb_ℤ, to_i32}
use blockrouter.DirectBuf.{DirectBuf, IsLawful}
use blockrouter.Buf.{BufMethods, IsDocumented}
use blockrouter.Cursor.{Cursor, Multibytes}
use blockrouter.Cursor.Position.{flat, unread}
use blockrouter.Cursor.Read.{IsReadable}
use blockrouter.Cursor.Indexed
use blockrouter.Cursor.Indexed.{IndexedMultibytes}
use blockrouter.Parser.{ParseResult, varint}
use blockrouter.Parser.Scan.{Scan, done, short, long, scan, value, scan-IsHeader}
use blockrouter.Parser.Decode.{IsBytes, Outcome, varint-Outcome}
use blockrouter.Readers.{indexed_cursor}
use blockrouter.Readers.Reads.{IsReadingIndexed, behind_indexed, indexed_cursor-Reads}
use blockrouter.Zlib.{ZlibOperator}
use blockrouter.Compress.Streams.{Lawful}
use blockrouter.Inflater
use blockrouter.Inflater.{
  InflateState, PacketInflater, InflateResult, ok, err, cursor, multibytes,
  compression_size_decode_fail, small_compression, zlib_error,
}
use blockrouter.Inflater.Pages.{Unpacked, Sized, Owed, decompress-Unpacked}

module _ (M : BufMethods) (doc : IsDocumented M) (D : DirectBuf) (L : IsLawful D) (Z : ZlibOperator)
    (Lz : Lawful Z) (capacity fuel : ℕ) (st : InflateState Z) (mb : Multibytes D) where
  by_size :
      (none_at_all below : Bool) (c : Cursor) (r : PacketInflater Z × InflateResult D)
      → Unpacked D Z Lz capacity st mb (unread D mb.b c) r
      → Sized D Z Lz capacity st mb none_at_all below (unread D mb.b c) (
          if none_at_all
          then (record { inflate = some st }, ok (record { h = mb; d = cursor c }))
          else if below
          then (record { inflate = some st }, err small_compression)
          else r)
  by_size true below c r unpacked = (c, refl, refl)
  by_size false true c r unpacked = refl
  by_size false false c r unpacked = unpacked

  -- By the size that was read.
  after_size-Sized :
      (v : IndexedMultibytes D) (size : ℕ)
      → v.b ≡ mb
      → Unpacked D Z Lz capacity st mb
          (unread D mb.b v.c)
          (Inflater.decompress M D Z capacity fuel st (mb, v.c))
      → Sized D Z Lz capacity st mb
          (size == 0)
          (ltb_ℤ (to_i32 size) st.threshold)
          (unread D mb.b v.c)
          (Inflater.after_size M D Z capacity fuel st (ParseResult.ok v size))
  unfolding Inflater.after_size Indexed.dissolve
  after_size-Sized v size same unpacked =
      subst
        (λ b.
          Sized D Z Lz capacity st mb (size == 0) (ltb_ℤ (to_i32 size) st.threshold)
            (unread D mb.b v.c)
            (Inflater.after_size M D Z capacity fuel st
              (ParseResult.ok (record { b = b; c = v.c }) size)))
        (sym same)
        (by_size (size == 0) (ltb_ℤ (to_i32 size) st.threshold) v.c
          (Inflater.decompress M D Z capacity fuel st (mb, v.c)) unpacked)

  module _ (small : length (flat D mb.b) < 2 ^ 32) (room : 0 < capacity)
      (word : capacity < 2 ^ 32) where
    abbrev Parsed : Scan → ParseResult (IndexedMultibytes D) → Type 0
    Parsed =
        Outcome (indexed_cursor M D) (behind_indexed M doc D L mb (omega arith))
          (IsReadingIndexed M doc D L mb (omega arith)) 32 (λ gs. value gs % 2 ^ 32)

    -- What the parser answers, where the fuel is enough for what it leaves.
    after_size-Owed :
        (s : Scan) (r : ParseResult (IndexedMultibytes D))
        → Parsed s r
        → ((gs rest : List ℕ) → s ≡ done gs rest → Lz.todo st.inflater rest + length mb.b < fuel)
        → ((gs rest : List ℕ) → s ≡ done gs rest → Lz.goes_on st.inflater rest)
        → Owed D Z Lz capacity st mb s (Inflater.after_size M D Z capacity fuel st r)
    unfolding Inflater.after_size
    after_size-Owed (done gs rest) r (v, e, behind, good) enough on =
        let size = value gs % 2 ^ 32 in
        let left = ap (Lz.todo st.inflater) behind in
        let unpacked =
          decompress-Unpacked M doc D L Z Lz capacity fuel st mb v.c good.readable small room word
            (omega (arith, left, enough gs rest refl))
            (subst (Lz.goes_on st.inflater) (sym behind) (on gs rest refl)) in
        subst
          (λ r.
            Owed D Z Lz capacity st mb (done gs rest)
              (Inflater.after_size M D Z capacity fuel st r))
          (sym e)
          (subst
            (λ bs.
              Sized D Z Lz capacity st mb (size == 0) (ltb_ℤ (to_i32 size) st.threshold) bs
                (Inflater.after_size M D Z capacity fuel st (ParseResult.ok v size)))
            behind (after_size-Sized v size good.same unpacked))
    after_size-Owed short r e enough on = rw e refl
    after_size-Owed long r e enough on = rw e refl

    -- inflate with compression on, of a packet shorter than 2^32 bytes with a cursor on it, over an
    -- operator that is as zlib documents and whose stream does not end within the bytes behind the
    -- number, nor asks for a dictionary, with buffers of a fixed length between 1 and 2^32 - 1 and
    -- fuel for every rest of the packet: it ends without a panic. No number at the cursor, or one of
    -- more than five groups, is a decode failure. A number of 0 leaves the packet as it is, with the
    -- cursor behind the number. One below the threshold is an error. Otherwise an error that the
    -- operator reported is answered, or the header is the bytes up to the end of the number, the operator has read exactly
    -- the bytes behind it, and the packet's data is exactly what it wrote, in pages that are neither
    -- empty nor longer than a buffer. The operator's state is kept for the next packet.
    pub inflate-Owed :
        (c : Cursor)
        → IsReadable D mb.b c
        → IsBytes (unread D mb.b c)
        → ((k : ℕ) → Lz.todo st.inflater (drop k (unread D mb.b c)) + length mb.b < fuel)
        → ((gs rest : List ℕ)
            → scan 5 (unread D mb.b c) ≡ done gs rest
            → Lz.goes_on st.inflater rest)
        → Owed D Z Lz capacity st mb (scan 5 (unread D mb.b c)) (
            Inflater.inflate M D Z capacity fuel
              (record { inflate = some st })
              (record { packet = mb; data_start = c }))
    unfolding Inflater.inflate Indexed.cursor_indexed
    inflate-Owed c good bytes enough on =
        let v : IndexedMultibytes D = record { b = mb; c = c } in
        after_size-Owed (scan 5 (unread D mb.b c)) (varint (indexed_cursor M D) v)
          (varint-Outcome (indexed_cursor M D) (behind_indexed M doc D L mb (omega arith))
            (IsReadingIndexed M doc D L mb (omega arith))
            (indexed_cursor-Reads M doc D L mb (omega arith)) v
            (record { same = refl; readable = good }) bytes)
          (λ gs rest e.
            let left = ap (Lz.todo st.inflater) (scan-IsHeader 5 (unread D mb.b c) e).behind in
            omega (arith, left, enough (length gs)))
          on
