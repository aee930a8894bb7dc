-- ===== src/Readers.antt =====
-- The two `SliceCursor`s of src/cursor.rs that the parsers run on. `get_u8` is the method that
-- `bytes::Buf` provides on top of `remaining`, `bytes` and `advance`.
pub mod Reads
pub mod Owned
use blockrouter.Buf.{BufMethods}
use blockrouter.DirectBuf.{DirectBuf}
use blockrouter.Cursor.View
use blockrouter.Cursor.View.{MultibytesView}
use blockrouter.Cursor.Indexed
use blockrouter.Cursor.Indexed.{IndexedMultibytes}
use blockrouter.Parser.{SliceCursor}

module _ (M : BufMethods) (D : DirectBuf) where
  abbrev pub view_cursor : SliceCursor
  view_cursor = record {
    B = MultibytesView D;
    has_atleast = View.has_atleast D;
    get_u8 = M.get_u8 (MultibytesView D) (View.remaining D) (View.bytes D) (View.advance D);
  }

  abbrev pub indexed_cursor : SliceCursor
  indexed_cursor = record {
    B = IndexedMultibytes D;
    has_atleast = Indexed.has_atleast D;
    get_u8 =
        M.get_u8 (IndexedMultibytes D) (Indexed.remaining D) (Indexed.bytes D) (Indexed.advance D);
  }
