-- ===== src/Cursor/Indexed.antt =====
-- `IndexedMultibytes` of src/cursor.rs: a `Multibytes` owned together with a cursor into it, read
-- through `bytes::Buf` and `SliceCursor`.
use blockrouter.Prelude.{ℕ, Bool, Option, none, some, List, [], get_elem?}
use blockrouter.DirectBuf.{DirectBuf}
use blockrouter.Cursor
use blockrouter.Cursor.{Cursor, Multibytes, slice_from}

pub record IndexedMultibytes (D : DirectBuf) : Type 0 where
  pub b : Multibytes D
  pub c : Cursor

module _ (D : DirectBuf) where
  open D use {T, bytes as page_bytes}

  unfoldable pub indexed : Multibytes D → IndexedMultibytes D
  indexed mb = record { b = mb; c = record { of = 0; i = 0 } }

  unfoldable pub cursor_indexed : Multibytes D → Cursor → IndexedMultibytes D
  cursor_indexed mb c = record { b = mb; c = c }

  unfoldable pub dissolve : IndexedMultibytes D → Multibytes D × Cursor
  dissolve v = (v.b, v.c)

  unfoldable pub cursor : IndexedMultibytes D → Cursor
  cursor v = v.c

  unfoldable pub remaining : IndexedMultibytes D → ℕ
  unfolding Cursor.remaining
  remaining v = Cursor.remaining D v.c v.b

  -- `&x.bytes()[self.c.i..]`, which panics past the end of the page.
  chunk : Cursor → Option T → Option (List ℕ)
  unfolding slice_from
  chunk c none = some []
  chunk c (some x) = slice_from (page_bytes x) c.i

  unfoldable pub bytes : IndexedMultibytes D → Option (List ℕ)
  unfolding chunk
  bytes v = chunk v.c (get_elem? v.b.b v.c.of)

  -- What `Cursor::advance` answers is dropped.
  unfoldable pub advance : IndexedMultibytes D → ℕ → IndexedMultibytes D
  unfolding Cursor.advance
  advance v cnt = record v { c = (Cursor.advance D v.c v.b cnt).0 }

  unfoldable pub has_atleast : IndexedMultibytes D → ℕ → Bool
  unfolding Cursor.has_atleast
  has_atleast v len = Cursor.has_atleast D v.c v.b len

  unfoldable pub bytes_vectored : IndexedMultibytes D → List (List ℕ) → Option (ℕ × List (List ℕ))
  unfolding Cursor.bytes_vectored
  bytes_vectored v dst = Cursor.bytes_vectored D v.c v.b dst
