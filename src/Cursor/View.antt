-- ===== src/Cursor/View.antt =====
-- `MultibytesView` of src/cursor.rs: a borrowed `Multibytes` with a cursor into it, read through
-- `bytes::Buf` and `SliceCursor`.
use blockrouter.Prelude.{ℕ, Bool, Option, none, some, List, [], get_elem?}
use blockrouter.DirectBuf.{DirectBuf}
use blockrouter.Cursor
use blockrouter.Cursor.{Cursor, Multibytes, slice_from}

pub record MultibytesView (D : DirectBuf) : Type 0 where
  pub b : Multibytes D
  pub c : Cursor

module _ (D : DirectBuf) where
  open D use {T, bytes as page_bytes}

  unfoldable pub view : Multibytes D → MultibytesView D
  unfolding Cursor.cursor
  view mb = record { b = mb; c = Cursor.cursor D mb }

  unfoldable pub cursor_view : Multibytes D → Cursor → MultibytesView D
  cursor_view mb c = record { b = mb; c = c }

  unfoldable pub cursor : MultibytesView D → Cursor
  cursor v = v.c

  unfoldable pub remaining : MultibytesView D → ℕ
  unfolding Cursor.remaining
  remaining v = Cursor.remaining D v.c v.b

  -- `&x.bytes()[self.c.i..]`, which panics past the end of the page.
  chunk : Cursor → Option T → Option (List ℕ)
  unfolding slice_from
  chunk c none = some []
  chunk c (some x) = slice_from (page_bytes x) c.i

  unfoldable pub bytes : MultibytesView D → Option (List ℕ)
  unfolding chunk
  bytes v = chunk v.c (get_elem? v.b.b v.c.of)

  -- What `Cursor::advance` answers is dropped.
  unfoldable pub advance : MultibytesView D → ℕ → MultibytesView D
  unfolding Cursor.advance
  advance v cnt = record v { c = (Cursor.advance D v.c v.b cnt).0 }

  unfoldable pub has_atleast : MultibytesView D → ℕ → Bool
  unfolding Cursor.has_atleast
  has_atleast v len = Cursor.has_atleast D v.c v.b len

  unfoldable pub bytes_vectored : MultibytesView D → List (List ℕ) → Option (ℕ × List (List ℕ))
  unfolding Cursor.bytes_vectored
  bytes_vectored v dst = Cursor.bytes_vectored D v.c v.b dst
