-- ===== src/Readers/Reads.antt =====
-- src/cursor.rs: the views as readers of the bytes behind their cursor.
use blockrouter.Prelude.{ℕ, ◌<◌, ◌^◌, ◌≡◌, ap, arith, List, ◌∷◌, length}
use blockrouter.Prelude.{some}
use blockrouter.Buf.{BufMethods, IsDocumented}
use blockrouter.DirectBuf.{DirectBuf, IsLawful}
use blockrouter.Cursor.{Multibytes}
use blockrouter.Cursor.Position.{flat, unread}
use blockrouter.Cursor.Measure.{remaining-unread}
use blockrouter.Cursor.Read.{IsReadable, chunk_at, advance_one, has_atleast_one}
use blockrouter.Cursor.View
use blockrouter.Cursor.View.{MultibytesView}
use blockrouter.Cursor.Indexed
use blockrouter.Cursor.Indexed.{IndexedMultibytes}
use blockrouter.Parser.Decode.{Reads}
use blockrouter.Readers.{view_cursor, indexed_cursor}

module _ (M : BufMethods) (doc : IsDocumented M) (D : DirectBuf) (L : IsLawful D)
    (mb : Multibytes D) (small : length (flat D mb.b) < 2 ^ 63) where
  -- A view of `mb` with a readable cursor.
  pub record IsReading (v : MultibytesView D) : Type 0 where
    pub same : v.b ≡ mb
    pub readable : IsReadable D mb.b v.c

  abbrev pub behind : MultibytesView D → List ℕ
  behind v = unread D mb.b v.c

  view_cursor-shows :
      (v : MultibytesView D) (x : ℕ) (xs : List ℕ)
      → IsReading v
      → behind v ≡ x ∷ xs
      → (ys : List ℕ) × (View.bytes D v ≡ some (x ∷ ys))
  unfolding View.bytes
  view_cursor-shows v x xs good e =
      let (r, ys, page, first) = chunk_at D mb.b v.c x xs good.readable e in
      (ys, rw (good.same, page) first)

  view_cursor-remains :
      (v : MultibytesView D) (x : ℕ) (xs : List ℕ)
      → IsReading v
      → behind v ≡ x ∷ xs
      → 0 < View.remaining D v
  unfolding View.remaining
  view_cursor-remains v x xs good e =
      rw good.same
        (omega (arith, remaining-unread D L mb v.c (omega arith), ap (λ (l : List ℕ). length l) e))

  view_cursor-advance :
      (v : MultibytesView D) (x : ℕ) (xs : List ℕ)
      → IsReading v
      → behind v ≡ x ∷ xs
      → (behind (View.advance D v 1) ≡ xs) × IsReading (View.advance D v 1)
  unfolding View.advance
  view_cursor-advance v x xs good e =
      let (readable, rest, _) = advance_one D L mb small v.c good.readable x xs e in
      (rw good.same rest, record { same = good.same; readable = rw good.same readable })

  pub view_cursor-Reads : Reads (view_cursor M D) behind IsReading
  unfolding View.has_atleast
  view_cursor-Reads = record {
    atleast_one = λ v good. rw good.same (has_atleast_one D L mb small v.c good.readable);
    reads_byte = λ v x xs good e.
        let (ys, shows) = view_cursor-shows v x xs good e in
        let (rest, good') = view_cursor-advance v x xs good e in
        (
          View.advance D v 1,
          doc.get_u8_returns (MultibytesView D) (View.remaining D) (View.bytes D) (View.advance D) v
              x ys (view_cursor-remains v x xs good e) shows,
          rest,
          good',
        );
  }

  -- An owned view of `mb` with a readable cursor.
  pub record IsReadingIndexed (v : IndexedMultibytes D) : Type 0 where
    pub same : v.b ≡ mb
    pub readable : IsReadable D mb.b v.c

  abbrev pub behind_indexed : IndexedMultibytes D → List ℕ
  behind_indexed v = unread D mb.b v.c

  indexed_cursor-shows :
      (v : IndexedMultibytes D) (x : ℕ) (xs : List ℕ)
      → IsReadingIndexed v
      → behind_indexed v ≡ x ∷ xs
      → (ys : List ℕ) × (Indexed.bytes D v ≡ some (x ∷ ys))
  unfolding Indexed.bytes
  indexed_cursor-shows v x xs good e =
      let (r, ys, page, first) = chunk_at D mb.b v.c x xs good.readable e in
      (ys, rw (good.same, page) first)

  indexed_cursor-remains :
      (v : IndexedMultibytes D) (x : ℕ) (xs : List ℕ)
      → IsReadingIndexed v
      → behind_indexed v ≡ x ∷ xs
      → 0 < Indexed.remaining D v
  unfolding Indexed.remaining
  indexed_cursor-remains v x xs good e =
      rw good.same
        (omega (arith, remaining-unread D L mb v.c (omega arith), ap (λ (l : List ℕ). length l) e))

  indexed_cursor-advance :
      (v : IndexedMultibytes D) (x : ℕ) (xs : List ℕ)
      → IsReadingIndexed v
      → behind_indexed v ≡ x ∷ xs
      → (behind_indexed (Indexed.advance D v 1) ≡ xs) × IsReadingIndexed (Indexed.advance D v 1)
  unfolding Indexed.advance
  indexed_cursor-advance v x xs good e =
      let (readable, rest, _) = advance_one D L mb small v.c good.readable x xs e in
      (rw good.same rest, record { same = good.same; readable = rw good.same readable })

  pub indexed_cursor-Reads : Reads (indexed_cursor M D) behind_indexed IsReadingIndexed
  unfolding Indexed.has_atleast
  indexed_cursor-Reads = record {
    atleast_one = λ v good. rw good.same (has_atleast_one D L mb small v.c good.readable);
    reads_byte = λ v x xs good e.
        let (ys, shows) = indexed_cursor-shows v x xs good e in
        let (rest, good') = indexed_cursor-advance v x xs good e in
        (
          Indexed.advance D v 1,
          doc.get_u8_returns (IndexedMultibytes D) (Indexed.remaining D) (Indexed.bytes D)
              (Indexed.advance D) v x ys (indexed_cursor-remains v x xs good e) shows,
          rest,
          good',
        );
  }
