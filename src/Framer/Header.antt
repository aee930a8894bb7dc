-- ===== src/Framer/Header.antt =====
-- The branch of `frame` that reads a header, and the whole of `frame`.
use blockrouter.Prelude.{ℕ, ◌+◌, ◌≤◌, ◌<◌, ◌^◌, ◌≡◌, refl, ap, arith, ◌%◌}
use blockrouter.Prelude.{false, inl, inr, Bool-cases, List, [], ◌∷◌, length}
use blockrouter.Prelude.{All, leb, ltb, ◌||◌}
use blockrouter.Prelude.Signed.{i32_as_usize, to_i32, ltb_ℤ, pos}
use blockrouter.Buf.{BufMethods, IsDocumented}
use blockrouter.DirectBuf.{DirectBuf, IsLawful}
use blockrouter.Cursor
use blockrouter.Cursor.{Cursor, Multibytes}
use blockrouter.Cursor.Position.{offset}
use blockrouter.Cursor.TrueUp.{true_up-TruesUp, advance-TruesUp}
use blockrouter.Cursor.Split.{IsNonEmpty}
use blockrouter.Cursor.Read.{IsReadable, length-unread}
use blockrouter.Cursor.View
use blockrouter.Cursor.View.{MultibytesView}
use blockrouter.Parser.{ParseResult, varint}
use blockrouter.Parser.Scan.{Scan, done, short, long, scan, value, scan-IsHeader}
use blockrouter.Parser.Decode.{Outcome, varint-Outcome}
use blockrouter.Readers.{view_cursor}
use blockrouter.Readers.Reads.{IsReading, behind, view_cursor-Reads}
use blockrouter.Framer.{Framer, FramerState, TailingDataState}
use blockrouter.Framer.{waiting_for_tailing_data, after_header, frame, frame_in, cut_or_wait}
use blockrouter.Framer.Stream.{declared_length, answer}
use blockrouter.Framer.Refines.{IsValid, IsAwaiting, Serves, stream, cut_or_wait-Serves}

-- The test of the source on the `i32` that was read.
length_test :
    (max len : ℕ)
    → len < 2 ^ 32
    → (ltb_ℤ (to_i32 len) (pos 0) || ltb max (i32_as_usize len)) ≡ (leb (2 ^ 31) len || ltb max len)
length_test max len h = ground arith

module _ (M : BufMethods) (doc : IsDocumented M) (D : DirectBuf) (L : IsLawful D) where
  -- With no empty page in front, the view of the ring can be read from its start.
  start-IsReadable :
      (pages : List D.T) → All (IsNonEmpty D) pages → IsReadable D pages (record { of = 0; i = 0 })
  start-IsReadable [] h = record {
    inside = omega arith;
    within = omega arith;
    aligned = (refl, refl);
  }
  start-IsReadable (p ∷ pages) h = record {
    inside = omega arith;
    within = omega arith;
    aligned = h.0;
  }

  module _ (f : Framer D) (v : IsValid D f) where
    abbrev Parsed : Scan → ParseResult (MultibytesView D) → Type 0
    Parsed =
        Outcome (view_cursor M D) (behind M doc D L f.ring v.small)
          (IsReading M doc D L f.ring v.small) 32 (λ gs. value gs % 2 ^ 32)

    -- A header whose length is accepted.
    accepted :
        (gs rest : List ℕ) (b' : MultibytesView D)
        → scan 5 (stream D f) ≡ done gs rest
        → (leb (2 ^ 31) (declared_length gs) || ltb f.max_frame_size (declared_length gs)) ≡ false
        → IsReading M doc D L f.ring v.small b'
        → behind M doc D L f.ring v.small b' ≡ rest
        → Serves D f (
            cut_or_wait D f b'.c (Cursor.advance D b'.c f.ring (i32_as_usize (declared_length gs))))
    accepted gs rest b' e fits good left =
        let len = declared_length gs in
        let c = b'.c in
        let head = scan-IsHeader 5 (stream D f) e in
        let nonneg : len < 2 ^ 31 = ground arith in
        let limit : len ≤ f.max_frame_size = ground arith in
        let cast : i32_as_usize len ≡ len = ground arith in
        let starts : offset D f.ring.b c ≡ length gs = omega (
          arith,
          length-unread D f.ring.b c,
          ap (λ (l : List ℕ). length l) left,
          head.size,
          good.readable.within,
        ) in
        let st : TailingDataState = record {
          data_start = c;
          data_end = record c { i = c.i + len };
        } in
        rw cast (
          cut_or_wait-Serves D L f st (Cursor.advance D c f.ring len) v
            (record {
              gs = gs;
              rest = rest;
              header = e;
              positive = nonneg;
              within_limit = limit;
              starts = starts;
              aligned = good.readable.aligned;
              ends = omega (arith, starts);
              start_page = omega arith;
              end_page = good.readable.inside;
            })
            (advance-TruesUp D L f.ring c len good.readable.inside
              (omega (arith, good.readable.within, v.small))))

    after_header-Serves :
        (s : Scan) (r : ParseResult (MultibytesView D))
        → scan 5 (stream D f) ≡ s
        → Parsed s r
        → Serves D f (after_header D f r)
    unfolding after_header answer
    after_header-Serves short r e parsed =
        rw parsed (record { gives = rw e (refl, refl); valid = v; same_limit = refl })
    after_header-Serves long r e parsed =
        rw parsed (record { gives = rw e (refl, refl); valid = v; same_limit = refl })
    after_header-Serves (done gs rest) r e (b', parsed, left, good) =
        let len = declared_length gs in
        let same = length_test f.max_frame_size len (omega arith) in
        rw (parsed, same)
          (elim (Bool-cases (leb (2 ^ 31) len || ltb f.max_frame_size len)) [
            | inl no_good ↦
                rw no_good
                  (record { gives = rw (e, no_good) (refl, refl); valid = v; same_limit = refl })
            | inr fits ↦ rw fits (unfold View.cursor in accepted gs rest b' e fits good left)
          ])

    header-Parsed : Parsed (scan 5 (stream D f)) (varint (view_cursor M D) (View.view D f.ring))
    unfolding View.view Cursor.cursor
    header-Parsed =
        varint-Outcome (view_cursor M D) (behind M doc D L f.ring v.small)
          (IsReading M doc D L f.ring v.small) (view_cursor-Reads M doc D L f.ring v.small)
          (View.view D f.ring)
          (record { same = refl; readable = start-IsReadable f.ring.b v.no_empty_page }) v.bytes

  -- On a valid framer `frame` returns, never panics, and gives the answer that the bytes of the
  -- ring demand: a frame with its header and data cut off the front, the bytes that are missing,
  -- or an error. It keeps the framer valid.
  pub frame-Serves : (f : Framer D) → IsValid D f → Serves D f (frame D M f)
  unfolding frame
  frame-Serves f v = in_state f.state refl
    where
      in_state : (s : FramerState) → f.state ≡ s → Serves D f (frame_in D M s f)
      in_state FramerState.waiting_for_header e =
          after_header-Serves f v (scan 5 (stream D f)) _ refl (header-Parsed f v)
      in_state (waiting_for_tailing_data st) e =
          let a : IsAwaiting D f.max_frame_size f.ring.b st = rw e at v.state in
          cut_or_wait-Serves D L f st (Cursor.true_up D st.data_end f.ring) v a
            (true_up-TruesUp D L f.ring st.data_end a.end_page)
