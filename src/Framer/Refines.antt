-- ===== src/Framer/Refines.antt =====
-- src/framer.rs: `frame` against the answer that the bytes of its ring demand.
use blockrouter.Prelude.{ℕ, ◌+◌, ◌-◌, ◌≤◌, ◌<◌, ◌^◌, ◌≡◌, refl, ap, ◌∙◌, arith}
use blockrouter.Prelude.{Bool, true, false, inl, inr, some, List, length, drop, take}
use blockrouter.Prelude.{All, All-drop, length-drop, leb, ltb, if◌then◌else◌}
use blockrouter.DirectBuf.{DirectBuf, IsLawful}
use blockrouter.Cursor
use blockrouter.Cursor.{Cursor, Multibytes}
use blockrouter.Cursor.Position.{flat, offset, before_same, IsTrued}
use blockrouter.Cursor.TrueUp.{TruesUp}
use blockrouter.Cursor.Measure.{run_off_end-offset}
use blockrouter.Cursor.Front.{front-IsTrued}
use blockrouter.Cursor.Split.{IsNonEmpty, split_to_parts}
use blockrouter.Parser.Scan.{done, scan, scan-IsHeader}
use blockrouter.Parser.Decode.{IsBytes}
use blockrouter.Framer.{
  Frame, Framer, FramerState, TailingDataState, FrameError, FrameResult, ok, err,
}
use blockrouter.Framer.{
  waiting_for_data, decode_error, waiting_for_tailing_data, cut_frame, cut_or_wait,
}
use blockrouter.Framer.Stream.{
  Answer, whole, need_header, need_data, refused, declared_length, answer,
}

module _ (D : DirectBuf) where
  -- A header was read: where its groups end, and where the frame that it declares ends.
  pub record IsAwaiting (max_frame_size : ℕ) (pages : List D.T) (st : TailingDataState)
      : Type 0 where
    pub gs : List ℕ
    pub rest : List ℕ
    pub header : scan 5 (flat D pages) ≡ done gs rest
    pub positive : declared_length gs < 2 ^ 31
    pub within_limit : declared_length gs ≤ max_frame_size
    pub starts : offset D pages st.data_start ≡ length gs
    pub ends : offset D pages st.data_end ≡ length gs + declared_length gs
    pub aligned : IsTrued D pages st.data_start
    pub start_page : st.data_start.of ≤ st.data_end.of
    pub end_page : st.data_end.of ≤ length pages

  abbrev pub IsStateOf : ℕ → List D.T → FramerState → Type 0
  IsStateOf max pages FramerState.waiting_for_header = Unit
  IsStateOf max pages (waiting_for_tailing_data st) = IsAwaiting max pages st

  pub record IsValid (f : Framer D) : Type 0 where
    pub no_empty_page : All (IsNonEmpty D) f.ring.b
    pub bytes : IsBytes (flat D f.ring.b)
    pub small : length (flat D f.ring.b) < 2 ^ 63
    pub state : IsStateOf f.max_frame_size f.ring.b f.state

  abbrev pub stream : Framer D → List ℕ
  stream f = flat D f.ring.b

  -- A frame of `h` bytes of header and `len` bytes of data was cut off the stream.
  pub record IsCut (before after : List ℕ) (h len : ℕ) (r : FrameResult D) : Type 0 where
    pub frame : Frame D
    pub returned : r ≡ ok frame
    pub packet : flat D frame.packet.b ≡ take (h + len) before
    pub left : after ≡ drop (h + len) before
    pub data_at : offset D frame.packet.b frame.data_start ≡ h
    pub no_empty : All (IsNonEmpty D) frame.packet.b
    pub data_trued : 0 < len → IsTrued D frame.packet.b frame.data_start

  abbrev pub Gives : Answer → List ℕ → List ℕ → FrameResult D → Type 0
  Gives (whole h len) before after r = IsCut before after h len r
  Gives need_header before after r = (r ≡ err FrameError.waiting_for_header) × (after ≡ before)
  Gives (need_data n) before after r = (r ≡ err (waiting_for_data n)) × (after ≡ before)
  Gives refused before after r = (r ≡ err decode_error) × (after ≡ before)

  -- What a call of `frame` owes: the answer that the stream demands, and a valid framer.
  pub record Serves (f : Framer D) (out : Framer D × FrameResult D) : Type 0 where
    pub gives : Gives (answer f.max_frame_size (stream f)) (stream f) (stream out.0) out.1
    pub valid : IsValid out.0
    pub same_limit : out.0.max_frame_size ≡ f.max_frame_size

  module _ (L : IsLawful D) where
    -- After the header the answer turns on whether the data is there.
    answer-IsAwaiting :
        (max : ℕ) (pages : List D.T) (st : TailingDataState) (a : IsAwaiting max pages st)
        → answer max (flat D pages) ≡ (
            if leb (declared_length a.gs) (length a.rest)
            then whole (length a.gs) (declared_length a.gs)
            else need_data (declared_length a.gs - length a.rest))
    unfolding answer
    answer-IsAwaiting max pages st a =
        let low : leb (2 ^ 31) (declared_length a.gs) ≡ false = ground (arith, a.positive) in
        let fits : ltb max (declared_length a.gs) ≡ false = ground (arith, a.within_limit) in
        rw (a.header, low, fits)

    cut_or_wait_cut :
        (f : Framer D) (start c' : Cursor) {front back : Multibytes D}
        → Cursor.split_to D f.ring c' ≡ some (front, back)
        → cut_or_wait D f start (c', true) ≡ (
          record f { ring = back; state = FramerState.waiting_for_header },
          ok (record { packet = front; data_start = start }),
        )
    unfolding cut_or_wait cut_frame
    cut_or_wait_cut f start c' ran = rw (ran, cut_frame, cut_or_wait)

    module _ (f : Framer D) (st : TailingDataState) (c' : Cursor) (v : IsValid f)
        (a : IsAwaiting f.max_frame_size f.ring.b st) where
      open a use {gs, rest}

      total : length (stream f) ≡ length gs + length rest
      total = (scan-IsHeader 5 (stream f) a.header).size

      wait-Serves :
          TruesUp D f.ring.b st.data_end (c', false)
          → Serves f (cut_or_wait D f st.data_start (c', false))
      unfolding cut_or_wait
      wait-Serves up =
          let over : leb (declared_length gs) (length rest) ≡ false =
            ground (arith, up.answer, total, a.ends) in
          let last : c'.of ≡ length f.ring.b = elim up.settled [
            | inl (t, _) ↦ cc
            | inr (_, e) ↦ e
          ] in
          let missing : Cursor.run_off_end D c' f.ring ≡ declared_length gs - length rest =
            run_off_end-offset D L f.ring c' (inr last)
            ∙ omega (arith, total, a.ends, up.same_offset) in
          record {
            gives =
                rw (answer-IsAwaiting f.max_frame_size f.ring.b st a, over)
                  (ap (λ n. err (waiting_for_data n)) missing, refl);
            valid = record {
              no_empty_page = v.no_empty_page;
              bytes = v.bytes;
              small = v.small;
              state = record {
                gs = gs;
                rest = rest;
                header = a.header;
                positive = a.positive;
                within_limit = a.within_limit;
                starts = a.starts;
                aligned = a.aligned;
                ends = up.same_offset ∙ a.ends;
                start_page = omega (arith, a.start_page, up.forward);
                end_page = up.inside;
              };
            };
            same_limit = refl;
          }

      cut-Serves :
          TruesUp D f.ring.b st.data_end (c', true)
          → Serves f (cut_or_wait D f st.data_start (c', true))
      cut-Serves up =
          let here : leb (declared_length gs) (length rest) ≡ true =
            ground (arith, up.answer, total, a.ends) in
          let trued : IsTrued D f.ring.b c' = elim up.settled [
            | inl (_, t) ↦ t
            | inr (e, _) ↦ cc
          ] in
          let (front, back, ran, parts, keeps) = split_to_parts D L f.ring c' trued up.inside in
          let at : offset D f.ring.b c' ≡ length gs + declared_length gs =
            up.same_offset ∙ a.ends in
          let start : offset D front.b st.data_start ≡ length gs =
            ap (λ n. n + st.data_start.i)
              (before_same D front.b f.ring.b c'.of st.data_start.of parts.whole_pages
                (omega (arith, a.start_page, up.forward)))
            ∙ a.starts in
          let left : flat D back.b ≡ drop (length gs + declared_length gs) (stream f) =
            rw at at parts.back_bytes in
          rw (cut_or_wait_cut f st.data_start c' ran) (record {
            gives =
                rw (answer-IsAwaiting f.max_frame_size f.ring.b st a, here)
                  (record {
                    frame = record { packet = front; data_start = st.data_start };
                    returned = refl;
                    packet = rw at at parts.front_bytes;
                    left = left;
                    data_at = start;
                    no_empty = (keeps v.no_empty_page).0;
                    data_trued = λ some_data.
                        front-IsTrued D f.ring.b front.b back.b st.data_start c' parts
                          (omega (arith, a.start_page, up.forward)) up.inside
                          (ground (arith, up.answer, up.same_offset)) (omega (arith, at, a.starts))
                          a.aligned;
                  });
            valid = record {
              no_empty_page = (keeps v.no_empty_page).1;
              bytes =
                  rw left
                    (All-drop (λ x. x < 256) (length gs + declared_length gs) (stream f) v.bytes);
              small =
                  rw left (
                    omega
                      (arith, v.small, length-drop (length gs + declared_length gs) (stream f)));
              state = tt;
            };
            same_limit = refl;
          })

    pub cut_or_wait-Serves :
        (f : Framer D) (st : TailingDataState) (r : Cursor × Bool)
        → IsValid f
        → IsAwaiting f.max_frame_size f.ring.b st
        → TruesUp D f.ring.b st.data_end r
        → Serves f (cut_or_wait D f st.data_start r)
    cut_or_wait-Serves f st (c', false) v a up = wait-Serves f st c' v a up
    cut_or_wait-Serves f st (c', true) v a up = cut-Serves f st c' v a up
