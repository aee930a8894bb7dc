-- ===== src/Framer/Session.antt =====
-- Calls of `frame` and `push_buffer` one after the other.
use blockrouter.Prelude.{ℕ, ◌+◌, ◌≤◌, ◌<◌, ◌^◌, ◌≡◌, refl, sym, ap, ap₂, ◌∙◌, arith}
use blockrouter.Prelude.{List, [], ◌++◌, length}
use blockrouter.Prelude.{length-append, take, drop, drop_all, take_all}
use blockrouter.Buf.{BufMethods, IsDocumented}
use blockrouter.DirectBuf.{DirectBuf, IsLawful}
use blockrouter.Cursor.Position.{flat, offset}
use blockrouter.Cursor.Split.{IsNonEmpty}
use blockrouter.Parser.Scan.{Scan, done, short, long, scan, scan-append, scan-IsHeader}
use blockrouter.Parser.Decode.{IsBytes}
use blockrouter.Framer.{Frame, Framer, FrameError, FrameResult, ok, err, panicked, stuck, frame}
use blockrouter.Framer.{push_buffer, waiting_for_data, decode_error}
use blockrouter.Framer.Stream.{Answer, answer, answer_scan, whole, need_header, need_data, refused}
use blockrouter.Framer.Stream.{declared_length}
use blockrouter.Framer.Refines.{IsValid, IsCut, Gives, stream}
use blockrouter.Framer.Header.{frame-Serves}
use blockrouter.Framer.Push.{push_buffer-IsValid, stream-push_buffer}

-- What the answers become when more bytes arrive.
refused-append :
    (max : ℕ) (bs more : List ℕ) → answer max bs ≡ refused → answer max (bs ++ more) ≡ refused
unfolding answer
refused-append max bs more e = go (scan 5 bs) refl
  where
    go : (s : Scan) → scan 5 bs ≡ s → answer max (bs ++ more) ≡ refused
    go short t = absurd (cc (rw t at e))
    go long t = rw (scan-append 5 bs more (λ f. cc (t, f)), t)
    go (done gs rest) t =
        rw (scan-append 5 bs more (λ f. cc (t, f)), t)
          (let e' : answer_scan max (done gs rest) ≡ refused = rw t at e in ground arith)

need_data-append :
    (max : ℕ) (bs more : List ℕ) (n : ℕ)
    → answer max bs ≡ need_data n
    → length more ≡ n
    → (h : ℕ) × (len : ℕ) × (answer max (bs ++ more) ≡ whole h len) × (h + len ≡ length bs + n)
unfolding answer
need_data-append max bs more n e size = go (scan 5 bs) refl
  where
    go :
        (s : Scan)
        → scan 5 bs ≡ s
        → (h : ℕ) × (len : ℕ) × (answer max (bs ++ more) ≡ whole h len) × (h + len ≡ length bs + n)
    go short t = absurd (cc (rw t at e))
    go long t = absurd (cc (rw t at e))
    go (done gs rest) t =
        let e' : answer_scan max (done gs rest) ≡ need_data n = rw t at e in
        let len = declared_length gs in
        (
          length gs,
          len,
          rw (scan-append 5 bs more (λ f. cc (t, f)), t)
              (ground (arith, e', size, length-append rest more)),
          ground (arith, e', (scan-IsHeader 5 bs t).size),
        )

module _ (D : DirectBuf) where
  -- What a caller sees of a result: of a frame its bytes, and where in them the data starts.
  pub data Seen : Type 0 where
    frame_of : List ℕ → ℕ → Seen
    error_of : FrameError → Seen
    nothing : Seen

  unfoldable pub seen : FrameResult D → Seen
  seen (ok p) = frame_of (flat D p.packet.b) (offset D p.packet.b p.data_start)
  seen (err e) = error_of e
  seen panicked = nothing
  seen stuck = nothing

  seen_err : {r : FrameResult D} {e : FrameError} → r ≡ err e → seen r ≡ error_of e
  unfolding seen
  seen_err h = rw h

  -- What the answer makes a caller see, and what is left of the stream.
  abbrev shows : Answer → List ℕ → Seen
  shows (whole h len) bs = frame_of (take (h + len) bs) h
  shows need_header bs = error_of FrameError.waiting_for_header
  shows (need_data n) bs = error_of (waiting_for_data n)
  shows refused bs = error_of decode_error

  abbrev leaves : Answer → List ℕ → List ℕ
  leaves (whole h len) bs = drop (h + len) bs
  leaves need_header bs = bs
  leaves (need_data n) bs = bs
  leaves refused bs = bs

  Gives-shows :
      (a : Answer) (before after : List ℕ) (r : FrameResult D)
      → Gives D a before after r
      → (seen r ≡ shows a before) × (after ≡ leaves a before)
  unfolding seen
  Gives-shows (whole h len) before after r c =
      (rw c.returned (ap₂ frame_of c.packet c.data_at), c.left)
  Gives-shows need_header before after r (e, same) = (rw e, same)
  Gives-shows (need_data n) before after r (e, same) = (rw e, same)
  Gives-shows refused before after r (e, same) = (rw e, same)

  shows-need_data :
      (a : Answer) (bs : List ℕ) (n : ℕ)
      → shows a bs ≡ error_of (waiting_for_data n)
      → a ≡ need_data n
  shows-need_data (whole h len) bs n e = cc
  shows-need_data need_header bs n e = cc
  shows-need_data (need_data m) bs n e = cc
  shows-need_data refused bs n e = cc

  shows-refused : (a : Answer) (bs : List ℕ) → shows a bs ≡ error_of decode_error → a ≡ refused
  shows-refused (whole h len) bs e = cc
  shows-refused need_header bs e = cc
  shows-refused (need_data m) bs e = cc
  shows-refused refused bs e = refl

  Gives-whole :
      (a : Answer) (before after : List ℕ) (r : FrameResult D) (h len : ℕ)
      → Gives D a before after r
      → a ≡ whole h len
      → IsCut D before after h len r
  Gives-whole a before after r h len g e = rw e at g

  Gives-refused :
      (a : Answer) (before after : List ℕ) (r : FrameResult D)
      → Gives D a before after r
      → a ≡ refused
      → r ≡ err decode_error
  Gives-refused a before after r g e = let (out, _) = rw e at g in out

  module _ (M : BufMethods) (doc : IsDocumented M) (L : IsLawful D) where
    frame_shows :
        (f : Framer D)
        → IsValid D f
        → let a = answer f.max_frame_size (stream D f) in
          (seen (frame D M f).1 ≡ shows a (stream D f))
          × (stream D (frame D M f).0 ≡ leaves a (stream D f))
    frame_shows f v =
        Gives-shows (answer f.max_frame_size (stream D f)) (stream D f) _ _
          (frame-Serves M doc D L f v).gives

    -- How the bytes were cut into buffers, and which state the framer is in, makes no difference:
    -- two valid framers with one limit and one stream show the same and leave the same stream.
    pub frame_partition :
        (f g : Framer D)
        → IsValid D f
        → IsValid D g
        → f.max_frame_size ≡ g.max_frame_size
        → stream D f ≡ stream D g
        → (seen (frame D M f).1 ≡ seen (frame D M g).1)
          × (stream D (frame D M f).0 ≡ stream D (frame D M g).0)
    frame_partition f g v w limit same =
        let (a, b) = frame_shows f v in
        let (c, d) = frame_shows g w in
        let both = ap₂ answer limit same in
        (a ∙ ap₂ shows both same ∙ sym c, b ∙ ap₂ leaves both same ∙ sym d)

    module _ (f : Framer D) (v : IsValid D f) (b : D.T) (bytes : IsBytes (D.bytes b))
        (some_bytes : IsNonEmpty D b)
        (room : length (stream D f) + length (D.bytes b) < 2 ^ 63) where
      abbrev pushed : Framer D
      pushed = push_buffer D (frame D M f).0 b

      pushed_after :
          stream D (frame D M f).0 ≡ stream D f
          → IsValid D pushed
            × (stream D pushed ≡ stream D f ++ D.bytes b)
            × (pushed.max_frame_size ≡ f.max_frame_size)
      unfolding push_buffer
      pushed_after same =
          let out = frame-Serves M doc D L f v in
          (
            push_buffer-IsValid D (frame D M f).0 b out.valid some_bytes bytes (rw same room),
            stream-push_buffer D (frame D M f).0 b ∙ ap (λ s. s ++ D.bytes b) same,
            out.same_limit,
          )

      -- `WaitingForData(n)` of a valid framer tells exactly what is missing: after a push of a buffer
      -- of `n` more bytes, with less than 2 ^ 63 bytes in the ring, the next call returns a frame of all
      -- bytes so far, and nothing is left over.
      pub frame_completes :
          (n : ℕ)
          → (frame D M f).1 ≡ err (waiting_for_data n)
          → length (D.bytes b) ≡ n
          → (p : Frame D) × ((frame D M pushed).1 ≡ ok p)
            × (flat D p.packet.b ≡ stream D f ++ D.bytes b)
            × (stream D (frame D M pushed).0 ≡ [])
      frame_completes n asked size =
          let max = f.max_frame_size in
          let (shown, left) = frame_shows f v in
          let told =
            shows-need_data (answer max (stream D f)) (stream D f) n (sym shown ∙ seen_err asked) in
          let (valid, joined, limit) = pushed_after (left ∙ ap (λ a. leaves a (stream D f)) told) in
          let (h, len, now, all) = need_data-append max (stream D f) (D.bytes b) n told size in
          let whole_now = ap₂ answer limit joined ∙ now in
          let cut =
            Gives-whole _ _ _ _ h len (frame-Serves M doc D L pushed valid).gives whole_now in
          let enough : length (stream D pushed) ≤ h + len =
            rw joined (omega (arith, length-append (stream D f) (D.bytes b))) in
          (
            cut.frame,
            cut.returned,
            cut.packet ∙ take_all (h + len) (stream D pushed) enough ∙ joined,
            cut.left ∙ drop_all (h + len) (stream D pushed) enough,
          )

      -- After `DecodeError` of a valid framer and a push of a nonempty buffer, with less than 2 ^ 63 bytes
      -- in the ring, the next call answers `DecodeError` again.
      pub frame_refuses_again :
          (frame D M f).1 ≡ err decode_error → (frame D M pushed).1 ≡ err decode_error
      frame_refuses_again bad =
          let max = f.max_frame_size in
          let (shown, left) = frame_shows f v in
          let told =
            shows-refused (answer max (stream D f)) (stream D f) (sym shown ∙ seen_err bad) in
          let (valid, joined, limit) = pushed_after (left ∙ ap (λ a. leaves a (stream D f)) told) in
          Gives-refused _ _ _ _ (frame-Serves M doc D L pushed valid).gives
            (ap₂ answer limit joined ∙ refused-append max (stream D f) (D.bytes b) told)
