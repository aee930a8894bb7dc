-- ===== src/Framer/Push.antt =====
-- `new` and `push_buffer`, and what later calls of `frame` make of the bytes that were pushed.
use blockrouter.Prelude.{ℕ, ◌+◌, ◌<◌, ◌^◌, ◌≡◌, ◌≢◌, refl, ap, ◌∙◌, arith}
use blockrouter.Prelude.{List, [], ◌∷◌, ◌++◌, length}
use blockrouter.Prelude.{All-append, append-nil, length-append}
use blockrouter.DirectBuf.{DirectBuf}
use blockrouter.Cursor
use blockrouter.Cursor.{Cursor}
use blockrouter.Cursor.Position.{flat, flat-append, before-append}
use blockrouter.Cursor.Front.{IsTrued-append}
use blockrouter.Cursor.Split.{IsNonEmpty}
use blockrouter.Parser.Scan.{short, scan, scan-append, append_rest}
use blockrouter.Parser.Decode.{IsBytes}
use blockrouter.Framer.{
  Framer, FramerState, TailingDataState, new, push_buffer, waiting_for_tailing_data,
}
use blockrouter.Framer.Refines.{IsValid, IsAwaiting, IsStateOf, stream}

module _ (D : DirectBuf) where
  pub new-IsValid : (max : ℕ) → IsValid D (new D max) × (stream D (new D max) ≡ [])
  unfolding new Cursor.new
  new-IsValid max =
      (record { no_empty_page = tt; bytes = tt; small = omega arith; state = tt }, refl)

  -- The bytes that are pushed stand behind those of the ring.
  pub stream-push_buffer :
      (f : Framer D) (b : D.T) → stream D (push_buffer D f b) ≡ stream D f ++ D.bytes b
  unfolding push_buffer Cursor.append
  stream-push_buffer f b =
      flat-append D f.ring.b (b ∷ []) ∙ ap (λ r. stream D f ++ r) (append-nil (D.bytes b))

  IsAwaiting-append :
      (max : ℕ) (pages : List D.T) (b : D.T) (st : TailingDataState)
      → IsNonEmpty D b
      → IsAwaiting D max pages st
      → IsAwaiting D max (pages ++ b ∷ []) st
  IsAwaiting-append max pages b st some_bytes a =
      let more = D.bytes b ++ [] in
      let decided : scan 5 (flat D pages) ≢ short = λ e. cc (a.header) in
      record {
        gs = a.gs;
        rest = a.rest ++ more;
        header =
            ap (scan 5) (flat-append D pages (b ∷ []))
            ∙ scan-append 5 (flat D pages) more decided
            ∙ ap (append_rest more) a.header;
        positive = a.positive;
        within_limit = a.within_limit;
        starts =
            ap (λ n. n + st.data_start.i)
              (before-append D pages (b ∷ []) st.data_start.of
                (omega (arith, a.start_page, a.end_page)))
            ∙ a.starts;
        aligned = IsTrued-append D pages b st.data_start some_bytes a.aligned;
        ends =
            ap (λ n. n + st.data_end.i) (before-append D pages (b ∷ []) st.data_end.of a.end_page)
            ∙ a.ends;
        start_page = a.start_page;
        end_page = omega (arith, a.end_page, length-append pages (b ∷ []));
      }

  IsStateOf-append :
      (max : ℕ) (pages : List D.T) (b : D.T) (s : FramerState)
      → IsNonEmpty D b
      → IsStateOf D max pages s
      → IsStateOf D max (pages ++ b ∷ []) s
  IsStateOf-append max pages b FramerState.waiting_for_header some_bytes h = tt
  IsStateOf-append max pages b (waiting_for_tailing_data st) some_bytes h =
      IsAwaiting-append max pages b st some_bytes h

  -- `push_buffer` of a buffer that holds some bytes, while less than 2 ^ 63 bytes wait in the ring,
  -- keeps a valid framer valid, in any state.
  pub push_buffer-IsValid :
      (f : Framer D) (b : D.T)
      → IsValid D f
      → IsNonEmpty D b
      → IsBytes (D.bytes b)
      → length (stream D f) + length (D.bytes b) < 2 ^ 63
      → IsValid D (push_buffer D f b)
  unfolding push_buffer Cursor.append
  push_buffer-IsValid f b v some_bytes bytes room =
      let joined =
        flat-append D f.ring.b (b ∷ []) ∙ ap (λ r. stream D f ++ r) (append-nil (D.bytes b)) in
      record {
        no_empty_page =
            All-append (IsNonEmpty D) f.ring.b (b ∷ []) v.no_empty_page (some_bytes, tt);
        bytes = rw joined (All-append (λ x. x < 256) (stream D f) (D.bytes b) v.bytes bytes);
        small = rw joined (omega (arith, length-append (stream D f) (D.bytes b)));
        state = IsStateOf-append f.max_frame_size f.ring.b b f.state some_bytes v.state;
      }
