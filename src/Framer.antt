-- ===== src/Framer.antt =====
-- src/framer.rs: `Framer`, which cuts the byte stream of its ring into length-prefixed frames.
pub mod Stream
pub mod Refines
pub mod Header
pub mod Push
pub mod Session
pub mod Wrapped
pub mod Receiver
pub mod Framed
mod Tests
use blockrouter.Prelude.{ℕ, ◌+◌, Bool, ◌||◌, Option, none, some, List, []}
use blockrouter.Prelude.{ltb, if◌then◌else◌}
use blockrouter.Prelude.Signed.{pos, ltb_ℤ, to_i32, i32_as_usize}
use blockrouter.Buf.{BufMethods}
use blockrouter.DirectBuf.{DirectBuf}
use blockrouter.Cursor
use blockrouter.Cursor.{Cursor, Multibytes}
use blockrouter.Cursor.View
use blockrouter.Cursor.View.{MultibytesView}
use blockrouter.Parser.{ParseResult, varint}
use blockrouter.Readers.{view_cursor}

pub record Frame (D : DirectBuf) : Type 0 where
  pub packet : Multibytes D
  pub data_start : Cursor

pub data FrameError : Type 0 where
  waiting_for_header : FrameError
  waiting_for_data : ℕ → FrameError
  decode_error : FrameError

pub record TailingDataState : Type 0 where
  pub data_start : Cursor
  pub data_end : Cursor

pub data FramerState : Type 0 where
  waiting_for_header : FramerState
  waiting_for_tailing_data : TailingDataState → FramerState

pub record Framer (D : DirectBuf) : Type 0 where
  pub max_frame_size : ℕ
  pub ring : Multibytes D
  pub state : FramerState

-- `Result<Frame, FrameError>`, and the ends of a call that are no result: a panic, and the model's
-- decoding loop out of fuel.
pub data FrameResult (D : DirectBuf) : Type 0 where
  ok : Frame D → FrameResult D
  err : FrameError → FrameResult D
  panicked : FrameResult D
  stuck : FrameResult D

module _ (D : DirectBuf) where
  -- The second argument of the source only reserves room.
  unfoldable pub new : ℕ → Framer D
  unfolding Cursor.new
  new max_frame_size = record {
    max_frame_size = max_frame_size;
    ring = Cursor.new D [];
    state = FramerState.waiting_for_header;
  }

  unfoldable pub push_buffer : Framer D → D.T → Framer D
  unfolding Cursor.append
  push_buffer f b = record f { ring = Cursor.append D f.ring b }

  -- `Ok(Frame { packet: self.ring.split_to(&data_end), data_start })`. The state is
  -- `WaitingForHeader` afterwards, in one branch since it is that already.
  unfoldable pub cut_frame : Framer D → Cursor → Cursor → Framer D × FrameResult D
  cut_frame f data_start data_end = elim (Cursor.split_to D f.ring data_end) [
    | none ↦ (f, panicked)
    | some (packet, rest) ↦ (
      record f { ring = rest; state = FramerState.waiting_for_header },
      ok (record { packet = packet; data_start = data_start }),
    )
  ]

  -- Both branches of `frame` end so, on the cursor and the answer of `advance` or `true_up`.
  unfoldable pub cut_or_wait : Framer D → Cursor → Cursor × Bool → Framer D × FrameResult D
  cut_or_wait f data_start (data_end, valid) = if valid then cut_frame f data_start data_end else (
    record f {
      state = waiting_for_tailing_data (record { data_start = data_start; data_end = data_end });
    },
    err (waiting_for_data (Cursor.run_off_end D data_end f.ring)),
  )

  unfoldable pub after_header : Framer D → ParseResult (MultibytesView D) → Framer D × FrameResult D
  after_header f (ParseResult.ok view len) =
      let data_start = View.cursor D view in
      if ltb_ℤ (to_i32 len) (pos 0) || ltb f.max_frame_size (i32_as_usize len)
      then (f, err decode_error)
      else cut_or_wait f data_start (Cursor.advance D data_start f.ring (i32_as_usize len))
  after_header f ParseResult.incomplete = (f, err FrameError.waiting_for_header)
  after_header f (ParseResult.error e) = (f, err decode_error)
  after_header f ParseResult.panicked = (f, panicked)
  after_header f ParseResult.stuck = (f, stuck)

  module _ (M : BufMethods) where
    unfoldable pub frame_in : FramerState → Framer D → Framer D × FrameResult D
    frame_in FramerState.waiting_for_header f =
        after_header f (varint (view_cursor M D) (View.view D f.ring))
    frame_in (waiting_for_tailing_data state) f =
        cut_or_wait f state.data_start (Cursor.true_up D state.data_end f.ring)

    unfoldable pub frame : Framer D → Framer D × FrameResult D
    unfolding frame_in
    frame f = frame_in f.state f
