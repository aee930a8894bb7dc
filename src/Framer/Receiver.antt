-- ===== src/Framer/Receiver.antt =====
-- A receiver in whose hands a `Framer` is: it pushes what the socket reads and calls `frame` when it
-- likes, and it takes the data out of every frame.
pub mod Owes
pub mod Pull
pub mod Delivers
use blockrouter.Prelude.{ℕ, zero, suc, Option, none, some, List, [], ◌∷◌, ◌++◌, drop, ◌>>=◌}
use blockrouter.Buf.{BufMethods}
use blockrouter.DirectBuf.{DirectBuf}
use blockrouter.Cursor.Position.{flat, offset}
use blockrouter.Cursor.Split.{IsNonEmpty}
use blockrouter.Parser.Decode.{IsBytes}
use blockrouter.Framer.{
  Framer, FrameError, FrameResult, ok, err, panicked, stuck, frame, push_buffer, waiting_for_data,
  decode_error,
}

module _ (D : DirectBuf) where
  pub data Event : Type 0 where
    push : D.T → Event
    pull : Event

  -- All bytes that are pushed.
  unfoldable pub pushed : List Event → List ℕ
  pushed [] = []
  pushed (push b ∷ es) = D.bytes b ++ pushed es
  pushed (pull ∷ es) = pushed es

  unfoldable pub pulls : ℕ → List Event
  pulls zero = []
  pulls (suc n) = pull ∷ pulls n

  -- The buffers that are pushed hold some bytes.
  unfoldable pub IsUsable : Event → Type 0
  IsUsable (push b) = IsNonEmpty D b × IsBytes (D.bytes b)
  IsUsable pull = Unit

  -- What the receiver takes from a result: the data of a frame, nothing while it waits; it gives up on a
  -- `DecodeError`, and on an end of the call that is no result.
  unfoldable pub taken : FrameResult D → Option (List (List ℕ))
  taken (ok p) = some (drop (offset D p.packet.b p.data_start) (flat D p.packet.b) ∷ [])
  taken (err FrameError.waiting_for_header) = some []
  taken (err (waiting_for_data n)) = some []
  taken (err decode_error) = none
  taken panicked = none
  taken stuck = none

  module _ (M : BufMethods) where
    unfoldable pub receive : List Event → Framer D → Option (Framer D × List (List ℕ))
    receive [] f = some (f, [])
    receive (push b ∷ es) f = receive es (push_buffer D f b)
    receive (pull ∷ es) f = do
      out ← taken (frame D M f).1
      (g, more) ← receive es (frame D M f).0
      some (g, out ++ more)
