-- ===== src/Socket.antt =====
-- src/socket.rs: the two halves of a connection. The halves of the stream are tokio's, and what
-- `read_buf` and `write_buf` do is a parameter.
pub mod Writing
pub mod Reading
mod Tests
use blockrouter.Prelude.{ℕ, zero, suc, Option, none, some, ◌⊎◌, inl, inr, ◌==◌, ltb, if◌then◌else◌}
use blockrouter.DirectBuf.{DirectBuf}

-- `AsyncWriteExt::write_buf` on a half of a stream: the half and the buffer afterwards, and the error
-- or the number of bytes written.
pub record WriteHalf (B : Type 0) : Type 1 where
  pub W : Type 0
  pub E : Type 0
  pub write_buf : W → B → W × (B × (E ⊎ ℕ))

-- `AsyncReadExt::read_buf`, likewise.
pub record ReadHalf (B : Type 0) : Type 1 where
  pub R : Type 0
  pub E : Type 0
  pub read_buf : R → B → R × (B × (E ⊎ ℕ))

-- `io::Result<()>`, or the loop out of the model's fuel.
pub data Written (E : Type 0) : Type 0 where
  ok : Written E
  err : E → Written E
  spinning : Written E

pub data ReadResult (T : Type 0) : Type 0 where
  received : T → ReadResult T
  eof : ReadResult T

-- `io::Result<ReadResult<T>>`, or the panic of `truncate`.
pub data ReadOutcome (T E : Type 0) : Type 0 where
  read_ok : ReadResult T → ReadOutcome T E
  read_err : E → ReadOutcome T E
  panicked : ReadOutcome T E

module _ (B : Type 0) (remaining : B → ℕ) (H : WriteHalf B) where
  -- A round's write, and what follows it.
  unfoldable pub next_round :
      H.W × (B × (H.E ⊎ ℕ)) → H.W × (B × Written H.E) → H.W × (B × Written H.E)
  next_round (wh, (buf, inl e)) rest = (wh, (buf, err e))
  next_round (wh, (buf, inr amount)) rest = rest

  -- `ConnectionSink::write`; `has_remaining` is `remaining` above 0.
  unfoldable pub write : ℕ → H.W → B → H.W × (B × Written H.E)
  unfolding next_round
  write zero wh buf = (wh, (buf, spinning))
  write (suc fuel) wh buf =
      let run = H.write_buf wh buf in
      let rest = write fuel run.0 run.1.0 in
      if ltb 0 (remaining buf) then next_round run rest else (wh, (buf, ok))

module _ (D : DirectBuf) (H : ReadHalf D.T) where
  -- `buf.truncate(amount_read)`
  unfoldable pub cut_off : Option D.T → ReadOutcome D.T H.E
  cut_off none = panicked
  cut_off (some buf) = read_ok (received buf)

  unfoldable pub after_read : H.R × (D.T × (H.E ⊎ ℕ)) → H.R × ReadOutcome D.T H.E
  unfolding cut_off
  after_read (rh, (buf, inl e)) = (rh, read_err e)
  after_read (rh, (buf, inr amount_read)) =
      if amount_read == 0 then (rh, read_ok eof) else (rh, cut_off (D.truncate buf amount_read))

  -- `ConnectionSource::read`; the buffer is what `alloc.singlebuffer()` gives.
  unfoldable pub read : H.R → D.T → H.R × ReadOutcome D.T H.E
  unfolding after_read
  read rh buf = after_read (H.read_buf rh buf)
