-- ===== src/Framer/Stream.antt =====
-- What a framer owes for a stream of bytes, however the stream is cut into buffers.
use blockrouter.Prelude.{ℕ, ◌-◌, ◌%◌, ◌^◌, List, length, ltb, leb, ◌||◌, if◌then◌else◌}
use blockrouter.Parser.Scan.{Scan, done, short, long, scan, value}

-- A frame of a header of `h` bytes and `len` bytes of data; or more input is wanted, with the
-- number of bytes that are missing where the header tells; or the header is refused.
pub data Answer : Type 0 where
  whole : ℕ → ℕ → Answer
  need_header : Answer
  need_data : ℕ → Answer
  refused : Answer

abbrev pub declared_length : List ℕ → ℕ
declared_length gs = value gs % 2 ^ 32

module _ (max_frame_size : ℕ) where
  -- A declared length is refused if it is above the limit, or negative as an `i32`.
  abbrev pub answer_scan : Scan → Answer
  answer_scan short = need_header
  answer_scan long = refused
  answer_scan (done gs rest) =
      let len = declared_length gs in
      if leb (2 ^ 31) len || ltb max_frame_size len
      then refused
      else if leb len (length rest)
      then whole (length gs) len
      else need_data (len - length rest)

  unfoldable pub answer : List ℕ → Answer
  answer stream = answer_scan (scan 5 stream)
