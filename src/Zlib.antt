-- ===== src/Zlib.antt =====
-- src/zlib.rs: error codes, flush modes and the operators over the zlib library, and what the code
-- sees of a stream.
pub mod Codes
use blockrouter.Prelude.{
  ℕ, ◌+◌, ◌-◌, ◌⊎◌, inl, inr, Option, none, some, List, ◌++◌, length, take, drop, ◌==◌,
  if◌then◌else◌,
}
use blockrouter.Prelude.Signed.{ℤ, pos, negsuc}

pub data ZLibError : Type 0 where
  errno : ZLibError
  stream_error : ZLibError
  data_error : ZLibError
  mem_error : ZLibError
  buf_error : ZLibError
  version_error : ZLibError

unfoldable pub lookup : ℤ → Option ZLibError
lookup (pos n) = none
lookup (negsuc n) =
    if n == 0
    then some errno
    else if n == 1
    then some stream_error
    else if n == 2
    then some data_error
    else if n == 3
    then some mem_error
    else if n == 4
    then some buf_error
    else if n == 5
    then some version_error
    else none

-- `ZLibError as i32`
unfoldable pub code : ZLibError → ℤ
code errno = negsuc 0
code stream_error = negsuc 1
code data_error = negsuc 2
code mem_error = negsuc 3
code buf_error = negsuc 4
code version_error = negsuc 5

pub data FlushMode : Type 0 where
  no_flush : FlushMode
  partial_flush : FlushMode
  sync_flush : FlushMode
  full_flush : FlushMode
  finish : FlushMode
  block : FlushMode
  trees : FlushMode

-- Of `ZStream`: the bytes at `next_in`, the bytes written at `next_out`, and the two counts.
pub record ZStream : Type 0 where
  pub next_in : List ℕ
  pub avail_in : ℕ
  pub written : List ℕ
  pub avail_out : ℕ

-- One call of the library: its return value, how many bytes it read, the bytes it
-- wrote, and its state afterwards.
pub record Answer (S : Type 0) : Type 0 where
  pub returned : ℤ
  pub consumed : ℕ
  pub produced : List ℕ
  pub state : S

-- `reset`, and the call that `process` makes, on the bytes it may read and the count it may write.
pub record ZlibOperator : Type 1 where
  pub S : Type 0
  pub reset : S → S
  pub call : S → FlushMode → List ℕ → ℕ → Answer S

-- The zlib library on the internal state of a stream. Those of the functions that return a number
-- give it behind the state.
pub record Library : Type 1 where
  pub S : Type 0
  pub zeroed : S
  pub inflate_init : S → S × ℤ
  pub deflate_init : S → ℤ → S × ℤ
  pub inflate : S → FlushMode → List ℕ → ℕ → Answer S
  pub deflate : S → FlushMode → List ℕ → ℕ → Answer S
  pub inflate_reset : S → S
  pub deflate_reset : S → S

-- `Inflate` and `Deflate` with their `ZlibOperator`.
module _ (L : Library) where
  unfoldable pub initialised : L.S × ℤ → ZLibError ⊎ L.S
  initialised (s, n) = elim (lookup n) [ some e ↦ inl e | none ↦ inr s ]

  unfoldable pub new_inflate : ZLibError ⊎ L.S
  unfolding initialised
  new_inflate = initialised (L.inflate_init L.zeroed)

  unfoldable pub new_deflate : ℤ → ZLibError ⊎ L.S
  unfolding initialised
  new_deflate level = initialised (L.deflate_init L.zeroed level)

  abbrev pub inflate_operator : ZlibOperator
  inflate_operator = record { S = L.S; reset = L.inflate_reset; call = L.inflate }

  abbrev pub deflate_operator : ZlibOperator
  deflate_operator = record { S = L.S; reset = L.deflate_reset; call = L.deflate }

module _ (Z : ZlibOperator) where
  -- The stream after a call.
  unfoldable pub moved : ZStream → Answer Z.S → ZStream
  moved strm a = record {
    next_in = drop a.consumed strm.next_in;
    avail_in = strm.avail_in - a.consumed;
    written = strm.written ++ a.produced;
    avail_out = strm.avail_out - length a.produced;
  }

  -- `ZlibOperator::process`
  unfoldable pub process : Z.S → ZStream → FlushMode → (Z.S × ZStream) × Option ZLibError
  unfolding moved
  process s strm flush =
      let a = Z.call s flush (take strm.avail_in strm.next_in) strm.avail_out in
      ((a.state, moved strm a), lookup a.returned)
