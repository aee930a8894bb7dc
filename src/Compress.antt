-- ===== src/Compress.antt =====
-- src/compress.rs: `MbZlibOp::process`, which runs a zlib operator over the pages of a `Multibytes`.
pub mod Streams
pub mod Rounds
pub mod Steps
pub mod Run
pub mod RoundTrip
pub mod Spins
pub mod Constructors
pub mod Copy
pub mod Ending
mod Tests
use blockrouter.Prelude.{ℕ, zero, suc, ◌-◌, ◌%◌, ◌^◌, Option, none, some, List, [], ◌∷◌, ◌++◌}
use blockrouter.Prelude.{length, take, ltb, ◌==◌, if◌then◌else◌}
use blockrouter.Prelude.{◌⊎◌}
use blockrouter.Prelude.Signed.{ℤ}
use blockrouter.Zlib
use blockrouter.Zlib.{sync_flush, ZLibError, ZStream, ZlibOperator, Library}

-- `Result<Multibytes<T>, ZLibError>` with the operator's state afterwards. `stuck` is no value of the
-- source: the model's loop ran out of fuel.
pub data ProcessResult (S : Type 0) : Type 0 where
  ok : S → List (List ℕ) → ProcessResult S
  err : S → ZLibError → ProcessResult S
  stuck : ProcessResult S

unfoldable pub set_in : ZStream → List ℕ → ZStream
set_in strm buf = record strm { next_in = buf; avail_in = length buf % 2 ^ 32 }

-- `capacity` is the length of the buffers that the allocator gives.
unfoldable pub set_out : ZStream → ℕ → ZStream
set_out strm capacity = record strm { written = []; avail_out = capacity % 2 ^ 32 }

-- `if avail_out == 0`: a buffer without room was written over its whole length.
unfoldable pub next_out : ℕ → ZStream → List (List ℕ) → ZStream × List (List ℕ)
unfolding set_out
next_out capacity strm vd =
    if strm.avail_out == 0 then (set_out strm capacity, vd ++ strm.written ∷ []) else (strm, vd)

-- What follows the loop.
unfoldable pub finish : ℕ → ZStream → List (List ℕ) → List (List ℕ)
finish capacity strm vd =
    let trail_size = capacity % 2 ^ 32 - strm.avail_out in
    if ltb 0 trail_size then vd ++ take trail_size strm.written ∷ [] else vd

module _ (Z : ZlibOperator) where
  -- The loop; `b` are the pages that are not yet begun.
  unfoldable pub process_loop :
      ℕ → ℕ → Z.S → ZStream → List (List ℕ) → List (List ℕ) → ProcessResult Z.S
  unfolding next_out finish set_in
  process_loop capacity zero s strm b vd = stuck
  process_loop capacity (suc fuel) s strm b vd =
      let called = Zlib.process Z s strm sync_flush in
      let s' = called.0.0 in
      let strm' = called.0.1 in
      let onwards : List (List ℕ) → ZStream → ProcessResult Z.S = λ rest fed.
        let out = next_out capacity fed vd in process_loop capacity fuel s' out.0 rest out.1 in
      let popped : ProcessResult Z.S = elim b [
        | [] ↦ ok s' (finish capacity strm' vd)
        | buf_in ∷ rest ↦ onwards rest (set_in strm' buf_in)
      ] in
      let more = onwards b strm' in
      elim called.1 [ some e ↦ err s' e | none ↦ if strm'.avail_in == 0 then popped else more ]

  -- The pages of the result; without a first page nothing is done.
  unfoldable pub process : ℕ → ℕ → Z.S → List (List ℕ) → ProcessResult Z.S
  unfolding process_loop set_in set_out
  process capacity fuel s [] = ok s []
  process capacity fuel s (buf_in ∷ b) =
      let strm : ZStream = record {
        next_in = buf_in;
        avail_in = length buf_in % 2 ^ 32;
        written = [];
        avail_out = capacity % 2 ^ 32;
      } in
      process_loop capacity fuel s strm b []

-- The constructors; an `MbZlibOp` is its operator.
module _ (L : Library) where
  unfoldable pub deflate : ℤ → ZLibError ⊎ L.S
  unfolding Zlib.new_deflate
  deflate level = Zlib.new_deflate L level

  unfoldable pub inflate : ZLibError ⊎ L.S
  unfolding Zlib.new_inflate
  inflate = Zlib.new_inflate L
