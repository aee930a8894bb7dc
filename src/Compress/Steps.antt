-- ===== src/Compress/Steps.antt =====
-- src/compress.rs: the rounds of the loop of `MbZlibOp::process`, by what the operator answers.
use blockrouter.Prelude.{ℕ, suc, ◌≡◌, refl, none, some, List, [], ◌∷◌, true, false, length, ◌==◌}
use blockrouter.Zlib
use blockrouter.Zlib.{sync_flush, ZLibError, ZStream, ZlibOperator, Answer, lookup, moved}
use blockrouter.Compress
use blockrouter.Compress.{ProcessResult, ok, err, set_in, next_out, process_loop, process}
use blockrouter.Compress.Streams.{take_self}
use blockrouter.Compress.Rounds.{}

module _ (Z : ZlibOperator) (capacity : ℕ) where
  pub called :
      (s : Z.S) (strm : ZStream)
      → strm.avail_in ≡ length strm.next_in
      → Zlib.process Z s strm sync_flush ≡ (
        (
          (Z.call s sync_flush strm.next_in strm.avail_out).state,
          moved Z strm (Z.call s sync_flush strm.next_in strm.avail_out),
        ),
        lookup (Z.call s sync_flush strm.next_in strm.avail_out).returned,
      )
  unfolding Zlib.process
  called s strm counted = rw (counted, take_self strm.next_in) refl

  -- The answer of the call that a round makes.
  unfoldable pub answer : Z.S → ZStream → Answer Z.S
  answer s strm = Z.call s sync_flush strm.next_in strm.avail_out

  pub round_err :
      (fuel : ℕ) (s : Z.S) (strm : ZStream) (b vd : List (List ℕ)) (e : ZLibError)
      → strm.avail_in ≡ length strm.next_in
      → lookup (answer s strm).returned ≡ some e
      → process_loop Z capacity (suc fuel) s strm b vd ≡ err (answer s strm).state e
  unfolding process_loop answer
  round_err fuel s strm b vd e counted failed =
      rw (process_loop, called s strm counted, failed, called s strm counted) refl

  pub round_more :
      (fuel : ℕ) (s : Z.S) (strm : ZStream) (b vd : List (List ℕ))
      → strm.avail_in ≡ length strm.next_in
      → lookup (answer s strm).returned ≡ none
      → ((moved Z strm (answer s strm)).avail_in == 0) ≡ false
      → process_loop Z capacity (suc fuel) s strm b vd ≡ (
          let out = next_out capacity (moved Z strm (answer s strm)) vd in
          process_loop Z capacity fuel (answer s strm).state out.0 b out.1)
  unfolding process_loop answer
  round_more fuel s strm b vd counted fine left =
      rw (process_loop, called s strm counted, fine, called s strm counted, left) refl

  pub round_end :
      (fuel : ℕ) (s : Z.S) (strm : ZStream) (vd : List (List ℕ))
      → strm.avail_in ≡ length strm.next_in
      → lookup (answer s strm).returned ≡ none
      → ((moved Z strm (answer s strm)).avail_in == 0) ≡ true
      → process_loop Z capacity (suc fuel) s strm [] vd
        ≡ ok (answer s strm).state (Compress.finish capacity (moved Z strm (answer s strm)) vd)
  unfolding process_loop answer
  round_end fuel s strm vd counted fine eaten =
      rw (process_loop, called s strm counted, fine, called s strm counted, eaten) refl

  pub round_pop :
      (fuel : ℕ) (s : Z.S) (strm : ZStream) (p : List ℕ) (b vd : List (List ℕ))
      → strm.avail_in ≡ length strm.next_in
      → lookup (answer s strm).returned ≡ none
      → ((moved Z strm (answer s strm)).avail_in == 0) ≡ true
      → process_loop Z capacity (suc fuel) s strm (p ∷ b) vd ≡ (
          let out = next_out capacity (set_in (moved Z strm (answer s strm)) p) vd in
          process_loop Z capacity fuel (answer s strm).state out.0 b out.1)
  unfolding process_loop answer
  round_pop fuel s strm p b vd counted fine eaten =
      rw (process_loop, called s strm counted, fine, called s strm counted, eaten) refl
