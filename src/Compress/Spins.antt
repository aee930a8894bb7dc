-- ===== src/Compress/Spins.antt =====
-- src/compress.rs: `MbZlibOp::process` over a stream that has ended.
use blockrouter.Prelude.{
  ℕ, zero, suc, ◌-◌, ◌%◌, ◌^◌, ◌<◌, ◌≡◌, refl, sym, ap, ◌∙◌, arith, List, [], ◌∷◌, length, false,
  ◌==◌,
}
use mathlib.Core.Path.{subst}
use blockrouter.Prelude.Signed.{pos}
use blockrouter.Zlib.{ZStream, ZlibOperator, Answer, sync_flush, lookup, moved}
use blockrouter.Compress.{stuck, next_out, process_loop, process}
use blockrouter.Compress.Steps.{answer, round_more}

module _ (Z : ZlibOperator) where
  -- A call that returns Z_STREAM_END, and reads and writes nothing.
  abbrev pub at_end : Z.S → Answer Z.S
  at_end s = record { returned = pos 1; consumed = 0; produced = []; state = s }

  -- The stream has ended.
  abbrev pub IsEnded : Z.S → Type 0
  IsEnded s = (inp : List ℕ) (room : ℕ) → Z.call s sync_flush inp room ≡ at_end s

  module _ (capacity : ℕ) where
    kept : (n : ℕ) → 0 < n → (n - 0 == 0) ≡ false
    kept n h = ground arith

    out_of_fuel :
        (s : Z.S) (strm : ZStream) (b vd : List (List ℕ))
        → process_loop Z capacity 0 s strm b vd ≡ stuck
    unfolding process_loop
    out_of_fuel s strm b vd = refl

    loop-ended :
        (fuel : ℕ) (s : Z.S) (strm : ZStream) (b vd : List (List ℕ))
        → IsEnded s
        → strm.avail_in ≡ length strm.next_in
        → 0 < strm.avail_in
        → 0 < strm.avail_out
        → process_loop Z capacity fuel s strm b vd ≡ stuck
    unfolding answer moved next_out lookup
    loop-ended zero s strm b vd ended counted some_input some_room = out_of_fuel s strm b vd
    loop-ended (suc fuel) s strm b vd ended counted some_input some_room =
        let e = ended strm.next_in strm.avail_out in
        round_more Z capacity fuel s strm b vd counted (ap (λ a. lookup a.returned) e)
          (ap (λ a. strm.avail_in - a.consumed == 0) e ∙ kept strm.avail_in some_input)
        ∙ subst
            (λ (a : Answer Z.S).
              process_loop Z capacity fuel a.state (next_out capacity (moved Z strm a) vd).0 b
                (next_out capacity (moved Z strm a) vd).1
              ≡ stuck)
            (sym e)
            (rw (kept strm.avail_out some_room) (
              loop-ended fuel s (moved Z strm (at_end s)) b vd ended (omega (arith, counted))
                (omega arith) (omega arith)))

    -- process of pages of which the first is not empty and shorter than 2 ^ 32 bytes, with buffers of a
    -- fixed length between 1 and 2 ^ 32 - 1, over a stream that has ended and so returns Z_STREAM_END
    -- without progress: no fuel is enough, so the loop never ends.
    pub process-ended :
        (fuel : ℕ) (s : Z.S) (p : List ℕ) (b : List (List ℕ))
        → IsEnded s
        → 0 < length p
        → length p < 2 ^ 32
        → 0 < capacity
        → capacity < 2 ^ 32
        → process Z capacity fuel s (p ∷ b) ≡ stuck
    unfolding process
    process-ended fuel s p b ended some_input small room word =
        loop-ended fuel s
          (record {
            next_in = p;
            avail_in = length p % 2 ^ 32;
            written = [];
            avail_out = capacity % 2 ^ 32;
          })
          b [] ended (omega arith) (omega arith) (omega arith)
