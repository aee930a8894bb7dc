-- ===== src/Compress/Tests.antt =====
-- Six bytes through an operator that copies, and through one whose stream ends at a byte 0.
use blockrouter.Prelude.{ℕ, arith, List, [], ◌∷◌}
use blockrouter.Compress.Spins.{process-ended}
use blockrouter.Zlib.{ZlibOperator}
use blockrouter.Compress.{process, stuck}
use blockrouter.Zlib
use blockrouter.Prelude.{◌≡◌, refl}
use blockrouter.Prelude.{◌↔◌, inl, if◌then◌else◌}
use blockrouter.Prelude.Signed.{pos, negsuc, ltb_ℤ}
use blockrouter.Zlib.{Library, code, stream_error}
use blockrouter.Compress.{inflate, deflate}
use blockrouter.Compress.Constructors.{constructors-fail}
use blockrouter.Compress.Copy.{copy}

abbrev pages : List (List ℕ)
pages = (1 ∷ 2 ∷ 3 ∷ []) ∷ (4 ∷ 5 ∷ 6 ∷ []) ∷ []

abbrev cut : List (List ℕ)
cut = (1 ∷ 2 ∷ 3 ∷ 4 ∷ []) ∷ (5 ∷ 6 ∷ []) ∷ []

-- A library that refuses a level above 9.
abbrev strict : Library
strict = record {
  S = List ℕ;
  zeroed = [];
  inflate_init = λ s. (s, pos 0);
  deflate_init = λ s level. (s, if ltb_ℤ (pos 9) level then negsuc 1 else pos 0);
  inflate = copy.call;
  deflate = copy.call;
  inflate_reset = λ s. [];
  deflate_reset = λ s. [];
}

constructors-fail_example :
    ((inflate strict ≡ inl stream_error) ↔ (pos 0 ≡ code stream_error))
    × ((deflate strict (pos 12) ≡ inl stream_error) ↔ (negsuc 1 ≡ code stream_error))
constructors-fail_example = constructors-fail strict (pos 12) stream_error

-- A stream that has ended.
abbrev over : ZlibOperator
over = record {
  S = Unit;
  reset = λ s. s;
  call = λ s flush inp room. record { returned = pos 1; consumed = 0; produced = []; state = s };
}

process-ended_example : process over 4 9 tt ((1 ∷ 2 ∷ []) ∷ []) ≡ stuck
process-ended_example =
    process-ended over 4 9 tt (1 ∷ 2 ∷ []) [] (λ inp room. refl) (omega arith) (omega arith)
      (omega arith) (omega arith)
