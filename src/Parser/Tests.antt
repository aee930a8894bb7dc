-- ===== src/Parser/Tests.antt =====
-- Concrete runs of the parsers on a plain list of bytes, as in the tests of src/parser.rs.
use blockrouter.Prelude.{ℕ, ◌-◌, ◌%◌, ◌^◌, ◌≡◌, refl, arith, Option, none, some, leb}
use blockrouter.Prelude.{List, [], ◌∷◌, ◌++◌, length}
use blockrouter.Prelude.Signed.{to_i32, negsuc}
use blockrouter.Parser.{SliceCursor, ok, incomplete, error, varint_exceeded_shift}
use blockrouter.Parser.{varint, varlong, decode_loop}
use blockrouter.Parser.Scan.{scan, value}
use blockrouter.Parser.RoundTrip.{encode, varint-encode, varlong-encode}
use blockrouter.Parser.Decode.{Reads, Outcome, varint-Outcome, varlong-Outcome}

abbrev uncons : List ℕ → Option (ℕ × List ℕ)
uncons [] = none
uncons (x ∷ xs) = some (x, xs)

abbrev list_cursor : SliceCursor
list_cursor = record { B = List ℕ; has_atleast = λ b n. leb n (length b); get_u8 = uncons }

abbrev bytes_of : List ℕ → List ℕ
bytes_of b = b

abbrev IsAny : List ℕ → Type 0
IsAny b = Unit

list_cursor-Reads : Reads list_cursor bytes_of IsAny
list_cursor-Reads = record {
  atleast_one = λ b _. ground arith;
  reads_byte = λ b x xs _ e. (xs, rw e refl, refl, tt);
}

varint_runs :
    (varint list_cursor (0xff ∷ 0x01 ∷ []) ≡ ok [] 255)
    × (varint list_cursor (0xff ∷ 0xff ∷ 0xff ∷ 0xff ∷ 0x07 ∷ []) ≡ ok [] 2147483647)
    × (varint list_cursor (0xff ∷ 0xff ∷ 0xff ∷ 0xff ∷ 0x0f ∷ []) ≡ ok [] (2 ^ 32 - 1))
    × (to_i32 (2 ^ 32 - 1) ≡ negsuc 0)
    × (varint list_cursor (0x80 ∷ 0x80 ∷ 0x80 ∷ 0x80 ∷ 0x80 ∷ [])
        ≡ error (varint_exceeded_shift 32))
    × (varint list_cursor (0x80 ∷ 0x80 ∷ []) ≡ incomplete)
    × (varint list_cursor (0x01 ∷ 0x02 ∷ []) ≡ ok (0x02 ∷ []) 1)
unfolding varint decode_loop
varint_runs = (refl, refl, refl, refl, refl, refl, refl)

varint-Outcome_example :
    Outcome list_cursor bytes_of IsAny 32
      (λ gs. value gs % 2 ^ 32)
      (scan 5 (0x80 ∷ 0x02 ∷ 7 ∷ []))
      (varint list_cursor (0x80 ∷ 0x02 ∷ 7 ∷ []))
varint-Outcome_example =
    varint-Outcome list_cursor bytes_of IsAny list_cursor-Reads (0x80 ∷ 0x02 ∷ 7 ∷ []) tt
      (omega arith)

varlong-Outcome_example :
    Outcome list_cursor bytes_of IsAny 64
      (λ gs. value gs % 2 ^ 64)
      (scan 10 (0x80 ∷ 0x02 ∷ 7 ∷ []))
      (varlong list_cursor (0x80 ∷ 0x02 ∷ 7 ∷ []))
varlong-Outcome_example =
    varlong-Outcome list_cursor bytes_of IsAny list_cursor-Reads (0x80 ∷ 0x02 ∷ 7 ∷ []) tt
      (omega arith)

varint-encode_example :
    (b' : List ℕ) × (varint list_cursor (encode 4 300 ++ 7 ∷ []) ≡ ok b' 300)
    × (b' ≡ 7 ∷ [])
    × IsAny b'
varint-encode_example =
    varint-encode list_cursor bytes_of IsAny list_cursor-Reads (encode 4 300 ++ 7 ∷ []) 300 (7 ∷ [])
      tt (omega arith) (omega arith) refl

varlong-encode_example :
    (b' : List ℕ) × (varlong list_cursor (encode 9 (2 ^ 40) ++ 7 ∷ []) ≡ ok b' (2 ^ 40))
    × (b' ≡ 7 ∷ [])
    × IsAny b'
varlong-encode_example =
    varlong-encode list_cursor bytes_of IsAny list_cursor-Reads (encode 9 (2 ^ 40) ++ 7 ∷ [])
      (2 ^ 40) (7 ∷ []) tt (omega arith) (omega arith) refl
