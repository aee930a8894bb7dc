-- ===== src/Parser.antt =====
-- src/parser.rs: `varint` and `varlong`, generic over `SliceCursor`.
mod Group
pub mod Scan
pub mod Decode
pub mod RoundTrip
mod Tests
use blockrouter.Prelude.{
  ℕ, zero, suc, ◌+◌, ◌*◌, ◌%◌, ◌^◌, bit_and, bit_or, Bool, Option, none, some,
}
use blockrouter.Prelude.{ltb, ◌==◌, if◌then◌else◌}

-- What the parsers use of `trait SliceCursor: bytes::Buf`; `none` is a panic.
pub record SliceCursor : Type 1 where
  pub B : Type 0
  pub has_atleast : B → ℕ → Bool
  pub get_u8 : B → Option (ℕ × B)

pub data VarintParseFail : Type 0 where
  varint_exceeded_shift : ℕ → VarintParseFail

-- `IResult<T, i32, VarintParseFail>`: `Incomplete(Unknown)` and `Error` are the errors that the
-- code makes. An integer is its bit pattern. `panicked` is a panic of the cursor; `stuck` is no
-- value of the source: the model's loop ran out of fuel.
pub data ParseResult (B : Type 0) : Type 0 where
  ok : B → ℕ → ParseResult B
  incomplete : ParseResult B
  error : VarintParseFail → ParseResult B
  panicked : ParseResult B
  stuck : ParseResult B

module _ (S : SliceCursor) where
  open S use {B, has_atleast, get_u8}

  -- The loop of `varint_decode!` for an integer of `width` bits; `i` and `result` are its variables.
  unfoldable pub decode_loop : ℕ → ℕ → ℕ → B → ℕ → ℕ → ParseResult B
  decode_loop max_shift width zero input i result = stuck
  decode_loop max_shift width (suc fuel) input i result =
      let read_one : ParseResult B = elim (get_u8 input) [
        | none ↦ panicked
        | some (read, input') ↦
            let result' = bit_or result (bit_and read 0x7f * 2 ^ i % 2 ^ width) in
            let next = decode_loop max_shift width fuel input' (i + 7) result' in
            if bit_and read 0x80 == 0
            then ok input' result'
            else if ltb max_shift (i + 7)
            then error (varint_exceeded_shift max_shift)
            else next
      ] in
      if has_atleast input 1 then read_one else incomplete

  -- Every round adds 7 to `i` and the loop ends once `i` passes `max_shift`, so `max_shift + 1`
  -- rounds are more than enough.
  unfoldable pub varint : B → ParseResult B
  varint b = decode_loop 32 32 33 b 0 0

  unfoldable pub varlong : B → ParseResult B
  varlong b = decode_loop 64 64 65 b 0 0
