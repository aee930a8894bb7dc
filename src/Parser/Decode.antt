-- ===== src/Parser/Decode.antt =====
-- src/parser.rs: `varint` and `varlong` against the format, on cursors that read a list of bytes.
use blockrouter.Prelude.{ℕ, zero, suc, ◌+◌, ◌*◌, ◌%◌, ◌^◌, ◌≤◌, ◌<◌, ◌≡◌, refl, ap}
use blockrouter.Prelude.{◌∙◌, arith, bit_and, if◌then◌else◌, true, false, inl, inr, Bool-cases}
use blockrouter.Prelude.{List, ◌∷◌, List-cases, length, ltb, ◌==◌, some, All}
use blockrouter.Prelude.Bits.{bit_and_0x7f, bit_and_0x80}
use blockrouter.Parser.{SliceCursor, ParseResult, ok, incomplete, error, varint_exceeded_shift}
use blockrouter.Parser.{decode_loop, varint, varlong}
use blockrouter.Parser.Group.{or_group, push_value, group_fits}
use blockrouter.Parser.Scan.{Scan, done, short, long, push, scan, value}
use native.Mathlib.Nat.{mod-eq_of_lt}
use native.Mathlib.Nat.{pow-le-pow_right}
use mathlib.Core.Path.{fun_ext}

abbrev pub IsBytes : List ℕ → Type 0
IsBytes bs = All (λ x. x < 256) bs

-- `S` reads the bytes of `content`, from every state that `IsGood` describes.
pub record Reads (S : SliceCursor) (content : S.B → List ℕ) (IsGood : S.B → Type 0) : Type 0 where
  pub atleast_one : (b : S.B) → IsGood b → S.has_atleast b 1 ≡ ltb 0 (length (content b))
  pub reads_byte :
      (b : S.B) (x : ℕ) (xs : List ℕ)
      → IsGood b
      → content b ≡ x ∷ xs
      → (b' : S.B) × (S.get_u8 b ≡ some (x, b')) × (content b' ≡ xs) × IsGood b'

module _ (S : SliceCursor) (content : S.B → List ℕ) (IsGood : S.B → Type 0) where
  -- What decoding has to return for a scan of the input, where `number` is made of the groups: the
  -- number and a state that reads on behind it, or the error for what the input holds instead.
  abbrev pub Outcome : ℕ → (List ℕ → ℕ) → Scan → ParseResult S.B → Type 0
  Outcome max_shift number (done gs rest) r =
      (b' : S.B) × (r ≡ ok b' (number gs)) × (content b' ≡ rest) × IsGood b'
  Outcome max_shift number short r = r ≡ incomplete
  Outcome max_shift number long r = r ≡ error (varint_exceeded_shift max_shift)

module _ (S : SliceCursor) (content : S.B → List ℕ) (IsGood : S.B → Type 0)
    (R : Reads S content IsGood) where
  module _ (width max_shift : ℕ) where
    abbrev Yields : (List ℕ → ℕ) → Scan → ParseResult S.B → Type 0
    Yields = Outcome S content IsGood max_shift

    abbrev number_from : ℕ → ℕ → List ℕ → ℕ
    number_from a i gs = (a + value gs * 2 ^ i) % 2 ^ width

    Outcome-push :
        (a g i : ℕ) (s : Scan) (r : ParseResult S.B)
        → Yields (number_from (a + g * 2 ^ i) (i + 7)) s r
        → Yields (number_from a i) (push g s) r
    Outcome-push a g i (done gs rest) r (b', e, more, good) =
        (b', e ∙ ap (λ n. ok b' (n % 2 ^ width)) (push_value a g i (value gs)), more, good)
    Outcome-push a g i short r h = h
    Outcome-push a g i long r h = h

    -- One round of the loop on a byte `x`.
    decode_round :
        (fuel : ℕ) (b b' : S.B) (i a x : ℕ)
        → S.has_atleast b 1 ≡ true
        → S.get_u8 b ≡ some (x, b')
        → x < 256
        → a < 2 ^ i
        → i ≤ width
        → let result = (a + x % 128 * 2 ^ i) % 2 ^ width in
          decode_loop S max_shift width (suc fuel) b i a ≡ (
            if ltb x 128
            then ok b' result
            else if ltb max_shift (i + 7)
            then error (varint_exceeded_shift max_shift)
            else decode_loop S max_shift width fuel b' (i + 7) result)
    unfolding decode_loop
    decode_round fuel b b' i a x have get byte ha hi =
        let top : (bit_and x 0x80 == 0) ≡ ltb x 128 = ground (arith, bit_and_0x80 x byte) in
        rw (have, get, top, bit_and_0x7f x byte, or_group a (x % 128) i width ha hi)

    decode_end :
        (fuel : ℕ) (b : S.B) (i a : ℕ)
        → S.has_atleast b 1 ≡ false
        → decode_loop S max_shift width (suc fuel) b i a ≡ incomplete
    unfolding decode_loop
    decode_end fuel b i a h = rw h

    -- What the loop does after a byte with the top bit set.
    abbrev go_on : ℕ → S.B → ℕ → ℕ → ParseResult S.B
    go_on fuel b' i result =
        if ltb max_shift (i + 7)
        then error (varint_exceeded_shift max_shift)
        else decode_loop S max_shift width fuel b' (i + 7) result

    decode_step :
        (fuel k : ℕ) (b : S.B) (i a : ℕ)
        → a < 2 ^ i
        → i ≤ width
        → IsGood b
        → IsBytes (content b)
        → ((x : ℕ) (b' : S.B)
            → IsGood b'
            → IsBytes (content b')
            → Yields
                (number_from a i)
                (push (x % 128) (scan k (content b')))
                (go_on fuel b' i ((a + x % 128 * 2 ^ i) % 2 ^ width)))
        → Yields
            (number_from a i)
            (scan (suc k) (content b))
            (decode_loop S max_shift width (suc fuel) b i a)
    unfolding scan
    decode_step fuel k b i a ha hi good bytes next = elim (List-cases (content b)) [
      | inl e ↦
          let none_left : S.has_atleast b 1 ≡ false = rw (R.atleast_one b good, e) refl in
          rw (e, decode_end fuel b i a none_left) refl
      | inr (x, xs, e) ↦
          let (b', get, e', good') = R.reads_byte b x xs good e in
          let have : S.has_atleast b 1 ≡ true = rw (R.atleast_one b good, e) (ground arith) in
          let (byte, bytes') = let h : IsBytes (x ∷ xs) = rw e at bytes in h in
          rw (e, decode_round fuel b b' i a x have get byte ha hi)
            (elim (Bool-cases (ltb x 128)) [
              | inl last ↦
                  let small : a + x % 128 * 2 ^ i ≡ a + (x + 128 * 0) * 2 ^ i =
                    ap (λ t. a + t * 2 ^ i) (ground arith) in
                  rw last (b', ap (λ n. ok b' (n % 2 ^ width)) small, e', good')
              | inr more ↦ rw (more, ← e') (next x b' good' (rw e' bytes'))
            ])
    ]

    module _ (fits : max_shift ≤ width) where
      -- `k` more groups may follow the one at shift `i`.
      decode_loop-Outcome :
          (fuel k : ℕ) (b : S.B) (i a : ℕ)
          → suc k ≤ fuel
          → i + 7 * k ≤ max_shift
          → max_shift < i + 7 * suc k
          → a < 2 ^ i
          → IsGood b
          → IsBytes (content b)
          → Yields
              (number_from a i)
              (scan (suc k) (content b))
              (decode_loop S max_shift width fuel b i a)
      decode_loop-Outcome zero k b i a hf lo hi ha good bytes = absurd (omega arith)
      decode_loop-Outcome (suc fuel) zero b i a hf lo hi ha good bytes =
          decode_step fuel 0 b i a ha (omega arith) good bytes λ x b' good' bytes'.
            let over : ltb max_shift (i + 7) ≡ true = ground arith in rw over (unfold scan in refl)
      decode_loop-Outcome (suc fuel) (suc k) b i a hf lo hi ha good bytes =
          decode_step fuel (suc k) b i a ha (omega arith) good bytes λ x b' good' bytes'.
            let within : ltb max_shift (i + 7) ≡ false = ground arith in
            let small = group_fits a (x % 128) i ha (omega arith) in
            let wide =
              pow-le-pow_right {n = 2} (omega arith) {i = i + 7} {j = width} (omega arith) in
            let exact : (a + x % 128 * 2 ^ i) % 2 ^ width ≡ a + x % 128 * 2 ^ i =
              mod-eq_of_lt (omega arith) in
            rw (within, exact)
              (Outcome-push a (x % 128) i (scan (suc k) (content b')) _ (
                decode_loop-Outcome fuel k b' (i + 7) (a + x % 128 * 2 ^ i) (omega arith)
                  (omega arith) (omega arith) small good' bytes'))

  number_from_start : (width : ℕ) → number_from width width 0 0 ≡ (λ gs. value gs % 2 ^ width)
  number_from_start width = fun_ext (λ gs. ap (λ (t : ℕ). t % 2 ^ width) (omega arith))

  -- On a cursor that reads a list of bytes, `varint` returns a number of at most five groups modulo
  -- 2 ^ 32 and a state that reads the bytes behind it; it answers `Incomplete` where the input ends
  -- inside the number, and an exceeded shift where a sixth group would follow.
  pub varint-Outcome :
      (b : S.B)
      → IsGood b
      → IsBytes (content b)
      → Outcome S content IsGood 32 (λ gs. value gs % 2 ^ 32) (scan 5 (content b)) (varint S b)
  unfolding varint
  varint-Outcome b good bytes = rw (← number_from_start 32) (
      decode_loop-Outcome 32 32 (omega arith) 33 4 b 0 0 (omega arith) (omega arith) (omega arith)
        (omega arith) good bytes)

  -- On a cursor that reads a list of bytes, `varlong` returns a number of at most ten groups modulo
  -- 2 ^ 64 and a state that reads the bytes behind it; it answers `Incomplete` where the input ends
  -- inside the number, and an exceeded shift where an eleventh group would follow.
  pub varlong-Outcome :
      (b : S.B)
      → IsGood b
      → IsBytes (content b)
      → Outcome S content IsGood 64 (λ gs. value gs % 2 ^ 64) (scan 10 (content b)) (varlong S b)
  unfolding varlong
  varlong-Outcome b good bytes = rw (← number_from_start 64) (
      decode_loop-Outcome 64 64 (omega arith) 65 9 b 0 0 (omega arith) (omega arith) (omega arith)
        (omega arith) good bytes)
