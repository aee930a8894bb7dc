-- ===== src/Parser/RoundTrip.antt =====
-- What the parsers make of a number in its encoding, and of input in two parts.
use blockrouter.Prelude.{ℕ, zero, suc, ◌+◌, ◌/◌, ◌%◌, ◌^◌, ◌<◌, ◌≡◌, ap, ◌∙◌, arith}
use blockrouter.Prelude.{List, [], ◌∷◌, ◌++◌, ltb, if◌then◌else◌, Bool-cases, false, inl, inr}
use blockrouter.Prelude.{All-append, length, ◌≤◌}
use blockrouter.Parser.{SliceCursor, ok, varint, varlong}
use blockrouter.Parser.Scan.{done, scan, value}
use blockrouter.Parser.Decode.{Reads, IsBytes, varint-Outcome, varlong-Outcome}
use native.Mathlib.Nat.{mod-eq_of_lt}

-- The bytes of `v` in the format, for `v` below 128 ^ (k + 1).
unfoldable pub encode : ℕ → ℕ → List ℕ
encode zero v = v ∷ []
encode (suc k) v =
    let rest = encode k (v / 128) in if ltb v 128 then v ∷ [] else (v % 128 + 128) ∷ rest

abbrev pub groups : ℕ → ℕ → List ℕ
groups zero v = v ∷ []
groups (suc k) v = let rest = groups k (v / 128) in if ltb v 128 then v ∷ [] else v % 128 ∷ rest

pub value-groups : (k v : ℕ) → value (groups k v) ≡ v
value-groups zero v = omega arith
value-groups (suc k) v = ground (arith, value-groups k (v / 128))

pub encode-length : (k v : ℕ) → (0 < length (encode k v)) × (length (encode k v) ≤ k + 1)
unfolding encode
encode-length zero v = (omega arith, omega arith)
encode-length (suc k) v = elim (Bool-cases (ltb v 128)) [
  | inl last ↦ rw last (omega arith, omega arith)
  | inr more ↦ rw more (omega arith, omega (arith, encode-length k (v / 128)))
]

pub scan-encode :
    (k v : ℕ) (rest : List ℕ)
    → v < 128 ^ suc k
    → scan (suc k) (encode k v ++ rest) ≡ done (groups k v) rest
unfolding scan encode
scan-encode zero v rest h = ground arith
scan-encode (suc k) v rest h = elim (Bool-cases (ltb v 128)) [
  | inl last ↦ rw (last, last)
  | inr more ↦
      let big : ltb (v % 128 + 128) 128 ≡ false = ground arith in
      let low : (v % 128 + 128) % 128 ≡ v % 128 = omega arith in
      rw (more, big, scan-encode k (v / 128) rest (omega arith), low)
]

pub encode-IsBytes : (k v : ℕ) → v < 128 ^ suc k → IsBytes (encode k v)
unfolding encode
encode-IsBytes zero v h = omega arith
encode-IsBytes (suc k) v h = ground (arith, encode-IsBytes k (v / 128) (omega arith))

module _ (S : SliceCursor) (content : S.B → List ℕ) (IsGood : S.B → Type 0)
    (R : Reads S content IsGood) where
  -- On a cursor that reads the encoding of a 32-bit pattern and more bytes behind it, `varint` returns
  -- the pattern and a state that reads just the bytes behind it.
  pub varint-encode :
      (b : S.B) (v : ℕ) (rest : List ℕ)
      → IsGood b
      → v < 2 ^ 32
      → IsBytes rest
      → content b ≡ encode 4 v ++ rest
      → (b' : S.B) × (varint S b ≡ ok b' v) × (content b' ≡ rest) × IsGood b'
  varint-encode b v rest good small bytes e =
      let code : v < 128 ^ 5 = omega arith in
      let all : IsBytes (encode 4 v ++ rest) =
        All-append (λ x. x < 256) (encode 4 v) rest (encode-IsBytes 4 v code) bytes in
      let out = varint-Outcome S content IsGood R b good (rw e all) in
      let (b', ran, left, good') = rw (e, scan-encode 4 v rest code) at out in
      (
        b',
        ran ∙ ap (ok b') (ap (λ (t : ℕ). t % 2 ^ 32) (value-groups 4 v) ∙ mod-eq_of_lt small),
        left,
        good',
      )

  -- On a cursor that reads the encoding of a 64-bit pattern and more bytes behind it, `varlong`
  -- returns the pattern and a state that reads just the bytes behind it.
  pub varlong-encode :
      (b : S.B) (v : ℕ) (rest : List ℕ)
      → IsGood b
      → v < 2 ^ 64
      → IsBytes rest
      → content b ≡ encode 9 v ++ rest
      → (b' : S.B) × (varlong S b ≡ ok b' v) × (content b' ≡ rest) × IsGood b'
  varlong-encode b v rest good small bytes e =
      let code : v < 128 ^ 10 = omega arith in
      let all : IsBytes (encode 9 v ++ rest) =
        All-append (λ x. x < 256) (encode 9 v) rest (encode-IsBytes 9 v code) bytes in
      let out = varlong-Outcome S content IsGood R b good (rw e all) in
      let (b', ran, left, good') = rw (e, scan-encode 9 v rest code) at out in
      (
        b',
        ran ∙ ap (ok b') (ap (λ (t : ℕ). t % 2 ^ 64) (value-groups 9 v) ∙ mod-eq_of_lt small),
        left,
        good',
      )
