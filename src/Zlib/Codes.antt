-- ===== src/Zlib/Codes.antt =====
-- src/zlib.rs: the error codes.
use blockrouter.Prelude.{ℕ, zero, suc, ◌<◌, ◌≡◌, ◌↔◌, refl, ap, ◌∙◌, some, none, arith, false, ◌==◌}
use blockrouter.Prelude.Signed.{ℤ, pos, negsuc}
use blockrouter.Zlib.{
  ZLibError, lookup, code, errno, stream_error, data_error, mem_error, buf_error, version_error,
}
use mathlib.Core.Option.{some-injective}

code-lookup : (e : ZLibError) → lookup (code e) ≡ some e
unfolding lookup code
code-lookup ZLibError.errno = refl
code-lookup ZLibError.stream_error = refl
code-lookup ZLibError.data_error = refl
code-lookup ZLibError.mem_error = refl
code-lookup ZLibError.buf_error = refl
code-lookup ZLibError.version_error = refl

differ : (n k : ℕ) → k < n → (n == k) ≡ false
differ n k h = ground arith

beyond : (n : ℕ) → 5 < n → lookup (negsuc n) ≡ none
unfolding lookup
beyond n h =
    rw
      (
        differ n 0 (omega arith),
        differ n 1 (omega arith),
        differ n 2 (omega arith),
        differ n 3 (omega arith),
        differ n 4 (omega arith),
        differ n 5 h,
      )
      refl

found-code : (i : ℤ) (e : ZLibError) → lookup i ≡ some e → i ≡ code e
unfolding lookup code
found-code (pos n) e h = cc
found-code (negsuc zero) e h = ap code (some-injective errno e h)
found-code (negsuc (suc zero)) e h = ap code (some-injective stream_error e h)
found-code (negsuc (suc (suc zero))) e h = ap code (some-injective data_error e h)
found-code (negsuc (suc (suc (suc zero)))) e h = ap code (some-injective mem_error e h)
found-code (negsuc (suc (suc (suc (suc zero))))) e h = ap code (some-injective buf_error e h)
found-code (negsuc (suc (suc (suc (suc (suc zero)))))) e h =
    ap code (some-injective version_error e h)
found-code (negsuc (suc (suc (suc (suc (suc (suc n))))))) e h =
    cc (beyond (suc (suc (suc (suc (suc (suc n)))))) (omega arith))

-- lookup finds an error exactly at the code that the error has; every other number is no error.
pub lookup-code : (i : ℤ) (e : ZLibError) → (lookup i ≡ some e) ↔ (i ≡ code e)
unfolding lookup code
lookup-code i e = (found-code i e, λ h. ap lookup h ∙ code-lookup e)
