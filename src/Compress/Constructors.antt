-- ===== src/Compress/Constructors.antt =====
-- src/compress.rs and src/zlib.rs: `MbZlibOp::deflate` and `MbZlibOp::inflate`.
use blockrouter.Prelude.{◌≡◌, ◌↔◌, ◌⊎◌, inl, inr, Option, none, some}
use blockrouter.Prelude.Signed.{ℤ}
use blockrouter.Zlib
use blockrouter.Zlib.{ZLibError, Library, lookup, code, initialised}
use blockrouter.Zlib.Codes.{lookup-code}
use blockrouter.Compress.{deflate, inflate}

module _ (L : Library) where
  failed : (s : L.S) (n : ℤ) (e : ZLibError) → (initialised L (s, n) ≡ inl e) ↔ (lookup n ≡ some e)
  unfolding initialised
  failed s n e = go (lookup n)
    where
      go :
          (o : Option ZLibError)
          → ((elim o as (λ x. ZLibError ⊎ L.S) [ some e' ↦ inl e' | none ↦ inr s ]) ≡ inl e)
            ↔ (o ≡ some e)
      go none = (λ h. cc, λ h. cc)
      go (some e') = (λ h. cc, λ h. cc)

  by_code : (r : L.S × ℤ) (e : ZLibError) → (initialised L r ≡ inl e) ↔ (r.1 ≡ code e)
  by_code (s, n) e =
      (λ h. (lookup-code n e).0 ((failed s n e).0 h), λ h. (failed s n e).1 ((lookup-code n e).1 h))

  -- The two constructors fail with an error exactly if the library's initialisation of a zeroed stream
  -- returns the code of that error; any other number is no failure.
  pub constructors-fail :
      (level : ℤ) (e : ZLibError)
      → ((inflate L ≡ inl e) ↔ ((L.inflate_init L.zeroed).1 ≡ code e))
        × ((deflate L level ≡ inl e) ↔ ((L.deflate_init L.zeroed level).1 ≡ code e))
  unfolding inflate deflate Zlib.new_inflate Zlib.new_deflate
  constructors-fail level e =
      (by_code (L.inflate_init L.zeroed) e, by_code (L.deflate_init L.zeroed level) e)
