-- ===== src/Crypto/Moves.antt =====
-- src/mbedtls.rs: a cryptor that is moved between its calls, against one that stays where it is.
use blockrouter.Prelude.{
  ◌⊎◌, inl, inr, ℕ, ◌+◌, ◌-◌, ◌^◌, ◌≤◌, ◌<◌, ◌≡◌, refl, sym, ap, ◌∙◌, arith, Option, none, some,
  List, [], ◌∷◌, length, All, ◌>>=◌,
}
use blockrouter.Crypto
use blockrouter.Crypto.{Mbedtls, CryptMode}
use blockrouter.Crypto.Channel.{process_all, some_bytes}
use blockrouter.Crypto.Placed.{
  MbedAesContext, Library, Cryptor, zeroed, solidify_off, update_rk, process, start_crypto,
}
use native.Mathlib.Nat.{mod-eq_of_lt}

-- The size of a context, and an address that has room for one.
abbrev pub size : ℕ
size = 288

abbrev pub IsAddress : ℕ → Type 0
IsAddress self = self + size ≤ 2 ^ 64

-- What the code relies on: the key schedule is at a pointer into the context, and a call reads the
-- context through it, wherever the context is. The library knows no `off`.
pub record IsRelative (M : Library) : Type 0 where
  pub inside :
      (self : ℕ) (ctx ctx' : MbedAesContext) (key : List ℕ)
      → M.setkey_enc self ctx key ≡ some ctx'
      → (self ≤ ctx'.rk) × (ctx'.rk < self + size)
  pub relative :
      (self other at : ℕ) (ctx : MbedAesContext) (off : ℕ) (mode : CryptMode) (iv msg : List ℕ)
      → at < size
      → M.crypt_cfb8 self (record ctx { rk = self + at }) mode iv msg
        ≡ M.crypt_cfb8 other (record ctx { rk = other + at; off = off }) mode iv msg

returned : {A : Type 0} (o : Option A) → (o ≡ none) ⊎ ((r : A) × (o ≡ some r))
returned none = inl refl
returned (some r) = inr (r, refl)

module _ (M : Library) where
  -- The library on a context that stays at one address, as it wants it.
  abbrev pub fixed : ℕ → Mbedtls
  fixed self = record {
    Context = MbedAesContext;
    setkey_enc = M.setkey_enc self zeroed;
    crypt_cfb8 = M.crypt_cfb8 self;
  }

  -- Messages, one after the other, each with the address at which its call finds the context.
  unfoldable pub process_moving : Cryptor → List (ℕ × List ℕ) → Option (List (List ℕ))
  process_moving k [] = some []
  process_moving k ((self, m) ∷ calls) = do
    (k', out) ← process M self k m
    outs ← process_moving k' calls
    some (out ∷ outs)

  unfoldable pub messages : List (ℕ × List ℕ) → List (List ℕ)
  messages [] = []
  messages ((self, m) ∷ calls) = m ∷ messages calls

  unfoldable pub addresses : List (ℕ × List ℕ) → List ℕ
  addresses [] = []
  addresses ((self, m) ∷ calls) = self ∷ addresses calls

  module _ (R : IsRelative M) (first : ℕ) (ctx : MbedAesContext) (at : ℕ) (inside : at < size)
      (points : ctx.rk ≡ first + at) (mode : CryptMode) where
    abbrev moved : ℕ → List ℕ → Cryptor
    moved rk iv = record {
      c = some (record { ctx = record ctx { rk = rk; off = at }; iv = iv });
      mode = mode;
    }

    abbrev in_place : List ℕ → Crypto.Cryptor (fixed first)
    in_place iv = record { c = some (record { ctx = ctx; iv = iv }); mode = mode }

    repaired :
        (self : ℕ)
        → IsAddress self
        → (rk : ℕ)
        → update_rk self (record ctx { rk = rk; off = at })
          ≡ record ctx { rk = self + at; off = at }
    unfolding update_rk
    repaired self fits rk = ap (λ r. record ctx { rk = r; off = at }) (mod-eq_of_lt (omega arith))

    same_call :
        (self : ℕ)
        → IsAddress self
        → (rk : ℕ) (iv m : List ℕ)
        → M.crypt_cfb8 self (update_rk self (record ctx { rk = rk; off = at })) mode iv m
          ≡ M.crypt_cfb8 first ctx mode iv m
    same_call self fits rk iv m =
        ap (λ c. M.crypt_cfb8 self c mode iv m) (repaired self fits rk)
        ∙ sym (R.relative first self at ctx at mode iv m inside)
        ∙ ap (λ r. M.crypt_cfb8 first (record ctx { rk = r }) mode iv m) (sym points)

    moving-fixed :
        (rk : ℕ) (iv : List ℕ) (calls : List (ℕ × List ℕ))
        → All IsAddress (addresses calls)
        → process_moving (moved rk iv) calls
          ≡ process_all (fixed first) (in_place iv) (messages calls)
    unfolding process_moving process_all messages addresses process Crypto.process
    moving-fixed rk iv [] fits = refl
    moving-fixed rk iv ((self, []) ∷ calls) fits = rw (moving-fixed rk iv calls fits.1) refl
    moving-fixed rk iv ((self, x ∷ xs) ∷ calls) fits =
        elim (returned (M.crypt_cfb8 first ctx mode iv (x ∷ xs))) [
          | inl fails ↦
              rw (some_bytes (length xs), same_call self fits.0 rk iv (x ∷ xs), fails) refl
          | inr (r, e) ↦
              rw
                (
                  some_bytes (length xs),
                  same_call self fits.0 rk iv (x ∷ xs),
                  e,
                  repaired self fits.0 rk,
                  moving-fixed (self + at) r.0 calls fits.1,
                )
                refl
        ]

  solidified :
      (R : IsRelative M) (first : ℕ) (ctx : MbedAesContext) (at : ℕ)
      → at < size
      → ctx.rk ≡ first + at
      → IsAddress first
      → solidify_off first ctx ≡ record ctx { off = at }
  unfolding solidify_off
  solidified R first ctx at inside points fits =
      ap (λ o. record ctx { off = o }) (omega (arith, points))

  -- For a library that reads the context through its pointer, which points into the context, and
  -- for any key, mode, messages and addresses with room for a context: a cryptor that is made at the
  -- first address and found at another one by each call gives, panics included, what it gives where
  -- the context never moves and no pointer is repaired.
  pub moving-in_place :
      (R : IsRelative M) (first : ℕ) (mode : CryptMode) (key : List ℕ) (calls : List (ℕ × List ℕ))
      → IsAddress first
      → All IsAddress (addresses calls)
      → (start_crypto M first (record { c = none; mode = mode }) key >>= λ k.
          process_moving k calls)
        ≡ (Crypto.start_crypto (fixed first) (record { c = none; mode = mode }) key >>= λ k.
            process_all (fixed first) k (messages calls))
  unfolding start_crypto Crypto.start_crypto
  moving-in_place R first mode key calls here fits =
      elim (returned (M.setkey_enc first zeroed key)) [
        | inl fails ↦ rw fails refl
        | inr (ctx, e) ↦
            let (low, high) = R.inside first zeroed ctx key e in
            let at = ctx.rk - first in
            let points : ctx.rk ≡ first + at = omega arith in
            rw (e, solidified R first ctx at (omega arith) points here)
              (moving-fixed R first ctx at (omega arith) points mode ctx.rk key calls fits)
      ]
