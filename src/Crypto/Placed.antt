-- ===== src/Crypto/Placed.antt =====
-- src/mbedtls.rs and src/crypto.rs with the addresses: a context points into itself, and the code
-- repairs the pointer since Rust may move it.
use blockrouter.Prelude.{
  ℕ, zero, suc, ◌+◌, ◌-◌, ◌%◌, ◌^◌, ◌==◌, Option, none, some, List, [], ◌∷◌, length, if◌then◌else◌,
  ◌>>=◌,
}
use blockrouter.Crypto.{CryptMode, encrypt, decrypt}

pub record MbedAesContext : Type 0 where
  pub nr : ℕ
  pub rk : ℕ
  pub buf : List ℕ
  pub off : ℕ

-- The library's functions on the context at an address; `none` is a return value other than 0.
pub record Library : Type 0 where
  pub setkey_enc : ℕ → MbedAesContext → List ℕ → Option MbedAesContext
  pub crypt_cfb8 : ℕ → MbedAesContext → CryptMode → List ℕ → List ℕ → Option (List ℕ × List ℕ)

pub record AesCryptCfb8 : Type 0 where
  pub ctx : MbedAesContext
  pub iv : List ℕ

pub record Cryptor : Type 0 where
  pub c : Option AesCryptCfb8
  pub mode : CryptMode

unfoldable pub words : ℕ → List ℕ
words zero = []
words (suc n) = 0 ∷ words n

-- `MaybeUninit::zeroed()`
unfoldable pub zeroed : MbedAesContext
zeroed = record { nr = 0; rk = 0; buf = words 68; off = 0 }

-- The `usize` arithmetic wraps around.
unfoldable pub solidify_off : ℕ → MbedAesContext → MbedAesContext
solidify_off self ctx = record ctx { off = (ctx.rk + 2 ^ 64 - self) % 2 ^ 64 }

unfoldable pub update_rk : ℕ → MbedAesContext → MbedAesContext
update_rk self ctx = record ctx { rk = (self + ctx.off) % 2 ^ 64 }

unfoldable pub new_encrypt : Cryptor
new_encrypt = record { c = none; mode = encrypt }

unfoldable pub new_decrypt : Cryptor
new_decrypt = record { c = none; mode = decrypt }

-- The address is that of the context during the call.
module _ (M : Library) (self : ℕ) where
  unfoldable pub new : List ℕ → Option AesCryptCfb8
  unfolding zeroed solidify_off
  new key = M.setkey_enc self zeroed key >>= λ ctx.
      some (record { ctx = solidify_off self ctx; iv = key })

  -- The pointer is repaired first.
  unfoldable pub aes_process : AesCryptCfb8 → List ℕ → CryptMode → Option (AesCryptCfb8 × List ℕ)
  unfolding update_rk
  aes_process a msg mode =
      let ctx = update_rk self a.ctx in
      let crypted = M.crypt_cfb8 self ctx mode a.iv msg >>= λ (iv', msg').
      some (record { ctx = ctx; iv = iv' }, msg') in
      if length msg == 0 then some (a, msg) else crypted

  unfoldable pub process : Cryptor → List ℕ → Option (Cryptor × List ℕ)
  unfolding aes_process
  process k msg = elim k.c [
    | none ↦ some (k, msg)
    | some a ↦ aes_process a msg k.mode >>= λ (a', msg'). some (record k { c = some a' }, msg')
  ]

  unfoldable pub start_crypto : Cryptor → List ℕ → Option Cryptor
  unfolding new
  start_crypto k key = new key >>= λ a. some (record k { c = some a })
