-- ===== src/Crypto.antt =====
-- src/mbedtls.rs: `AesCryptCfb8`, and src/crypto.rs: `Cryptor`, on top of it. The library mbedtls is
-- a parameter.
pub mod Channel
pub mod Placed
pub mod Moves
mod Tests
use blockrouter.Prelude.{ℕ, Bool, Option, none, some, List, length, ◌==◌, if◌then◌else◌, ◌>>=◌}

pub data CryptMode : Type 0 where
  encrypt : CryptMode
  decrypt : CryptMode

-- `mbedtls_aes_setkey_enc` and `mbedtls_aes_crypt_cfb8`; `none` is a return value other than 0. The
-- second gives the initialisation vector and the data as it leaves them.
pub record Mbedtls : Type 1 where
  pub Context : Type 0
  pub setkey_enc : List ℕ → Option Context
  pub crypt_cfb8 : Context → CryptMode → List ℕ → List ℕ → Option (List ℕ × List ℕ)

module _ (M : Mbedtls) where
  -- The context is a value here, so the pointer into itself that the source repairs has no part.
  pub record AesCryptCfb8 : Type 0 where
    pub ctx : M.Context
    pub iv : List ℕ

  pub record Cryptor : Type 0 where
    pub c : Option AesCryptCfb8
    pub mode : CryptMode

module _ (M : Mbedtls) where
  -- The key is the first initialisation vector too. `none` is the panic of `assert!`.
  unfoldable pub new : List ℕ → Option (AesCryptCfb8 M)
  new key = M.setkey_enc key >>= λ ctx. some (record { ctx = ctx; iv = key })

  -- The cipher afterwards, and the data.
  unfoldable pub aes_process :
      AesCryptCfb8 M → List ℕ → CryptMode → Option (AesCryptCfb8 M × List ℕ)
  aes_process a msg mode =
      let crypted =
        M.crypt_cfb8 a.ctx mode a.iv msg >>= λ (iv', msg'). some (record a { iv = iv' }, msg') in
      if length msg == 0 then some (a, msg) else crypted

  unfoldable pub new_encrypt : Cryptor M
  new_encrypt = record { c = none; mode = encrypt }

  unfoldable pub new_decrypt : Cryptor M
  new_decrypt = record { c = none; mode = decrypt }

  unfoldable pub process : Cryptor M → List ℕ → Option (Cryptor M × List ℕ)
  unfolding aes_process
  process k msg = elim k.c [
    | none ↦ some (k, msg)
    | some a ↦ aes_process a msg k.mode >>= λ (a', msg'). some (record k { c = some a' }, msg')
  ]

  unfoldable pub start_crypto : Cryptor M → List ℕ → Option (Cryptor M)
  unfolding new
  start_crypto k key = new key >>= λ a. some (record k { c = some a })
