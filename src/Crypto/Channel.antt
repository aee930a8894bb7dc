-- ===== src/Crypto/Channel.antt =====
-- src/crypto.rs: an encrypting and a decrypting `Cryptor` at the two ends of a connection.
use blockrouter.Prelude.{
  ℕ, suc, false, arith, ◌≡◌, refl, sym, ap, ◌∙◌, Option, some, List, [], ◌∷◌, ◌++◌, concat, length,
  ◌==◌, ◌>>=◌,
}
use blockrouter.Crypto
use blockrouter.Crypto.{
  Mbedtls, CryptMode, encrypt, decrypt, AesCryptCfb8, Cryptor, process, start_crypto,
}

-- What mbedtls documents of CFB8: both directions succeed with a valid key, keep the length, leave
-- the same initialisation vector, and the one undoes the other; and it is a stream mode: a message in
-- two pieces is encrypted as the whole, where the second goes on with the vector that the first left.
pub record IsCfb8 (M : Mbedtls) : Type 0 where
  pub cipher : M.Context → List ℕ → List ℕ → List ℕ
  pub next_iv : M.Context → List ℕ → List ℕ → List ℕ
  pub encrypts :
      (ctx : M.Context) (iv msg : List ℕ)
      → M.crypt_cfb8 ctx encrypt iv msg ≡ some (next_iv ctx iv msg, cipher ctx iv msg)
  pub decrypts :
      (ctx : M.Context) (iv msg : List ℕ)
      → M.crypt_cfb8 ctx decrypt iv (cipher ctx iv msg) ≡ some (next_iv ctx iv msg, msg)
  pub streams :
      (ctx : M.Context) (iv xs ys : List ℕ)
      → cipher ctx iv (xs ++ ys) ≡ cipher ctx iv xs ++ cipher ctx (next_iv ctx iv xs) ys
  pub keeps_length : (ctx : M.Context) (iv msg : List ℕ) → length (cipher ctx iv msg) ≡ length msg

pub some_bytes : (n : ℕ) → (suc n == 0) ≡ false
some_bytes n = ground arith

module _ (M : Mbedtls) where
  -- Messages, one after the other.
  unfoldable pub process_all : Cryptor M → List (List ℕ) → Option (List (List ℕ))
  process_all k [] = some []
  process_all k (m ∷ ms) = do (k', out) ← process M k m; outs ← process_all k' ms; some (out ∷ outs)

  module _ (F : IsCfb8 M) where
    -- What a cipher at `a` sends for a message, and the cipher afterwards.
    sent : AesCryptCfb8 M → List ℕ → List ℕ
    sent a [] = []
    sent a (x ∷ xs) = F.cipher a.ctx a.iv (x ∷ xs)

    after : AesCryptCfb8 M → List ℕ → AesCryptCfb8 M
    after a [] = a
    after a (x ∷ xs) = record a { iv = F.next_iv a.ctx a.iv (x ∷ xs) }

    sent_all : AesCryptCfb8 M → List (List ℕ) → List (List ℕ)
    sent_all a [] = []
    sent_all a (m ∷ ms) = sent a m ∷ sent_all (after a m) ms

    abbrev cryptor : AesCryptCfb8 M → CryptMode → Cryptor M
    cryptor a mode = record { c = some a; mode = mode }

    process-encrypt :
        (a : AesCryptCfb8 M) (m : List ℕ)
        → process M (cryptor a encrypt) m ≡ some (cryptor (after a m) encrypt, sent a m)
    unfolding process sent after
    process-encrypt a [] = refl
    process-encrypt a (x ∷ xs) = rw (F.encrypts a.ctx a.iv (x ∷ xs), some_bytes (length xs)) refl

    process-decrypt :
        (a : AesCryptCfb8 M) (m : List ℕ)
        → process M (cryptor a decrypt) (sent a m) ≡ some (cryptor (after a m) decrypt, m)
    unfolding process sent after
    process-decrypt a [] = refl
    process-decrypt a (x ∷ xs) =
        rw
          (
            F.keeps_length a.ctx a.iv (x ∷ xs),
            F.decrypts a.ctx a.iv (x ∷ xs),
            some_bytes (length xs),
          )
          refl

    process_all-encrypt :
        (a : AesCryptCfb8 M) (ms : List (List ℕ))
        → process_all (cryptor a encrypt) ms ≡ some (sent_all a ms)
    unfolding process_all sent_all
    process_all-encrypt a [] = refl
    process_all-encrypt a (m ∷ ms) =
        rw (process-encrypt a m, process_all-encrypt (after a m) ms) refl

    process_all-decrypt :
        (a : AesCryptCfb8 M) (ms : List (List ℕ))
        → process_all (cryptor a decrypt) (sent_all a ms) ≡ some ms
    unfolding process_all sent_all
    process_all-decrypt a [] = refl
    process_all-decrypt a (m ∷ ms) =
        rw (process-decrypt a m, process_all-decrypt (after a m) ms) refl

    empty : (bs : List ℕ) → length bs ≡ 0 → bs ≡ []
    empty [] h = refl
    empty (b ∷ bs) h = absurd (omega arith)

    -- The messages that were sent are one stream.
    concat-sent_all :
        (a : AesCryptCfb8 M) (ms : List (List ℕ))
        → concat (sent_all a ms) ≡ F.cipher a.ctx a.iv (concat ms)
    unfolding sent_all sent after
    concat-sent_all a [] = sym (empty (F.cipher a.ctx a.iv []) (F.keeps_length a.ctx a.iv []))
    concat-sent_all a ([] ∷ ms) = concat-sent_all a ms
    concat-sent_all a ((x ∷ xs) ∷ ms) =
        ap (λ l. F.cipher a.ctx a.iv (x ∷ xs) ++ l) (concat-sent_all (after a (x ∷ xs)) ms)
        ∙ sym (F.streams a.ctx a.iv (x ∷ xs) (concat ms))

    -- With a key that mbedtls accepts, and CFB8 as it documents it: a new encrypting and a new
    -- decrypting cryptor are started with the key, any messages go through the first one after the
    -- other, and what comes out goes through the second. Nothing panics; what comes out of the first
    -- is, taken together, the one CFB8 encryption of all messages together under the key, with the key
    -- as the first initialisation vector; and the messages come back out of the second.
    pub decrypt-encrypt :
        (key : List ℕ) (ctx : M.Context) (ms : List (List ℕ))
        → M.setkey_enc key ≡ some ctx
        → (wire : List (List ℕ)) × ((do
          sender ← start_crypto M (Crypto.new_encrypt M) key
          process_all sender ms)
            ≡ some wire)
          × (concat wire ≡ F.cipher ctx key (concat ms))
          × ((do receiver ← start_crypto M (Crypto.new_decrypt M) key; process_all receiver wire)
              ≡ some ms)
    unfolding start_crypto Crypto.new_encrypt Crypto.new_decrypt
    decrypt-encrypt key ctx ms accepted =
        let a : AesCryptCfb8 M = record { ctx = ctx; iv = key } in
        (
          sent_all a ms,
          rw (accepted, process_all-encrypt a ms) refl,
          concat-sent_all a ms,
          rw (accepted, process_all-decrypt a ms) refl,
        )
