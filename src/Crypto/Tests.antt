-- ===== src/Crypto/Tests.antt =====
-- A cipher that adds the first byte of the key, for one shared key.
use blockrouter.Prelude.{
  ℕ, ◌+◌, ◌-◌, ◌≡◌, refl, ap, arith, some, List, [], ◌∷◌, ◌++◌, concat, map, length, suc, ◌>>=◌,
}
use blockrouter.Prelude as Prelude
use mathlib.Core.Option.{some-injective}
use blockrouter.Crypto
use blockrouter.Crypto.{Mbedtls, CryptMode, encrypt, decrypt, start_crypto}
use blockrouter.Crypto.Channel.{IsCfb8, process_all, decrypt-encrypt}
use blockrouter.Prelude.{◌≤◌, ◌<◌}
use blockrouter.Crypto.Placed
use blockrouter.Crypto.Placed.{MbedAesContext, Library}
use blockrouter.Crypto.Moves.{
  IsRelative, fixed, process_moving, addresses, messages, moving-in_place,
}

abbrev crypt : ℕ → CryptMode → List ℕ → List ℕ → Prelude.Option (List ℕ × List ℕ)
crypt k encrypt iv msg = some (iv, map (λ b. b + k) msg)
crypt k decrypt iv msg = some (iv, map (λ b. b - k) msg)

abbrev shift : Mbedtls
shift = record { Context = ℕ; setkey_enc = λ key. some (length key); crypt_cfb8 = crypt }

add-sub : (k b : ℕ) → b + k - k ≡ b
add-sub k b = omega arith

back : (k : ℕ) (msg : List ℕ) → map (λ b. b - k) (map (λ b. b + k) msg) ≡ msg
back k [] = refl
back k (b ∷ bs) = rw (add-sub k b, back k bs) refl

length-map : (k : ℕ) (msg : List ℕ) → length (map (λ b. b + k) msg) ≡ length msg
length-map k [] = refl
length-map k (b ∷ bs) = ap suc (length-map k bs)

map-append :
    (k : ℕ) (xs ys : List ℕ)
    → map (λ b. b + k) (xs ++ ys) ≡ map (λ b. b + k) xs ++ map (λ b. b + k) ys
map-append k [] ys = refl
map-append k (x ∷ xs) ys = ap (λ l. (x + k) ∷ l) (map-append k xs ys)

shift-IsCfb8 : IsCfb8 shift
shift-IsCfb8 = record {
  cipher = λ ctx iv msg. map (λ b. b + ctx) msg;
  next_iv = λ ctx iv msg. iv;
  encrypts = λ ctx iv msg. refl;
  decrypts = λ ctx iv msg. rw (back ctx msg) refl;
  streams = λ ctx iv xs ys. map-append ctx xs ys;
  keeps_length = λ ctx iv msg. length-map ctx msg;
}

decrypt-encrypt_example :
    (wire : List (List ℕ)) × ((start_crypto shift (Crypto.new_encrypt shift) (1 ∷ 2 ∷ 3 ∷ [])
        >>= λ sender. process_all shift sender ((7 ∷ 8 ∷ []) ∷ [] ∷ (9 ∷ []) ∷ []))
      ≡ some wire)
    × (concat wire ≡ 10 ∷ 11 ∷ 12 ∷ [])
    × ((start_crypto shift (Crypto.new_decrypt shift) (1 ∷ 2 ∷ 3 ∷ []) >>= λ receiver.
          process_all shift receiver wire)
        ≡ some ((7 ∷ 8 ∷ []) ∷ [] ∷ (9 ∷ []) ∷ []))
unfolding shift-IsCfb8
decrypt-encrypt_example =
    decrypt-encrypt shift shift-IsCfb8 (1 ∷ 2 ∷ 3 ∷ []) 3 ((7 ∷ 8 ∷ []) ∷ [] ∷ (9 ∷ []) ∷ []) refl

-- A cipher that adds the distance of the key schedule from the context.
abbrev by_distance : Library
by_distance = record {
  setkey_enc = λ self ctx key. some (record ctx { rk = self + 16 });
  crypt_cfb8 = λ self ctx mode iv msg. some (iv, map (λ b. b + (ctx.rk - self)) msg);
}

distance : (self at : ℕ) → self + at - self ≡ at
distance self at = omega arith

by_distance-IsRelative : IsRelative by_distance
by_distance-IsRelative = record {
  inside = λ self ctx ctx' key e. placed self ctx ctx' e;
  relative = λ self other at ctx off mode iv msg h. rw (distance self at, distance other at) refl;
}
  where
    placed :
        (self : ℕ) (ctx ctx' : MbedAesContext)
        → some (record ctx { rk = self + 16 }) ≡ some ctx'
        → (self ≤ ctx'.rk) × (ctx'.rk < self + 288)
    placed self ctx ctx' e =
        let at : self + 16 ≡ ctx'.rk = ap (λ (c : MbedAesContext). c.rk) (some-injective _ _ e) in
        (omega (arith, at), omega (arith, at))

moving-in_place_example :
    (Placed.start_crypto by_distance 4096 Placed.new_encrypt (1 ∷ 2 ∷ []) >>= λ k.
    process_moving by_distance k ((8192, 7 ∷ []) ∷ (0, []) ∷ (64, 8 ∷ 9 ∷ []) ∷ []))
    ≡ (start_crypto
          (fixed by_distance 4096)
          (Crypto.new_encrypt (fixed by_distance 4096))
          (1 ∷ 2 ∷ [])
        >>= λ k. process_all (fixed by_distance 4096) k ((7 ∷ []) ∷ [] ∷ (8 ∷ 9 ∷ []) ∷ []))
unfolding Placed.new_encrypt Crypto.new_encrypt addresses messages
moving-in_place_example =
    moving-in_place by_distance by_distance-IsRelative 4096 encrypt (1 ∷ 2 ∷ [])
      ((8192, 7 ∷ []) ∷ (0, []) ∷ (64, 8 ∷ 9 ∷ []) ∷ []) (omega arith)
      (omega arith, (omega arith, (omega arith, tt)))
