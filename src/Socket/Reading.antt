-- ===== src/Socket/Reading.antt =====
-- src/socket.rs: what `ConnectionSource::read` receives.
use blockrouter.Prelude.{
  ℕ, ◌+◌, ◌≤◌, ◌<◌, ◌≡◌, refl, ap, ◌∙◌, ◌⊎◌, inl, inr, arith, List, [], ◌∷◌, ◌++◌, take, drop,
  length, length-append, length-drop, Bool-cases, ◌==◌, false,
}
use blockrouter.DirectBuf.{DirectBuf, IsLawful}
use blockrouter.Socket.{
  ReadHalf, received, eof, ReadOutcome, read_ok, read_err, panicked, after_read, cut_off, read,
}

take_whole : (xs : List ℕ) (n : ℕ) → n ≡ length xs → take n xs ≡ xs
take_whole [] n h = rw h refl
take_whole (x ∷ xs) n h =
    ap (λ k. take k (x ∷ xs)) h ∙ ap (λ l. x ∷ l) (take_whole xs (length xs) refl)

none_of : (xs : List ℕ) → length xs ≡ 0 → xs ≡ []
none_of [] h = refl
none_of (x ∷ xs) h = absurd (omega arith)

module _ (D : DirectBuf) (L : IsLawful D) (H : ReadHalf D.T) where
  -- `read_buf` into a buffer that grows, like `BytesMut`: what comes in is put behind what is there,
  -- and counted.
  pub record IsGrowing : Type 0 where
    pub incoming : H.R → D.T → List ℕ
    pub appends : (r : H.R) (b : D.T) → D.bytes (H.read_buf r b).1.0 ≡ D.bytes b ++ incoming r b
    pub counted :
        (r : H.R) (b : D.T) (n : ℕ) → (H.read_buf r b).1.1 ≡ inr n → n ≡ length (incoming r b)

  -- A result, where `bytes` came in behind `old` ones: as many bytes as came in, off the front of all
  -- of them, and no byte is the end.
  abbrev pub Receives : List ℕ → List ℕ → ReadOutcome D.T H.E → Type 0
  Receives old bytes (read_ok (received b)) =
      (D.bytes b ≡ take (length bytes) (old ++ bytes)) × (0 < length bytes)
  Receives old bytes (read_ok eof) = bytes ≡ []
  Receives old bytes (read_err e) = Unit
  Receives old bytes panicked = ⊥

  module _ (I : IsGrowing) where
    after_read-Receives :
        (old bytes : List ℕ) (run : H.R × (D.T × (H.E ⊎ ℕ)))
        → D.bytes run.1.0 ≡ old ++ bytes
        → ((n : ℕ) → run.1.1 ≡ inr n → n ≡ length bytes)
        → Receives old bytes (after_read D H run).1
    unfolding after_read
    after_read-Receives old bytes (r, (b, inl e)) all counted = tt
    after_read-Receives old bytes (r, (b, inr n)) all counted = elim (Bool-cases (n == 0)) [
      | inl nothing ↦ rw nothing (none_of bytes (ground (arith, counted n refl)))
      | inr something ↦
          let size = ap (λ (l : List ℕ). length l) all in
          let (cut, e, front) =
            L.truncate_returns b n
              (omega (arith, L.remaining-bytes b, size, length-append old bytes, counted n refl)) in
          rw (something, e)
            (
              front ∙ ap (take n) all ∙ ap (λ k. take k (old ++ bytes)) (counted n refl),
              ground (arith, counted n refl),
            )
    ]

    -- read with a buffer that grows: it does not panic, and it answers an error, the end if no byte
    -- came in, or a buffer of as many bytes as came in, off the front of the bytes that the buffer
    -- held before and those that came in. From an empty buffer these are the bytes that came in.
    pub read-Receives :
        (r : H.R) (b : D.T)
        → Receives (D.bytes b) (I.incoming r b) (read D H r b).1
          × (D.bytes b ≡ []
              → take (length (I.incoming r b)) (D.bytes b ++ I.incoming r b) ≡ I.incoming r b)
    unfolding read
    read-Receives r b = (
      after_read-Receives (D.bytes b) (I.incoming r b) (H.read_buf r b) (I.appends r b)
          (I.counted r b),
      λ empty.
          ap (λ l. take (length (I.incoming r b)) (l ++ I.incoming r b)) empty
          ∙ take_whole (I.incoming r b) (length (I.incoming r b)) refl,
    )

  -- read with a buffer whose `advance_mut` moves it past what came in, as a part of a memory pool
  -- does: the `n` bytes that it answers are those behind the `n` bytes that came in.
  read_past :
      (r r' : H.R) (b b' : D.T) (n : ℕ)
      → H.read_buf r b ≡ (r', (b', inr n))
      → D.bytes b' ≡ drop n (D.bytes b)
      → 0 < n
      → n + n ≤ length (D.bytes b)
      → (cut : D.T) × (read D H r b ≡ (r', read_ok (received cut)))
        × (D.bytes cut ≡ take n (drop n (D.bytes b)))
  unfolding read after_read cut_off
  read_past r r' b b' n run past some_read room =
      let size = ap (λ (l : List ℕ). length l) past in
      let left = length-drop n (D.bytes b) in
      let (cut, e, front) =
        L.truncate_returns b' n (omega (arith, L.remaining-bytes b', size, left)) in
      let something : (n == 0) ≡ false = ground arith in
      (cut, rw (run, something, e) refl, front ∙ ap (take n) past)
