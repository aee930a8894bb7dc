-- ===== src/Compress/RoundTrip.antt =====
-- src/compress.rs: a `Deflater` at one end and an `Inflater` at the other, packet by packet.
use blockrouter.Prelude.{concat, ℕ, ◌≡◌, sym, ap, ◌∙◌, List, ◌++◌, length, drop, drop-length, All}
use blockrouter.Zlib.{ZlibOperator}
use blockrouter.Compress.{ProcessResult, ok}
use blockrouter.Compress.Streams.{Lawful, Sound, EndsShort, Fits}

-- What zlib documents of its two directions: where the one has written out all it was given, and the
-- other, having read exactly that, has as well, the other wrote what the one was given.
pub record AreInverse (Zd Zi : ZlibOperator) (Ld : Lawful Zd) (Li : Lawful Zi) : Type 1 where
  pub undoes :
      (d : Zd.S) (i : Zi.S)
      → Ld.settled d
      → Li.settled i
      → Li.given i ≡ Ld.gave d
      → Li.gave i ≡ Ld.given d

same_back : (front xs ys : List ℕ) → front ++ xs ≡ front ++ ys → xs ≡ ys
same_back front xs ys e =
    sym (drop-length front xs) ∙ ap (drop (length front)) e ∙ drop-length front ys

module _ (Zd Zi : ZlibOperator) (Ld : Lawful Zd) (Li : Lawful Zi) where
  -- The inflater has read what the deflater wrote, and written what the deflater read.
  pub record InStep (d : Zd.S) (i : Zi.S) : Type 0 where
    pub wire : Li.given i ≡ Ld.gave d
    pub plain : Li.gave i ≡ Ld.given d

  pub from_Sound :
      (Z : ZlibOperator) (L : Lawful Z) (capacity : ℕ) (G O : List ℕ) (r : ProcessResult Z.S)
      {s : Z.S} {out : List (List ℕ)}
      → Sound Z L capacity G O r
      → r ≡ ok s out
      → (L.given s ≡ G)
        × ((L.gave s ≡ O ++ concat out) × All (Fits Z L capacity) out)
        × (EndsShort capacity out → L.settled s)
  unfolding Sound
  from_Sound Z L capacity G O r sound e = rw e at sound

  -- What both ends have read and written, once both are settled.
  pub undone :
      (d d' : Zd.S) (i i' : Zi.S) (pages out back : List (List ℕ))
      → AreInverse Zd Zi Ld Li
      → InStep d i
      → (Ld.given d' ≡ Ld.given d ++ concat pages) × (Ld.gave d' ≡ Ld.gave d ++ concat out)
      → (Li.given i' ≡ Li.given i ++ concat out) × (Li.gave i' ≡ Li.gave i ++ concat back)
      → Ld.settled d'
      → Li.settled i'
      → (concat back ≡ concat pages) × InStep d' i'
  undone d d' i i' pages out back inverse step (given, wrote) (given', wrote') flushed flushed' =
      let wire : Li.given i' ≡ Ld.gave d' =
        given' ∙ ap (λ l. l ++ concat out) step.wire ∙ sym wrote in
      let plain : Li.gave i' ≡ Ld.given d' = inverse.undoes d' i' flushed flushed' wire in
      (
        same_back (Li.gave i) (concat back) (concat pages)
            (sym wrote' ∙ plain ∙ given ∙ ap (λ l. l ++ concat pages) (sym step.plain)),
        record { wire = wire; plain = plain },
      )
