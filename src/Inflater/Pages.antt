-- ===== src/Inflater/Pages.antt =====
-- src/inflater.rs: what `inflate` owes for a packet, and the pages that it makes of the compressed
-- bytes.
use blockrouter.Prelude.{
  concat, ℕ, ◌+◌, ◌-◌, ◌%◌, ◌^◌, ◌<◌, ◌≡◌, refl, sym, ap, ◌∙◌, ◌⊎◌, inl, inr, Bool, true, false,
  some, arith, List, [], ◌∷◌, ◌++◌, length, map, take, All, ◌==◌, length-append,
}
use mathlib.Core.Path.{subst}
use blockrouter.Prelude.Signed.{ltb_ℤ, to_i32}
use blockrouter.DirectBuf.{DirectBuf, IsLawful}
use blockrouter.Buf.{BufMethods, IsDocumented}
use blockrouter.Cursor
use blockrouter.Cursor.{Cursor, Multibytes}
use blockrouter.Cursor.Position.{flat, unread, offset, unread-offset}
use blockrouter.Cursor.Read.{IsReadable, length-unread}
use blockrouter.Cursor.Split.{split_to-Splits}
use blockrouter.Parser.Scan.{Scan, done, short, long, value}
use blockrouter.Zlib.{ZLibError, ZlibOperator}
use blockrouter.Compress
use blockrouter.Compress.{ProcessResult}
use blockrouter.Compress.Streams.{Lawful, Sound, Reported, EndsShort, Fits}
use blockrouter.Compress.Run.{process-Sound}
use blockrouter.Inflater
use blockrouter.Inflater.{
  InflateState, PacketInflater, InflateResult, ok, err, cursor, multibytes,
  compression_size_decode_fail, small_compression, zlib_error,
}

module _ (D : DirectBuf) (L : IsLawful D) where
  concat-as_ref : (pages : List D.T) → concat (map D.as_ref pages) ≡ flat D pages
  concat-as_ref [] = refl
  concat-as_ref (p ∷ pages) = rw (L.as_ref-bytes p, concat-as_ref pages) refl

  pages_below :
      (n : ℕ) (pages : List D.T)
      → length (flat D pages) < n
      → All (λ p. length p < n) (map D.as_ref pages)
  pages_below n [] h = tt
  pages_below n (p ∷ pages) h =
      let both = length-append (D.bytes p) (flat D pages) in
      (
        omega (arith, both, ap (λ (l : List ℕ). length l) (L.as_ref-bytes p)),
        pages_below n pages (omega (arith, both)),
      )

length-map {ℓ κ} :
    {A : Type ℓ} {B : Type κ} (f : A → B) (xs : List A) → length (map f xs) ≡ length xs
length-map f [] = refl
length-map f (x ∷ xs) = omega (arith, length-map f xs)

module _ (D : DirectBuf) (Z : ZlibOperator) (Lz : Lawful Z) (capacity : ℕ) (st : InflateState Z)
    (mb : Multibytes D) where
  abbrev pub kept : PacketInflater Z
  kept = record { inflate = some st }

  abbrev pub with_state : Z.S → PacketInflater Z
  with_state s = record { inflate = some (record st { inflater = s }) }

  -- A header and pages that the operator made of the bytes `rest` behind it.
  pub record IsUnpacked (rest : List ℕ) (s : Z.S) (header : Multibytes D) (pages : List (List ℕ))
      : Type 0 where
    pub header_bytes : flat D header.b ≡ take (length (flat D mb.b) - length rest) (flat D mb.b)
    pub all_read : Lz.given s ≡ Lz.given st.inflater ++ rest
    pub all_written : Lz.gave s ≡ Lz.gave st.inflater ++ concat pages
    pub fits : All (Fits Z Lz capacity) pages
    pub settles : EndsShort capacity pages → Lz.settled s

  abbrev pub Unpacked : List ℕ → PacketInflater Z × InflateResult D → Type 0
  Unpacked rest r =
      ((s : Z.S) × (header : Multibytes D) × (pages : List (List ℕ)) × (r
          ≡ (with_state s, ok (record { h = header; d = multibytes pages })))
        × IsUnpacked rest s header pages)
      ⊎ ((s : Z.S) × (e : ZLibError) × (r ≡ (with_state s, err (zlib_error e)))
          × Reported Z Lz capacity (Lz.given st.inflater ++ rest) s e)

  -- By the size: whether it is 0, and whether it is below the threshold.
  abbrev pub Sized : Bool → Bool → List ℕ → PacketInflater Z × InflateResult D → Type 0
  Sized true below rest r =
      (c : Cursor) × (r ≡ (kept, ok (record { h = mb; d = cursor c }))) × (unread D mb.b c ≡ rest)
  Sized false true rest r = r ≡ (kept, err small_compression)
  Sized false false rest r = Unpacked rest r

  -- By the number at the cursor, and the bytes behind it.
  abbrev pub Owed : Scan → PacketInflater Z × InflateResult D → Type 0
  Owed short r = r ≡ (kept, err compression_size_decode_fail)
  Owed long r = r ≡ (kept, err compression_size_decode_fail)
  Owed (done gs rest) r =
      let size = value gs % 2 ^ 32 in Sized (size == 0) (ltb_ℤ (to_i32 size) st.threshold) rest r

module _ (M : BufMethods) (doc : IsDocumented M) (D : DirectBuf) (L : IsLawful D) (Z : ZlibOperator)
    (Lz : Lawful Z) (capacity fuel : ℕ) (st : InflateState Z) (mb : Multibytes D) where
  with_data-Unpacked :
      (rest : List ℕ) (header : Multibytes D) (r : ProcessResult Z.S)
      → flat D header.b ≡ take (length (flat D mb.b) - length rest) (flat D mb.b)
      → Sound Z Lz capacity (Lz.given st.inflater ++ rest) (Lz.gave st.inflater) r
      → Unpacked D Z Lz capacity st mb rest (Inflater.with_data M D Z st header r)
  unfolding Inflater.with_data Sound
  with_data-Unpacked rest header (ProcessResult.ok s pages) h sound = inl (
    s,
    header,
    pages,
    refl,
    record {
      header_bytes = h;
      all_read = sound.0;
      all_written = sound.1.0;
      fits = sound.1.1;
      settles = sound.2;
    },
  )
  with_data-Unpacked rest header (ProcessResult.err s e) h sound = inr (s, e, refl, sound)
  with_data-Unpacked rest header ProcessResult.stuck h sound = absurd sound

  splits-run :
      (header back : Multibytes D) (c : Cursor)
      → Cursor.split_to D mb c ≡ some (header, back)
      → Inflater.decompress M D Z capacity fuel st (mb, c)
        ≡ Inflater.with_data M D Z st header
            (Compress.process Z capacity fuel st.inflater (map D.as_ref back.b))
  unfolding Inflater.decompress
  splits-run header back c cut = rw (Inflater.decompress, cut) refl

  pub decompress-Unpacked :
      (c : Cursor)
      → IsReadable D mb.b c
      → length (flat D mb.b) < 2 ^ 32
      → 0 < capacity
      → capacity < 2 ^ 32
      → Lz.todo st.inflater (unread D mb.b c) + length mb.b < fuel
      → Lz.goes_on st.inflater (unread D mb.b c)
      → Unpacked D Z Lz capacity st mb
          (unread D mb.b c)
          (Inflater.decompress M D Z capacity fuel st (mb, c))
  decompress-Unpacked c good small room word enough on =
      let (header, back, cut, s) = split_to-Splits D L mb c good.aligned good.inside in
      let rest = unread D mb.b c in
      let behind : flat D back.b ≡ rest = s.back_bytes ∙ sym (unread-offset D mb.b c) in
      let input : concat (map D.as_ref back.b) ≡ rest = concat-as_ref D L back.b ∙ behind in
      let left = length-unread D mb.b c in
      let position : offset D mb.b c ≡ length (flat D mb.b) - length rest =
        omega (arith, left, good.within) in
      let sound =
        process-Sound Z Lz capacity fuel st.inflater (map D.as_ref back.b) room word
          (pages_below D L (2 ^ 32) back.b
            (omega (arith, left, ap (λ (l : List ℕ). length l) behind)))
          (omega (arith, s.back_pages, length-map D.as_ref back.b, ap (Lz.todo st.inflater) input))
          (subst (Lz.goes_on st.inflater) (sym input) on) in
      subst (Unpacked D Z Lz capacity st mb rest) (sym (splits-run header back c cut)) (
        with_data-Unpacked rest header
          (Compress.process Z capacity fuel st.inflater (map D.as_ref back.b))
          (s.front_bytes ∙ ap (λ (n : ℕ). take n (flat D mb.b)) position)
          (subst
            (λ i.
              Sound Z Lz capacity (Lz.given st.inflater ++ i) (Lz.gave st.inflater)
                (Compress.process Z capacity fuel st.inflater (map D.as_ref back.b)))
            input sound))
