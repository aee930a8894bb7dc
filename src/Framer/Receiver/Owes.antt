-- ===== src/Framer/Receiver/Owes.antt =====
-- A framer that holds a part of some packets behind their lengths.
use blockrouter.Prelude.{
  ℕ, ◌+◌, ◌≤◌, ◌<◌, ◌^◌, ◌≡◌, sym, ap, ◌∙◌, arith, some, List, [], ◌∷◌, ◌++◌, length, take, drop,
  length-append, append_assoc, All, take-append_short, drop-append_short, take_all, drop-length,
}
use blockrouter.Buf.{BufMethods, IsDocumented}
use blockrouter.DirectBuf.{DirectBuf, IsLawful}
use blockrouter.Cursor.Split.{IsNonEmpty}
use blockrouter.Parser.Decode.{IsBytes}
use blockrouter.Parser.RoundTrip.{encode}
use blockrouter.Framer.{Framer, frame, push_buffer}
use blockrouter.Framer.Refines.{IsValid, stream}
use blockrouter.Framer.Header.{frame-Serves}
use blockrouter.Framer.Push.{push_buffer-IsValid, stream-push_buffer}
use blockrouter.Prelude.{take-append-drop}
use blockrouter.Cursor.Position.{unread-offset}
use blockrouter.Framer.Framed.{frame-Framed}
use blockrouter.Framer.Wrapped.{wrap, wrap_all, header}
use blockrouter.Framer.Receiver.{taken}

module _ (D : DirectBuf) where
  module _ (max : ℕ) where
    abbrev pub Fits : List ℕ → Type 0
    Fits p = (length p < 2 ^ 31) × (length p ≤ max)

    -- A framer that holds what is left of the packets `ps`, up to the bytes `more` that are yet to come.
    pub record Owes (ps : List (List ℕ)) (more : List ℕ) (f : Framer D) : Type 0 where
      pub valid : IsValid D f
      pub limit : f.max_frame_size ≡ max
      pub left : stream D f ++ more ≡ wrap_all ps
      pub small : length (wrap_all ps) < 2 ^ 63
      pub fits : All Fits ps

    pub push-Owes :
        (ps : List (List ℕ)) (more : List ℕ) (f : Framer D) (b : D.T)
        → IsNonEmpty D b
        → IsBytes (D.bytes b)
        → Owes ps (D.bytes b ++ more) f
        → Owes ps more (push_buffer D f b)
    push-Owes ps more f b some_bytes bytes o =
        let size = ap (λ (l : List ℕ). length l) o.left in
        record {
          valid = push_buffer-IsValid D f b o.valid some_bytes bytes (
              omega (
                arith,
                size,
                length-append (stream D f) (D.bytes b ++ more),
                length-append (D.bytes b) more,
                o.small,
              ));
          limit = unfold push_buffer in o.limit;
          left =
              ap (λ s. s ++ more) (stream-push_buffer D f b)
              ∙ append_assoc (stream D f) (D.bytes b) more
              ∙ o.left;
          small = o.small;
          fits = o.fits;
        }

    module _ (M : BufMethods) (doc : IsDocumented M) (L : IsLawful D) where
      pub waits :
          (ps : List (List ℕ)) (more : List ℕ) (f : Framer D)
          → Owes ps more f
          → stream D (frame D M f).0 ≡ stream D f
          → Owes ps more (frame D M f).0
      waits ps more f o same =
          let out = frame-Serves M doc D L f o.valid in
          record {
            valid = out.valid;
            limit = out.same_limit ∙ o.limit;
            left = ap (λ s. s ++ more) same ∙ o.left;
            small = o.small;
            fits = o.fits;
          }

      module _ (p : List ℕ) (ps : List (List ℕ)) (more : List ℕ) (f : Framer D)
          (o : Owes (p ∷ ps) more f) where
        open o use {left}

        there :
            header p + length p ≤ length (stream D f)
            → take (header p + length p) (stream D f) ≡ wrap p
        unfolding wrap wrap_all
        there enough =
            let n = header p + length p in
            let size = length-append (encode 4 (length p)) p in
            sym (take-append_short n (stream D f) more enough)
            ∙ ap (take n) left
            ∙ take-append_short n (wrap p) (wrap_all ps) (omega (arith, size))
            ∙ take_all n (wrap p) (omega (arith, size))

        behind :
            header p + length p ≤ length (stream D f)
            → drop (header p + length p) (stream D f) ++ more ≡ wrap_all ps
        unfolding wrap wrap_all encode
        behind enough =
            let n = header p + length p in
            let size = length-append (encode 4 (length p)) p in
            sym (drop-append_short n (stream D f) more enough)
            ∙ ap (drop n) left
            ∙ ap (λ k. drop k (wrap p ++ wrap_all ps)) (sym size)
            ∙ drop-length (wrap p) (wrap_all ps)

        pub cut-Owes :
            header p + length p ≤ length (stream D f)
            → (taken D (frame D M f).1 ≡ some (p ∷ [])) × Owes ps more (frame D M f).0
        unfolding taken wrap_all
        cut-Owes enough =
            let n = header p + length p in
            let out = frame-Serves M doc D L f o.valid in
            let whole_stream : stream D f ≡ wrap p ++ drop n (stream D f) =
              sym (take-append-drop n (stream D f))
              ∙ ap (λ l. l ++ drop n (stream D f)) (there enough) in
            let fr =
              frame-Framed D M doc L f p (drop n (stream D f)) o.valid whole_stream o.fits.0.0
                (rw o.limit o.fits.0.1) in
            let payload =
              sym (unread-offset D fr.frame.packet.b fr.frame.data_start) ∙ fr.payload in
            (
              ap (taken D) fr.returned ∙ ap (λ d. some (d ∷ [])) payload,
              record {
                valid = out.valid;
                limit = out.same_limit ∙ o.limit;
                left = ap (λ s. s ++ more) fr.left ∙ behind enough;
                small = omega (arith, o.small, length-append (wrap p) (wrap_all ps));
                fits = o.fits.1;
              },
            )
