-- ===== src/Framer/Receiver/Pull.antt =====
-- One call of `frame` on a framer that holds a part of some packets behind their lengths.
use blockrouter.Prelude.{
  ◌≢◌, append_empty, ℕ, ◌+◌, ◌<◌, ◌≡◌, refl, ap, ◌∙◌, arith, some, List, [], ◌∷◌, ◌++◌, length,
  drop, length-append,
}
use blockrouter.Buf.{BufMethods, IsDocumented}
use blockrouter.DirectBuf.{DirectBuf, IsLawful}
use blockrouter.Parser.Scan.{scan}
use blockrouter.Parser.RoundTrip.{encode}
use blockrouter.Framer.{Framer, FrameResult, frame}
use blockrouter.Framer.Stream.{Answer, answer, need_header, need_data}
use blockrouter.Framer.Refines.{IsValid, Gives, stream}
use blockrouter.Framer.Header.{frame-Serves}
use blockrouter.Framer.Wrapped.{
  wrap, wrap_all, header, complete, waits_header, waits_data, answer-Next,
}
use blockrouter.Framer.Receiver.{taken}
use blockrouter.Framer.Receiver.Owes.{Owes, waits, cut-Owes}

module _ (D : DirectBuf) where
  module _ (max : ℕ) where
    nothing_yet : answer max [] ≡ need_header
    unfolding answer scan
    nothing_yet = refl

    with_limit :
        (m : ℕ) (before after : List ℕ) (r : FrameResult D)
        → m ≡ max
        → Gives D (answer m before) before after r
        → Gives D (answer max before) before after r
    with_limit m before after r e g = rw e at g

    header_taken :
        (a : Answer) (before after : List ℕ) (r : FrameResult D)
        → Gives D a before after r
        → a ≡ need_header
        → (taken D r ≡ some []) × (after ≡ before)
    unfolding taken
    header_taken a before after r g e = let (out, same) = rw e at g in (ap (taken D) out, same)

    data_taken :
        (a : Answer) (before after : List ℕ) (r : FrameResult D) (n : ℕ)
        → Gives D a before after r
        → a ≡ need_data n
        → (taken D r ≡ some []) × (after ≡ before)
    unfolding taken
    data_taken a before after r n g e = let (out, same) = rw e at g in (ap (taken D) out, same)

    -- What a call hands out of the packets `ps`, and what it then owes.
    pub record Hands (ps : List (List ℕ)) (more : List ℕ) (o : Framer D × FrameResult D)
        : Type 0 where
      pub out : List (List ℕ)
      pub rest : List (List ℕ)
      pub ran : taken D o.1 ≡ some out
      pub split : out ++ rest ≡ ps
      pub owes : Owes D max rest more o.0
      pub prompt : more ≡ [] → rest ≡ drop 1 ps

    module _ (M : BufMethods) (doc : IsDocumented M) (L : IsLawful D) where
      later :
          (p : List ℕ) (ps : List (List ℕ)) (more : List ℕ) (f : Framer D)
          → Owes D max (p ∷ ps) more f
          → (taken D (frame D M f).1 ≡ some []) × (stream D (frame D M f).0 ≡ stream D f)
          → length (stream D f) < header p + length p
          → Hands (p ∷ ps) more (frame D M f)
      unfolding wrap_all wrap
      later p ps more f o (ran, same) lacks =
          let size = ap (λ (l : List ℕ). length l) o.left in
          let missing : more ≢ [] = λ none_left. absurd (
            omega (
              arith,
              lacks,
              size,
              ap (λ (l : List ℕ). length l) none_left,
              length-append (stream D f) more,
              length-append (encode 4 (length p)) p,
              length-append (encode 4 (length p) ++ p) (wrap_all ps),
            )) in
          record {
            out = [];
            rest = p ∷ ps;
            ran = ran;
            split = refl;
            owes = waits D max M doc L (p ∷ ps) more f o same;
            prompt = λ none_left. absurd (missing none_left);
          }

      gives :
          (f : Framer D)
          → IsValid D f
          → f.max_frame_size ≡ max
          → Gives D
              (answer max (stream D f))
              (stream D f)
              (stream D (frame D M f).0)
              (frame D M f).1
      gives f v limit = with_limit _ _ _ _ limit (frame-Serves M doc D L f v).gives

      -- A call hands out at most the next packet; it does so if no byte is yet to come.
      pub pull-Hands :
          (ps : List (List ℕ)) (more : List ℕ) (f : Framer D)
          → Owes D max ps more f
          → Hands ps more (frame D M f)
      unfolding wrap_all
      pull-Hands [] more f o =
          let empty : stream D f ≡ [] = append_empty (stream D f) more o.left in
          let (ran, same) =
            header_taken _ _ _ _ (gives f o.valid o.limit) (ap (answer max) empty ∙ nothing_yet) in
          record {
            out = [];
            rest = [];
            ran = ran;
            split = refl;
            owes = waits D max M doc L [] more f o same;
            prompt = λ _. refl;
          }
      pull-Hands (p ∷ ps) more f o =
          elim (answer-Next max p o.fits.0.0 o.fits.0.1 (stream D f) more (wrap_all ps) o.left _
            refl) [
              | complete e enough ↦
                  let (ran, owes) = cut-Owes D max M doc L p ps more f o enough in
                  record {
                    out = p ∷ [];
                    rest = ps;
                    ran = ran;
                    split = refl;
                    owes = owes;
                    prompt = λ _. refl;
                  }
              | waits_header e lacks ↦
                  later p ps more f o (header_taken _ _ _ _ (gives f o.valid o.limit) e) lacks
              | waits_data n e lacks ↦
                  later p ps more f o (data_taken _ _ _ _ n (gives f o.valid o.limit) e) lacks
            ]
