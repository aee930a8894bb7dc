-- ===== src/Framer/Receiver/Delivers.antt =====
-- Any order of pushes and calls of `frame`, and the data that a receiver takes out of the frames.
use blockrouter.Prelude.{
  ℕ, zero, suc, ◌≤◌, ◌<◌, ◌^◌, ◌≡◌, refl, sym, ap, ◌∙◌, arith, Option, some, List, [], ◌∷◌, ◌++◌,
  length, length-append, length-drop, append_assoc, append-nil, All,
}
use blockrouter.Buf.{BufMethods, IsDocumented}
use blockrouter.DirectBuf.{DirectBuf, IsLawful}
use blockrouter.Framer.{Framer, frame, push_buffer, new}
use blockrouter.Framer.Refines.{stream}
use blockrouter.Framer.Push.{new-IsValid}
use blockrouter.Framer.Wrapped.{wrap_all}
use blockrouter.Framer.Receiver.{Event, push, pull, pushed, pulls, IsUsable, receive}
use blockrouter.Framer.Receiver.Owes.{Fits, Owes, push-Owes}
use blockrouter.Framer.Receiver.Pull.{pull-Hands}

module _ (D : DirectBuf) where
  module _ (max : ℕ) where
    record Delivers (ps : List (List ℕ)) (more : List ℕ) (o : Option (Framer D × List (List ℕ)))
        : Type 0 where
      framer : Framer D
      out : List (List ℕ)
      rest : List (List ℕ)
      ran : o ≡ some (framer, out)
      split : out ++ rest ≡ ps
      owes : Owes D max rest more framer

    module _ (M : BufMethods) (doc : IsDocumented M) (L : IsLawful D) where
      receive-Delivers :
          (es : List (Event D)) (ps : List (List ℕ)) (more : List ℕ) (f : Framer D)
          → All (IsUsable D) es
          → Owes D max ps (pushed D es ++ more) f
          → Delivers ps more (receive D M es f)
      unfolding receive pushed IsUsable
      receive-Delivers [] ps more f u o = record {
        framer = f;
        out = [];
        rest = ps;
        ran = refl;
        split = refl;
        owes = o;
      }
      receive-Delivers (push b ∷ es) ps more f u o =
          receive-Delivers es ps more (push_buffer D f b) u.1 (
            push-Owes D max ps (pushed D es ++ more) f b u.0.0 u.0.1
              (rw (← append_assoc (D.bytes b) (pushed D es) more) o))
      receive-Delivers (pull ∷ es) ps more f u o =
          let h = pull-Hands D max M doc L ps (pushed D es ++ more) f o in
          let d = receive-Delivers es h.rest more (frame D M f).0 u.1 h.owes in
          record {
            framer = d.framer;
            out = h.out ++ d.out;
            rest = d.rest;
            ran = rw (h.ran, d.ran) refl;
            split = append_assoc h.out d.out d.rest ∙ ap (λ r. h.out ++ r) d.split ∙ h.split;
            owes = d.owes;
          }

      -- With no byte to come, as many calls as packets are left deliver them.
      pulls-deliver :
          (n : ℕ) (ps : List (List ℕ)) (f : Framer D)
          → length ps ≤ n
          → Owes D max ps [] f
          → (g : Framer D) × (receive D M (pulls D n) f ≡ some (g, ps)) × Owes D max [] [] g
      unfolding receive pulls
      pulls-deliver zero [] f few o = (f, refl, o)
      pulls-deliver zero (p ∷ ps) f few o = absurd (omega arith)
      pulls-deliver (suc n) ps f few o =
          let h = pull-Hands D max M doc L ps [] f o in
          let (g, ran, owes) =
            pulls-deliver n h.rest (frame D M f).0
              (omega (
                arith,
                few,
                ap (λ (l : List (List ℕ)). length l) (h.prompt refl),
                length-drop 1 ps,
              ))
              h.owes in
          (g, rw (h.ran, ran, h.split), owes)

      all-deliver :
          (es : List (Event D)) (n : ℕ) (ps : List (List ℕ)) (f : Framer D)
          → All (IsUsable D) es
          → length ps ≤ n
          → Owes D max ps (pushed D es) f
          → (g : Framer D) × (receive D M (es ++ pulls D n) f ≡ some (g, ps)) × Owes D max [] [] g
      unfolding receive pushed IsUsable
      all-deliver [] n ps f u few o = pulls-deliver n ps f few o
      all-deliver (push b ∷ es) n ps f u few o =
          all-deliver es n ps (push_buffer D f b) u.1 few
            (push-Owes D max ps (pushed D es) f b u.0.0 u.0.1 o)
      all-deliver (pull ∷ es) n ps f u few o =
          let h = pull-Hands D max M doc L ps (pushed D es) f o in
          let (g, ran, owes) =
            all-deliver es n h.rest (frame D M f).0 u.1
              (omega (
                arith,
                few,
                ap (λ (l : List (List ℕ)). length l) h.split,
                length-append h.out h.rest,
              ))
              h.owes in
          (g, rw (h.ran, ran, h.split), owes)

      module _ (es : List (Event D)) (ps : List (List ℕ)) (usable : All (IsUsable D) es)
          (fits : All (Fits D max) ps) (small : length (wrap_all ps) < 2 ^ 63) where
        new-Owes : (more : List ℕ) → more ≡ wrap_all ps → Owes D max ps more (new D max)
        unfolding new
        new-Owes more e =
            let (valid, empty) = new-IsValid D max in
            record {
              valid = valid;
              limit = refl;
              left = ap (λ s. s ++ more) empty ∙ e;
              small = small;
              fits = fits;
            }

        -- At any moment: if the bytes that were pushed, with more to come, are packets behind their lengths
        -- (each of less than 2 ^ 31 bytes and within the limit, less than 2 ^ 63 bytes in all, every buffer
        -- nonempty), then no call of any order of pushes and calls fails, the data handed out is a first part
        -- of the packets in their order, and the ring with what is to come is the rest, behind its lengths.
        pub receive_in_order :
            (more : List ℕ)
            → pushed D es ++ more ≡ wrap_all ps
            → (g : Framer D) × (out : List (List ℕ)) × (rest : List (List ℕ)) × (receive D M es
                  (new D max)
                ≡ some (g, out))
              × (out ++ rest ≡ ps)
              × (stream D g ++ more ≡ wrap_all rest)
        receive_in_order more e =
            let d =
              receive-Delivers es ps more (new D max) usable (new-Owes (pushed D es ++ more) e) in
            (d.framer, d.out, d.rest, d.ran, d.split, d.owes.left)

        -- If the bytes that were pushed are some packets behind their lengths (each of less than 2 ^ 31
        -- bytes and within the limit, less than 2 ^ 63 bytes in all, every buffer nonempty), then whatever
        -- calls were made between the pushes, one more call per packet delivers the data of all packets in
        -- order, none twice, and leaves an empty ring.
        pub receive_all :
            pushed D es ≡ wrap_all ps
            → (g : Framer D) × (receive D M (es ++ pulls D (length ps)) (new D max) ≡ some (g, ps))
              × (stream D g ≡ [])
        receive_all e =
            let (g, ran, owes) =
              all-deliver es (length ps) ps (new D max) usable (omega arith)
                (new-Owes (pushed D es) e) in
            (g, ran, sym (append-nil (stream D g)) ∙ (unfold wrap_all in owes.left))
