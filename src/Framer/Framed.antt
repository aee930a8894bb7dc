-- ===== src/Framer/Framed.antt =====
-- src/framer.rs: the frame of a packet behind its length, as a reader of packets takes it.
use blockrouter.Prelude.{
  ℕ, ◌+◌, ◌≤◌, ◌<◌, ◌^◌, ◌≡◌, refl, sym, ap, ap₂, ◌∙◌, arith, inl, inr, List, [], ◌∷◌, ◌++◌, length,
  take, drop, length-append, append-nil, All, take-append_short, take_all, drop-length, List-cases,
  drop_next,
}
use blockrouter.Buf.{BufMethods, IsDocumented}
use blockrouter.DirectBuf.{DirectBuf, IsLawful}
use blockrouter.Cursor.{Cursor}
use blockrouter.Cursor.Position.{flat, unread, unread-offset, IsTrued}
use blockrouter.Cursor.Read.{IsReadable}
use blockrouter.Cursor.Split.{IsNonEmpty}
use blockrouter.Parser.RoundTrip.{encode}
use blockrouter.Framer.{Frame, Framer, FrameResult, ok, frame}
use blockrouter.Framer.Stream.{Answer, whole}
use blockrouter.Framer.Refines.{IsValid, IsCut, Gives, stream}
use blockrouter.Framer.Header.{frame-Serves}
use blockrouter.Framer.Wrapped.{wrap, header, complete, waits_header, waits_data, answer-Next}

module _ (D : DirectBuf) where
  -- The packet was cut off the stream; its data is at a cursor that can be read from.
  pub record Framed (p others : List ℕ) (out : Framer D × FrameResult D) : Type 0 where
    pub frame : Frame D
    pub returned : out.1 ≡ ok frame
    pub left : stream D out.0 ≡ others
    pub payload : unread D frame.packet.b frame.data_start ≡ p
    pub size : length (flat D frame.packet.b) ≡ header p + length p
    pub few_pages : length frame.packet.b ≤ header p + length p
    pub readable : 0 < length p → IsReadable D frame.packet.b frame.data_start

  page_count : (pages : List D.T) → All (IsNonEmpty D) pages → length pages ≤ length (flat D pages)
  page_count [] h = omega arith
  page_count (q ∷ pages) h =
      omega (arith, h.0, page_count pages h.1, length-append (D.bytes q) (flat D pages))

  on_pages : (pages : List D.T) (c : Cursor) → IsTrued D pages c → c.of ≤ length pages
  on_pages pages c t = elim (List-cases (drop c.of pages)) [
    | inl none_left ↦
        let at_end : (c.of ≡ length pages) × (c.i ≡ 0) = rw none_left at t in omega arith
    | inr (r, rest, there) ↦ omega (arith, drop_next c.of pages there)
  ]

  wrap-length : (p : List ℕ) → length (wrap p) ≡ header p + length p
  unfolding wrap
  wrap-length p = length-append (encode 4 (length p)) p

  module _ (p others : List ℕ) (out : Framer D × FrameResult D) where
    cut-Framed :
        (before : List ℕ)
        → before ≡ wrap p ++ others
        → IsCut D before (stream D out.0) (header p) (length p) out.1
        → Framed p others out
    cut-Framed before e cut =
        let n = header p + length p in
        let start : take n before ≡ wrap p =
          ap (take n) e
          ∙ take-append_short n (wrap p) others (omega (arith, wrap-length p))
          ∙ take_all n (wrap p) (omega (arith, wrap-length p)) in
        let bytes : flat D cut.frame.packet.b ≡ wrap p = cut.packet ∙ start in
        let total = ap (λ (l : List ℕ). length l) bytes ∙ wrap-length p in
        record {
          frame = cut.frame;
          returned = cut.returned;
          left = cut.left ∙ ap₂ drop (sym (wrap-length p)) e ∙ drop-length (wrap p) others;
          payload =
              unread-offset D cut.frame.packet.b cut.frame.data_start
              ∙ ap₂ drop cut.data_at bytes
              ∙ (unfold wrap in drop-length (encode 4 (length p)) p);
          size = total;
          few_pages = omega (arith, total, page_count cut.frame.packet.b cut.no_empty);
          readable = λ some_bytes. record {
            inside = on_pages cut.frame.packet.b cut.frame.data_start (cut.data_trued some_bytes);
            within = omega (arith, cut.data_at, total);
            aligned = cut.data_trued some_bytes;
          };
        }

  Gives-IsCut :
      (a : Answer) (before after : List ℕ) (r : FrameResult D) (h len : ℕ)
      → Gives D a before after r
      → a ≡ whole h len
      → IsCut D before after h len r
  Gives-IsCut a before after r h len g e = rw e at g

  module _ (M : BufMethods) (doc : IsDocumented M) (L : IsLawful D) where
    pub frame-Framed :
        (f : Framer D) (p others : List ℕ)
        → IsValid D f
        → stream D f ≡ wrap p ++ others
        → length p < 2 ^ 31
        → length p ≤ f.max_frame_size
        → Framed p others (frame D M f)
    frame-Framed f p others v e small limit =
        let n = ap (λ (l : List ℕ). length l) e ∙ length-append (wrap p) others in
        elim (answer-Next f.max_frame_size p small limit (stream D f) [] others
          (append-nil (stream D f) ∙ e) _ refl) [
            | complete is_whole _ ↦ cut-Framed p others (frame D M f) (stream D f) e (
                Gives-IsCut _ _ _ _ (header p) (length p) (frame-Serves M doc D L f v).gives
                  is_whole)
            | waits_header _ lacks ↦ absurd (omega (arith, n, wrap-length p))
            | waits_data _ _ lacks ↦ absurd (omega (arith, n, wrap-length p))
          ]
