-- ===== src/Framer/Wrapped.antt =====
-- src/framer.rs: a receiver that pushes buffers and calls `frame` in any order, and a sender that
-- writes packets behind their lengths.
use blockrouter.Prelude.{
  ℕ, ◌+◌, ◌-◌, ◌%◌, ◌≤◌, ◌<◌, ◌^◌, ◌≡◌, refl, sym, ap, ap₂, ◌∙◌, inl, inr, arith, List, [], ◌∷◌,
  ◌++◌, length, take, drop, length-append, append_assoc, leb, ltb, false, Bool-cases,
  take-append_short, take-append-drop, take_all,
}
use blockrouter.Parser.Scan.{Scan, done, short, long, scan, scan-append, scan-IsHeader}
use blockrouter.Parser.RoundTrip.{encode, groups, scan-encode, value-groups}
use blockrouter.Framer.Stream.{Answer, answer, whole, need_header, need_data, declared_length}
use native.Mathlib.Nat.{mod-eq_of_lt}

-- A packet behind its length, as a `varint`.
unfoldable pub wrap : List ℕ → List ℕ
wrap p = encode 4 (length p) ++ p

unfoldable pub wrap_all : List (List ℕ) → List ℕ
wrap_all [] = []
wrap_all (p ∷ ps) = wrap p ++ wrap_all ps

abbrev pub header : List ℕ → ℕ
header p = length (encode 4 (length p))

-- The answer to a piece of the stream that begins with a packet: the packet, if the piece has all of
-- it, and a wait otherwise.
pub data Next (p bs : List ℕ) (a : Answer) : Type 0 where
  complete : a ≡ whole (header p) (length p) → header p + length p ≤ length bs → Next p bs a
  waits_header : a ≡ need_header → length bs < header p + length p → Next p bs a
  waits_data : (n : ℕ) → a ≡ need_data n → length bs < header p + length p → Next p bs a

module _ (max : ℕ) (p : List ℕ) (small : length p < 2 ^ 31) (limit : length p ≤ max) where
  declared : declared_length (groups 4 (length p)) ≡ length p
  declared = ap (λ (t : ℕ). t % 2 ^ 32) (value-groups 4 (length p)) ∙ mod-eq_of_lt (omega arith)

  size : (behind : List ℕ) → header p ≡ length (groups 4 (length p))
  size behind =
      let h =
        scan-IsHeader 5 (encode 4 (length p) ++ behind)
          (scan-encode 4 (length p) behind (omega arith)) in
      omega (arith, h.size, length-append (encode 4 (length p)) behind)

  -- The scan of the whole stream.
  whole_scan :
      (others : List ℕ) → scan 5 (wrap p ++ others) ≡ done (groups 4 (length p)) (p ++ others)
  unfolding wrap
  whole_scan others =
      ap (scan 5) (append_assoc (encode 4 (length p)) p others)
      ∙ scan-encode 4 (length p) (p ++ others) (omega arith)

  has_header :
      (bs more others : List ℕ)
      → bs ++ more ≡ wrap p ++ others
      → scan 5 bs ≡ short
      → length bs < header p
  unfolding wrap
  has_header bs more others e t = elim (Bool-cases (ltb (length bs) (header p))) [
    | inl less ↦ ground arith
    | inr enough ↦
        let code = encode 4 (length p) in
        let starts : take (length code) bs ≡ code =
          sym (take-append_short (length code) bs more (ground arith))
          ∙ ap (take (length code)) (e ∙ append_assoc code p others)
          ∙ take-append_short (length code) code (p ++ others) (omega arith)
          ∙ take_all (length code) code (omega arith) in
        let joined : bs ≡ code ++ drop (length code) bs =
          sym (take-append-drop (length code) bs) ∙ ap (λ l. l ++ drop (length code) bs) starts in
        absurd (
          cc
            (t, ap (scan 5) joined, scan-encode 4 (length p) (drop (length code) bs) (omega arith)))
  ]

  pub answer-Next :
      (bs more others : List ℕ)
      → bs ++ more ≡ wrap p ++ others
      → (s : Scan) → scan 5 bs ≡ s
      → Next p bs (answer max bs)
  unfolding answer
  answer-Next bs more others e short t =
      waits_header (rw t refl) (omega (arith, has_header bs more others e t))
  answer-Next bs more others e long t =
      let all = scan-append 5 bs more (λ f. cc (t, f)) in
      absurd (cc (t, all, ap (scan 5) e, whole_scan others))
  answer-Next bs more others e (done gs rest) t =
      let all = scan-append 5 bs more (λ f. cc (t, f)) in
      let same : gs ≡ groups 4 (length p) = cc (t, all, ap (scan 5) e, whole_scan others) in
      let len : declared_length gs ≡ length p = ap declared_length same ∙ declared in
      let low : leb (2 ^ 31) (declared_length gs) ≡ false = ground (arith, len) in
      let fits : ltb max (declared_length gs) ≡ false = ground (arith, len) in
      let counted = (scan-IsHeader 5 bs t).size in
      let at : length gs ≡ header p = ap (λ (l : List ℕ). length l) same ∙ sym (size []) in
      elim (Bool-cases (leb (declared_length gs) (length rest))) [
        | inl there ↦
            complete (rw (t, low, fits, there) (ap₂ whole at len))
              (ground (arith, len, counted, at))
        | inr missing ↦
            waits_data (declared_length gs - length rest) (rw (t, low, fits, missing) refl)
              (ground (arith, len, counted, at))
      ]
