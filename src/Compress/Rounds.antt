-- ===== src/Compress/Rounds.antt =====
-- src/compress.rs: what the steps of a round of `MbZlibOp::process` keep.
use blockrouter.Prelude.{
  concat, ℕ, ◌+◌, ◌-◌, ◌%◌, ◌^◌, ◌<◌, ◌≡◌, refl, sym, ap, ◌∙◌, arith, List, [], ◌∷◌, ◌++◌, length,
  take, drop, All, length-append, length-drop, take-append-drop, append_assoc, append-nil,
  All-append, Bool-cases, inl, inr, ltb, ◌==◌,
}
use blockrouter.Zlib.{sync_flush, ZStream, ZlibOperator, moved}
use blockrouter.Compress
use blockrouter.Compress.{ProcessResult, ok, err, stuck, set_in, next_out, finish}
use blockrouter.Compress.Streams.{
  Lawful, Mid, Sound, Fits, EndsShort, EndsShort-snoc, concat-snoc, take_self, is_zero, positive,
  is_below, is_not_below,
}

module _ (Z : ZlibOperator) (L : Lawful Z) (capacity : ℕ) where
  module _ (G O : List ℕ) (room : 0 < capacity) (word : capacity < 2 ^ 32) where
    pub call-Mid :
        (s : Z.S) (strm : ZStream) (b vd : List (List ℕ))
        → Mid Z L capacity G O s strm b vd
        → (let a = Z.call s sync_flush strm.next_in strm.avail_out in
            Mid Z L capacity G O a.state (moved Z strm a) b vd)
    unfolding moved
    call-Mid s strm b vd m =
        let a = Z.call s sync_flush strm.next_in strm.avail_out in
        record {
          input =
              ap (λ g. g ++ (drop a.consumed strm.next_in ++ concat b))
                (L.given_more s strm.next_in strm.avail_out)
              ∙ (append_assoc (L.given s) (take a.consumed strm.next_in)
                    (drop a.consumed strm.next_in ++ concat b)
                  ∙ (ap (λ t. L.given s ++ t)
                        (sym (
                            append_assoc (take a.consumed strm.next_in)
                              (drop a.consumed strm.next_in) (concat b))
                          ∙ ap (λ t. t ++ concat b) (take-append-drop a.consumed strm.next_in))
                      ∙ m.input));
          output =
              L.gave_more s strm.next_in strm.avail_out
              ∙ (ap (λ t. t ++ a.produced) m.output
                  ∙ (append_assoc O (concat vd ++ strm.written) a.produced
                      ∙ ap (λ t. O ++ t) (append_assoc (concat vd) strm.written a.produced)));
          counted = omega (arith, m.counted, length-drop a.consumed strm.next_in);
          space = omega (
            arith,
            m.space,
            length-append strm.written a.produced,
            L.writes s strm.next_in strm.avail_out,
          );
          pages = m.pages;
          small = m.small;
        }

    pub empty : (xs : List ℕ) → length xs ≡ 0 → xs ≡ []
    empty [] h = refl
    empty (x ∷ xs) h = absurd (omega arith)

    pub pop-Mid :
        (s : Z.S) (strm : ZStream) (p : List ℕ) (b vd : List (List ℕ))
        → strm.avail_in ≡ 0
        → Mid Z L capacity G O s strm (p ∷ b) vd
        → Mid Z L capacity G O s (set_in strm p) b vd
    unfolding set_in
    pop-Mid s strm p b vd eaten m = record {
      input =
          ap (λ t. L.given s ++ (t ++ (p ++ concat b)))
            (sym (empty strm.next_in (omega (arith, m.counted))))
          ∙ m.input;
      output = m.output;
      counted = omega (arith, m.small.0);
      space = m.space;
      pages = m.pages;
      small = m.small.1;
    }

    pub next_out-Mid :
        (s : Z.S) (strm : ZStream) (b vd : List (List ℕ))
        → Mid Z L capacity G O s strm b vd
        → Mid Z L capacity G O s (next_out capacity strm vd).0 b (next_out capacity strm vd).1
    unfolding next_out Compress.set_out
    next_out-Mid s strm b vd m = elim (Bool-cases (strm.avail_out == 0)) [
      | inr some_room ↦ rw some_room m
      | inl full ↦ rw full (record {
        input = m.input;
        output =
            m.output
            ∙ ap (λ t. O ++ t)
                (sym (concat-snoc vd strm.written)
                  ∙ sym (append-nil (concat (vd ++ strm.written ∷ []))));
        counted = m.counted;
        space = omega arith;
        pages =
            All-append (Fits Z L capacity) vd (strm.written ∷ []) m.pages
              ((omega (arith, m.space, is_zero strm.avail_out full), omega (arith, m.space)), tt);
        small = m.small;
      })
    ]

    pub next_out-room :
        (strm : ZStream) (vd : List (List ℕ)) → 0 < (next_out capacity strm vd).0.avail_out
    unfolding next_out Compress.set_out
    next_out-room strm vd = elim (Bool-cases (strm.avail_out == 0)) [
      | inl full ↦ rw full (omega arith)
      | inr some_room ↦ rw some_room (positive strm.avail_out some_room)
    ]

    pub next_out-next_in :
        (strm : ZStream) (vd : List (List ℕ)) → (next_out capacity strm vd).0.next_in ≡ strm.next_in
    unfolding next_out Compress.set_out
    next_out-next_in strm vd = elim (Bool-cases (strm.avail_out == 0)) [
      | inl full ↦ rw full refl
      | inr some_room ↦ rw some_room refl
    ]

    trail_size :
        (strm : ZStream)
        → length strm.written + strm.avail_out ≡ capacity
        → capacity % 2 ^ 32 - strm.avail_out ≡ length strm.written
    trail_size strm h = omega arith

    finish-pages :
        (s : Z.S) (strm : ZStream) (b vd : List (List ℕ))
        → Mid Z L capacity G O s strm b vd
        → (L.gave s ≡ O ++ concat (finish capacity strm vd))
          × All (Fits Z L capacity) (finish capacity strm vd)
    unfolding finish
    finish-pages s strm b vd m = elim (Bool-cases (ltb 0 (length strm.written))) [
      | inl trail ↦
          rw (trail_size strm m.space, trail, take_self strm.written)
            (
              m.output ∙ ap (λ t. O ++ t) (sym (concat-snoc vd strm.written)),
              All-append (Fits Z L capacity) vd (strm.written ∷ []) m.pages
                  ((is_below 0 (length strm.written) trail, omega (arith, m.space)), tt),
            )
      | inr none_left ↦
          rw (trail_size strm m.space, none_left)
            (
              m.output
                  ∙ ap (λ t. O ++ (concat vd ++ t))
                      (empty strm.written
                        (omega (arith, is_not_below 0 (length strm.written) none_left)))
                  ∙ ap (λ t. O ++ t) (append-nil (concat vd)),
              m.pages,
            )
    ]

    finish-room :
        (s : Z.S) (strm : ZStream) (b vd : List (List ℕ))
        → Mid Z L capacity G O s strm b vd
        → EndsShort capacity (finish capacity strm vd)
        → 0 < strm.avail_out
    unfolding finish
    finish-room s strm b vd m = elim (Bool-cases (ltb 0 (length strm.written))) [
      | inl trail ↦
          rw (trail_size strm m.space, trail, take_self strm.written)
            (λ ends. omega (arith, EndsShort-snoc capacity vd strm.written ends, m.space))
      | inr none_left ↦
          λ ends. omega (arith, is_not_below 0 (length strm.written) none_left, m.space)
    ]

    pub finish-Sound :
        (s : Z.S) (strm : ZStream) (vd : List (List ℕ))
        → strm.avail_in ≡ 0
        → Mid Z L capacity G O s strm [] vd
        → (0 < strm.avail_out → L.settled s)
        → Sound Z L capacity G O (ok s (finish capacity strm vd))
    unfolding Sound
    finish-Sound s strm vd eaten m settled = (
      sym (append-nil (L.given s))
          ∙ (ap (λ t. L.given s ++ (t ++ [])) (sym (empty strm.next_in (omega (arith, m.counted))))
              ∙ m.input),
      finish-pages s strm [] vd m,
      λ ends. settled (finish-room s strm [] vd m ends),
    )
