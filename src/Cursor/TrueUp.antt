-- ===== src/Cursor/TrueUp.antt =====
-- `Cursor::true_up` and `Cursor::advance`: where the cursor stands afterwards.
use blockrouter.Prelude.{ℕ, ◌+◌, ◌-◌, ◌≤◌, ◌<◌, ◌^◌, ◌≡◌, refl, ap, ◌∙◌, arith}
use blockrouter.Prelude.{Bool, true, false, inl, inr, Bool-cases, ◌==◌, ◌⊎◌}
use blockrouter.Prelude.{
  List, [], ◌∷◌, length, drop, drop_next, drop_end, leb, add_usize, length-append,
}
use blockrouter.DirectBuf.{DirectBuf, IsLawful}
use blockrouter.Cursor.{Cursor, Multibytes, true_up_loop, true_up, advance}
use blockrouter.Cursor.Position.{flat, offset, before, before_next, before-flat, IsTrued}

module _ (D : DirectBuf) where
  -- What `true_up` makes of a cursor: the byte position stays, the answer tells whether that
  -- position lies within the bytes at hand, and the cursor goes no page back. Answered `true` it
  -- is trued up, answered `false` it stands on the page that is still to come.
  pub record TruesUp (pages : List D.T) (c : Cursor) (r : Cursor × Bool) : Type 0 where
    pub same_offset : offset D pages r.0 ≡ offset D pages c
    pub answer : r.1 ≡ leb (offset D pages c) (length (flat D pages))
    pub settled : (r.1 ≡ true) × IsTrued D pages r.0 ⊎ (r.1 ≡ false) × (r.0.of ≡ length pages)
    pub forward : c.of ≤ r.0.of
    pub inside : r.0.of ≤ length pages

  -- One round of the loop moves the cursor over a page and not over any byte.
  skip_page :
      (pages : List D.T) (c : Cursor) {r : D.T} {rest : List D.T}
      → drop c.of pages ≡ r ∷ rest
      → length (D.bytes r) ≤ c.i
      → offset D pages (record { of = c.of + 1; i = c.i - length (D.bytes r) }) ≡ offset D pages c
  skip_page pages c e h = omega (arith, before_next D pages c.of e)

  total_at_end :
      (pages : List D.T) (of : ℕ) → drop of pages ≡ [] → before D pages of ≡ length (flat D pages)
  total_at_end pages of e =
      omega (arith, before-flat D pages of, ap (λ (l : List D.T). length (flat D l)) e)

  page_below_total :
      (pages : List D.T) (of : ℕ) {r : D.T} {rest : List D.T}
      → drop of pages ≡ r ∷ rest
      → before D pages of + length (D.bytes r) ≤ length (flat D pages)
  page_below_total pages of {r} {rest} e = omega (
    arith,
    before-flat D pages of,
    ap (λ (l : List D.T). length (flat D l)) e,
    length-append (D.bytes r) (flat D rest),
  )

  module _ (L : IsLawful D) where
    true_up_loop-TruesUp :
        (pages rest : List D.T) (c : Cursor)
        → drop c.of pages ≡ rest
        → c.of ≤ length pages
        → TruesUp pages c (true_up_loop D (length pages) rest c)
    unfolding true_up_loop
    true_up_loop-TruesUp pages [] c e h =
        let last : c.of ≡ length pages = omega (arith, drop_end c.of pages e) in
        let at_end : (c.of == length pages) ≡ true = ground arith in
        record {
          same_offset = refl;
          answer = ground (arith, last, total_at_end pages c.of e);
          settled =
              rw (e, at_end)
                (elim (Bool-cases (c.i == 0)) [
                  | inl z ↦ rw z (inl (refl, (last, ground arith)))
                  | inr nz ↦ rw nz (inr (refl, last))
                ]);
          forward = omega arith;
          inside = h;
        }
    true_up_loop-TruesUp pages (r ∷ rest) c e h =
        let len = L.remaining-bytes r in
        let (here, e') = drop_next c.of pages e in
        elim (Bool-cases (leb (D.remaining r) c.i)) [
          | inl over ↦
              let c' : Cursor = record { of = c.of + 1; i = c.i - D.remaining r } in
              let ih = true_up_loop-TruesUp pages rest c' e' (omega arith) in
              let shift : offset D pages c' ≡ offset D pages c =
                rw len (skip_page pages c e (ground arith)) in
              rw over (record {
                same_offset = ih.same_offset ∙ shift;
                answer = ih.answer ∙ ap (λ o. leb o (length (flat D pages))) shift;
                settled = ih.settled;
                forward = omega (arith, ih.forward);
                inside = ih.inside;
              })
          | inr within ↦ rw within (record {
            same_offset = refl;
            answer = ground (arith, page_below_total pages c.of e);
            settled = rw e (inl (refl, ground arith));
            forward = omega arith;
            inside = h;
          })
        ]

    -- `true_up` keeps the byte position of a cursor on the pages, never goes a page back, and
    -- answers whether that position is at most the number of bytes at hand. Answered `true`, the
    -- cursor is trued up; answered `false`, it stands behind the last page.
    pub true_up-TruesUp :
        (mb : Multibytes D) (c : Cursor) → c.of ≤ length mb.b → TruesUp mb.b c (true_up D c mb)
    unfolding true_up
    true_up-TruesUp mb c h = true_up_loop-TruesUp mb.b (drop c.of mb.b) c refl h

    -- `advance` by `n`, which does not wrap, moves a cursor on the pages `n` bytes on and then trues
    -- it up as `true_up` does.
    pub advance-TruesUp :
        (mb : Multibytes D) (c : Cursor) (n : ℕ)
        → c.of ≤ length mb.b
        → c.i + n < 2 ^ 64
        → TruesUp mb.b (record c { i = c.i + n }) (advance D c mb n)
    unfolding advance
    advance-TruesUp mb c n h small =
        let e : add_usize c.i n ≡ c.i + n = omega arith in
        rw e (true_up-TruesUp mb (record c { i = c.i + n }) h)
