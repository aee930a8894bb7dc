-- ===== src/Cursor/Split.antt =====
-- src/cursor.rs: `Multibytes::split_to`.
use blockrouter.Prelude.{ℕ, zero, suc, ◌≤◌, ◌<◌, ◌≡◌, refl, sym, ap, ap₂, ◌∙◌, arith}
use blockrouter.Prelude.{true, false, inl, inr, Bool-cases, ◌==◌, none, some}
use blockrouter.Prelude.{
  List, [], ◌∷◌, ◌++◌, length, drop, take, length-drop, length-take, All-take, All-append,
  length-append, ◌+◌, ltb,
}
use blockrouter.Prelude.{append-nil, append_assoc, take-take, take-take_self}
use blockrouter.Prelude.{drop-append_short, take-append_short, drop_all, drop_next, take-plus}
use blockrouter.Prelude.{◌⊎◌, All, All-drop}
use blockrouter.DirectBuf.{DirectBuf, IsLawful}
use blockrouter.Cursor.{Cursor, Multibytes, pop_pages, split_to}
use blockrouter.Cursor.Position.{flat, flat-append, offset, before, unread-offset}
use blockrouter.Cursor.Position.{IsTrued, take-before, drop-before}

module _ (D : DirectBuf) where
  pop_pages_lem :
      (n : ℕ) (b self : List D.T)
      → n ≤ length self
      → pop_pages D n b self ≡ some (b ++ take n self, drop n self)
  unfolding pop_pages
  pop_pages_lem zero b self h = rw append-nil
  pop_pages_lem (suc n) b [] h = absurd (omega arith)
  pop_pages_lem (suc n) b (p ∷ self) h =
      pop_pages_lem n (b ++ p ∷ []) self (omega arith)
      ∙ ap (λ r. some (r, drop n self)) (append_assoc b (p ∷ []) (take n self))

  pop_pages_short : (n : ℕ) (b self : List D.T) → length self < n → pop_pages D n b self ≡ none
  unfolding pop_pages
  pop_pages_short zero b self h = absurd (omega arith)
  pop_pages_short (suc n) b [] h = refl
  pop_pages_short (suc n) b (p ∷ self) h = pop_pages_short n (b ++ p ∷ []) self (omega arith)

  abbrev pub IsNonEmpty : D.T → Type 0
  IsNonEmpty p = 0 < length (D.bytes p)

  -- The two parts of the pages at a cursor.
  pub record Splits (pages : List D.T) (c : Cursor) (front back : List D.T) : Type 0 where
    pub front_bytes : flat D front ≡ take (offset D pages c) (flat D pages)
    pub back_bytes : flat D back ≡ drop (offset D pages c) (flat D pages)
    pub whole_pages : take c.of front ≡ take c.of pages
    pub back_pages : length back ≤ length pages
    pub front_pages : length front ≤ c.of + 1

  -- A cursor right at the start of a page moves whole pages.
  Splits-whole :
      (pages : List D.T) (c : Cursor) → c.i ≡ 0 → Splits pages c (take c.of pages) (drop c.of pages)
  Splits-whole pages c z =
      let at_page : offset D pages c ≡ before D pages c.of = omega arith in
      record {
        front_bytes = rw at_page (sym (take-before D pages c.of));
        back_bytes = rw at_page (sym (drop-before D pages c.of));
        whole_pages = take-take c.of pages;
        back_pages = omega (arith, length-drop c.of pages);
        front_pages = omega (arith, length-take c.of pages);
      }

  module _ (L : IsLawful D) where
    -- A cursor inside a page splits that page.
    Splits-inside :
        (pages : List D.T) (c : Cursor) {r f k : D.T} {rest : List D.T}
        → drop c.of pages ≡ r ∷ rest
        → c.i ≤ length (D.bytes r)
        → D.bytes f ≡ take c.i (D.bytes r)
        → D.bytes k ≡ drop c.i (D.bytes r)
        → Splits pages c (take c.of pages ++ f ∷ []) (k ∷ rest)
    Splits-inside pages c {r} {f} {k} {rest} e h ef ek = record {
      front_bytes =
          flat-append D (take c.of pages) (f ∷ [])
          ∙ ap₂ ◌++◌ (sym (take-before D pages c.of)) (append-nil (D.bytes f) ∙ ef ∙ clip)
          ∙ sym (take-plus (before D pages c.of) c.i (flat D pages));
      back_bytes =
          rw ek (sym (drop-append_short c.i (D.bytes r) (flat D rest) h))
          ∙ ap (λ l. drop c.i (flat D l)) (sym e)
          ∙ unread-offset D pages c;
      whole_pages = take-take_self c.of pages (f ∷ []) (omega (arith, (drop_next c.of pages e).0));
      back_pages = omega (arith, length-drop c.of pages, ap (λ (l : List D.T). length l) e);
      front_pages = omega (arith, length-take c.of pages, length-append (take c.of pages) (f ∷ []));
    }
      where
        clip : take c.i (D.bytes r) ≡ take c.i (drop (before D pages c.of) (flat D pages))
        clip =
            sym (take-append_short c.i (D.bytes r) (flat D rest) h)
            ∙ ap (λ l. take c.i (flat D l)) (sym e)
            ∙ ap (take c.i) (sym (drop-before D pages c.of))

    -- The two ways through `split_to` that return.
    split_at_start :
        (mb : Multibytes D) (c : Cursor)
        → c.i ≡ 0
        → c.of ≤ length mb.b
        → split_to D mb c ≡ some (record { b = take c.of mb.b }, record { b = drop c.of mb.b })
    unfolding split_to
    split_at_start mb c z h = elim (Bool-cases (c.of == 0)) [
      | inl first ↦
          let z' : (c.i == 0) ≡ true = ground arith in
          let o : c.of ≡ 0 = ground arith in rw (z', first, o)
      | inr later ↦
          let z' : (c.i == 0) ≡ true = ground arith in
          let y' : ltb 0 c.i ≡ false = ground arith in
          rw (z', later, pop_pages_lem c.of [] mb.b h, y')
    ]

    split_inside :
        (mb : Multibytes D) (c : Cursor) {r f k : D.T} {rest : List D.T}
        → 0 < c.i
        → drop c.of mb.b ≡ r ∷ rest
        → D.split_to r c.i ≡ some (f, k)
        → split_to D mb c ≡ some (record { b = take c.of mb.b ++ f ∷ [] }, record { b = k ∷ rest })
    unfolding split_to
    split_inside mb c pos e cut =
        let z' : (c.i == 0) ≡ false = ground arith in
        let y' : ltb 0 c.i ≡ true = ground arith in
        rw (z', pop_pages_lem c.of [] mb.b (omega (arith, (drop_next c.of mb.b e).0)), y', e, cut)

    pub split_to_parts :
        (mb : Multibytes D) (c : Cursor)
        → IsTrued D mb.b c
        → c.of ≤ length mb.b
        → (front : Multibytes D) × (back : Multibytes D) × (split_to D mb c ≡ some (front, back))
          × Splits mb.b c front.b back.b
          × (All IsNonEmpty mb.b → All IsNonEmpty front.b × All IsNonEmpty back.b)
    split_to_parts mb c t h = go (drop c.of mb.b) refl
      where
        whole :
            c.i ≡ 0
            → (front : Multibytes D) × (back : Multibytes D) × (split_to D mb c
                ≡ some (front, back))
              × Splits mb.b c front.b back.b
              × (All IsNonEmpty mb.b → All IsNonEmpty front.b × All IsNonEmpty back.b)
        whole z = (
          record { b = take c.of mb.b },
          record { b = drop c.of mb.b },
          split_at_start mb c z h,
          Splits-whole mb.b c z,
          λ all. (All-take IsNonEmpty c.of mb.b all, All-drop IsNonEmpty c.of mb.b all),
        )

        go :
            (rest : List D.T)
            → drop c.of mb.b ≡ rest
            → (front : Multibytes D) × (back : Multibytes D) × (split_to D mb c
                ≡ some (front, back))
              × Splits mb.b c front.b back.b
              × (All IsNonEmpty mb.b → All IsNonEmpty front.b × All IsNonEmpty back.b)
        go [] e = whole (rw e at t).1
        go (r ∷ rest) e = elim (Bool-cases (ltb 0 c.i)) [
          | inr start ↦ whole (ground arith)
          | inl inside ↦
              let lt : c.i < length (D.bytes r) = rw e at t in
              let (f, k, cut, ef, ek) =
                L.split_to_returns r c.i (omega (arith, L.remaining-bytes r)) in
              (
                record { b = take c.of mb.b ++ f ∷ [] },
                record { b = k ∷ rest },
                split_inside mb c (ground arith) e cut,
                Splits-inside mb.b c e (omega arith) ef ek,
                λ all. (
                  All-append IsNonEmpty (take c.of mb.b) (f ∷ [])
                      (All-take IsNonEmpty c.of mb.b all)
                      (
                        ground (
                          arith,
                          inside,
                          ap (λ (l : List ℕ). length l) ef,
                          length-take c.i (D.bytes r),
                        ),
                        tt,
                      ),
                  (
                    omega (arith, ap (λ (l : List ℕ). length l) ek, length-drop c.i (D.bytes r)),
                    (rw e at (All-drop IsNonEmpty c.of mb.b all)).1,
                  ),
                ),
              )
        ]

    -- At a cursor on the pages that is trued up, `split_to` returns, it splits the bytes at the
    -- cursor's position, the pages before the cursor's go to the front as they are, and no more pages
    -- than there were lie behind.
    pub split_to-Splits :
        (mb : Multibytes D) (c : Cursor)
        → IsTrued D mb.b c
        → c.of ≤ length mb.b
        → (front : Multibytes D) × (back : Multibytes D) × (split_to D mb c ≡ some (front, back))
          × Splits mb.b c front.b back.b
    split_to-Splits mb c t h =
        let (front, back, e, parts, _) = split_to_parts mb c t h in (front, back, e, parts)

  -- A cursor that steps into a page which does not exist makes `split_to` panic.
  pub split_to_missing_page :
      (mb : Multibytes D) (c : Cursor)
      → (length mb.b < c.of) ⊎ (c.of ≡ length mb.b) × (0 < c.i)
      → split_to D mb c ≡ none
  unfolding split_to
  split_to_missing_page mb c (inl far) =
      let o' : (c.of == 0) ≡ false = ground arith in
      elim (Bool-cases (c.i == 0)) [
        | inl z ↦ rw (z, o', pop_pages_short c.of [] mb.b far)
        | inr z ↦ rw (z, pop_pages_short c.of [] mb.b far)
      ]
  split_to_missing_page mb c (inr (last, pos)) =
      let z' : (c.i == 0) ≡ false = ground arith in
      let y' : ltb 0 c.i ≡ true = ground arith in
      let gone : drop c.of mb.b ≡ [] = drop_all c.of mb.b (omega arith) in
      rw (z', pop_pages_lem c.of [] mb.b (omega arith), y', gone)
