-- ===== src/Cursor/Read.antt =====
-- Reading a byte at a cursor: the page that holds it, and the cursor behind it.
use blockrouter.Prelude.{ℕ, ◌+◌, ◌-◌, ◌≤◌, ◌<◌, ◌^◌, ◌≡◌, sym, ap, ◌∙◌, arith}
use blockrouter.Prelude.{inl, inr, some, ltb}
use blockrouter.Prelude.{List, [], ◌∷◌, ◌++◌, List-cases, length, drop, get_elem?}
use blockrouter.Prelude.{length-drop, drop-drop, drop-nil, get_elem?-drop, drop-append_short}
use blockrouter.DirectBuf.{DirectBuf, IsLawful}
use blockrouter.Cursor.{Cursor, Multibytes, slice_from, advance, has_atleast}
use blockrouter.Cursor.Position.{flat, offset, unread, unread-offset}
use blockrouter.Cursor.Position.{IsTrued}
use blockrouter.Cursor.TrueUp.{advance-TruesUp}
use blockrouter.Cursor.Measure.{has_atleast-offset}

slice_from_lem : (s : List ℕ) (from : ℕ) → from ≤ length s → slice_from s from ≡ some (drop from s)
unfolding slice_from
slice_from_lem s from h = ground arith

first_of_append :
    (front back : List ℕ) {x : ℕ} {xs : List ℕ}
    → 0 < length front
    → front ++ back ≡ x ∷ xs
    → (ys : List ℕ) × (front ≡ x ∷ ys)
first_of_append [] back h e = absurd (omega arith)
first_of_append (y ∷ front) back h e = (front, cc)

module _ (D : DirectBuf) where
  -- A cursor that can be read from: within the bytes, and trued up unless nothing is unread.
  pub record IsReadable (pages : List D.T) (c : Cursor) : Type 0 where
    pub inside : c.of ≤ length pages
    pub within : offset D pages c ≤ length (flat D pages)
    pub aligned : IsTrued D pages c

  pub length-unread :
      (pages : List D.T) (c : Cursor)
      → length (unread D pages c) ≡ length (flat D pages) - offset D pages c
  length-unread pages c =
      rw (unread-offset D pages c) (length-drop (offset D pages c) (flat D pages))

  -- The chunk that a `Buf` shows at a trued up cursor begins with the first unread byte.
  pub chunk_at :
      (pages : List D.T) (c : Cursor) (x : ℕ) (xs : List ℕ)
      → IsReadable pages c
      → unread D pages c ≡ x ∷ xs
      → (r : D.T) × (ys : List ℕ) × (get_elem? pages c.of ≡ some r)
        × (slice_from (D.bytes r) c.i ≡ some (x ∷ ys))
  chunk_at pages c x xs good e =
      let t = good.aligned in
      elim (List-cases (drop c.of pages)) [
        | inl last ↦
            let gone : drop {A = ℕ} c.i [] ≡ x ∷ xs = rw last at e in
            cc (gone, drop-nil {A = ℕ} c.i)
        | inr (r, rest, here) ↦
            let lt : c.i < length (D.bytes r) = rw here at t in
            let all : drop c.i (D.bytes r ++ flat D rest) ≡ x ∷ xs = rw here at e in
            let (ys, first) =
              first_of_append (drop c.i (D.bytes r)) (flat D rest)
                (omega (arith, length-drop c.i (D.bytes r)))
                (sym (drop-append_short c.i (D.bytes r) (flat D rest) (omega arith)) ∙ all) in
            (
              r,
              ys,
              get_elem?-drop pages c.of here,
              slice_from_lem (D.bytes r) c.i (omega arith) ∙ ap some first,
            )
      ]

  module _ (L : IsLawful D) (mb : Multibytes D) (small : length (flat D mb.b) < 2 ^ 63) (c : Cursor)
      (good : IsReadable mb.b c) where
    pub has_atleast_one : has_atleast D c mb 1 ≡ ltb 0 (length (unread D mb.b c))
    has_atleast_one = ground (
      arith,
      has_atleast-offset D L mb c 1 (omega (arith, good.within)),
      length-unread mb.b c,
      good.within,
    )

    -- Behind the byte that was read the cursor is readable again.
    pub advance_one :
        (x : ℕ) (xs : List ℕ)
        → unread D mb.b c ≡ x ∷ xs
        → let c' = (advance D c mb 1).0 in
          IsReadable mb.b c' × (unread D mb.b c' ≡ xs) × (c.of ≤ c'.of)
    advance_one x xs e =
        let size = ap (λ (l : List ℕ). length l) e in
        let left = length-unread mb.b c in
        let up = advance-TruesUp D L mb c 1 good.inside (omega (arith, good.within)) in
        let c' = (advance D c mb 1).0 in
        let moved : offset D mb.b c' ≡ offset D mb.b c + 1 = up.same_offset ∙ omega arith in
        let behind : unread D mb.b c' ≡ xs =
          unread-offset D mb.b c'
          ∙ ap (λ o. drop o (flat D mb.b)) moved
          ∙ sym (drop-drop 1 (offset D mb.b c) (flat D mb.b))
          ∙ ap (drop 1) (sym (unread-offset D mb.b c) ∙ e) in
        elim up.settled [
          | inl (_, trued) ↦ (
            record { inside = up.inside; within = omega arith; aligned = trued },
            behind,
            up.forward,
          )
          | inr (f, _) ↦ absurd (ground (arith, up.answer))
        ]
