-- ===== src/Cursor/Front.antt =====
-- src/cursor.rs: cursors into the front part that `split_to` returns.
use blockrouter.Prelude.{
  drop-length, drop-append_short, ◌++◌, ℕ, ◌+◌, ◌≤◌, ◌<◌, ◌≡◌, refl, ap, ◌∙◌, arith, inl, inr, List,
  [], ◌∷◌, length, drop, List-cases, drop_next, drop_end, length-drop, length-take, length-append,
  Bool-cases, ltb,
}
use blockrouter.DirectBuf.{DirectBuf}
use blockrouter.Cursor.{Cursor}
use blockrouter.Cursor.Position.{
  flat, offset, before, before_next, before-flat, before_same, IsTrued,
}
use blockrouter.Cursor.Split.{Splits}

module _ (D : DirectBuf) where
  -- A page with some bytes behind the others keeps a cursor trued up.
  pub IsTrued-append :
      (pages : List D.T) (p : D.T) (c : Cursor)
      → 0 < length (D.bytes p)
      → IsTrued D pages c
      → IsTrued D (pages ++ p ∷ []) c
  IsTrued-append pages p c some_bytes t = elim (List-cases (drop c.of pages)) [
    | inl none_left ↦
        let (last, start) : (c.of ≡ length pages) × (c.i ≡ 0) = rw none_left at t in
        let new : drop c.of (pages ++ p ∷ []) ≡ p ∷ [] =
          ap (λ k. drop k (pages ++ p ∷ [])) last ∙ drop-length pages (p ∷ []) in
        rw new (omega (arith, start))
    | inr (r, rest, there) ↦
        let inside : c.i < length (D.bytes r) = rw there at t in
        let same : drop c.of (pages ++ p ∷ []) ≡ r ∷ (rest ++ p ∷ []) =
          drop-append_short c.of pages (p ∷ []) (omega (arith, drop_next c.of pages there))
          ∙ ap (λ l. l ++ p ∷ []) there in
        rw same inside
  ]

module _ (D : DirectBuf) (pages front back : List D.T) (c e : Cursor)
    (s : Splits D pages e front back) (order : c.of ≤ e.of) (end_page : e.of ≤ length pages)
    (end : offset D pages e ≤ length (flat D pages))
    (ahead : offset D pages c < offset D pages e) where
  front_total : length (flat D front) ≡ offset D pages e
  front_total =
      ap (λ (l : List ℕ). length l) s.front_bytes
      ∙ omega (arith, length-take (offset D pages e) (flat D pages))

  same_start : before D front c.of ≡ before D pages c.of
  same_start = before_same D front pages e.of c.of s.whole_pages order

  inside_page :
      (r : D.T) (rest : List D.T)
      → drop c.of front ≡ r ∷ rest
      → IsTrued D pages c
      → c.i < length (D.bytes r)
  inside_page r rest at t = elim (Bool-cases (ltb c.of e.of)) [
    | inl earlier ↦ elim (List-cases (drop c.of pages)) [
      | inl none_left ↦ absurd (ground (arith, drop_end c.of pages none_left))
      | inr (q, others, there) ↦
          let inside : c.i < length (D.bytes q) = rw there at t in
          ground (
            arith,
            before_next D front c.of at,
            before_next D pages c.of there,
            same_start,
            before_same D front pages e.of (c.of + 1) s.whole_pages (ground arith),
          )
    ]
    | inr last ↦
        let one : length rest ≡ 0 =
          ground
            (arith, ap (λ (l : List D.T). length l) at, length-drop c.of front, s.front_pages) in
        let nothing = no_bytes rest one in
        ground (
          arith,
          before-flat D front c.of,
          ap (λ (l : List D.T). length (flat D l)) at,
          length-append (D.bytes r) (flat D rest),
          nothing,
          front_total,
          same_start,
        )
  ]
    where
      no_bytes : (l : List D.T) → length l ≡ 0 → length (flat D l) ≡ 0
      no_bytes [] h = refl
      no_bytes (x ∷ l) h = absurd (omega arith)

  -- A cursor that is trued up on the pages, and ahead of the split, is trued up on the front part.
  pub front-IsTrued : IsTrued D pages c → IsTrued D front c
  front-IsTrued t = elim (List-cases (drop c.of front)) [
    | inl none_left ↦ absurd (
        omega (
          arith,
          before-flat D front c.of,
          ap (λ (l : List D.T). length (flat D l)) none_left,
          front_total,
          same_start,
        ))
    | inr (r, rest, at) ↦ rw at (inside_page r rest at t)
  ]
