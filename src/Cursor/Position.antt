-- ===== src/Cursor/Position.antt =====
-- The byte position that a cursor stands for, and what is unread behind it.
use blockrouter.Prelude.{ℕ, zero, suc, ◌+◌, ◌≤◌, ◌<◌, ◌≡◌, refl, sym, ap, ◌∙◌, arith}
use blockrouter.Prelude.{List, [], ◌∷◌, ◌++◌, length, take, drop, append_assoc, length-append}
use blockrouter.Prelude.{drop_next, drop-drop, drop-append_long, take-append_long}
use blockrouter.DirectBuf.{DirectBuf}
use blockrouter.Cursor.{Cursor}

module _ (D : DirectBuf) where
  open D use {T, bytes}

  -- All bytes of the pages, in order.
  abbrev pub flat : List T → List ℕ
  flat [] = []
  flat (p ∷ pages) = bytes p ++ flat pages

  -- The number of bytes before a page.
  abbrev pub before : List T → ℕ → ℕ
  before pages zero = 0
  before [] (suc of) = 0
  before (p ∷ pages) (suc of) = length (bytes p) + before pages of

  abbrev pub offset : List T → Cursor → ℕ
  offset pages c = before pages c.of + c.i

  abbrev pub unread : List T → Cursor → List ℕ
  unread pages c = drop c.i (flat (drop c.of pages))

  -- `of` is a page and `i` an index into it, or the cursor stands right behind the last page.
  abbrev pub IsTruedAt : ℕ → List T → Cursor → Type 0
  IsTruedAt pages [] c = (c.of ≡ pages) × (c.i ≡ 0)
  IsTruedAt pages (r ∷ rest) c = c.i < length (bytes r)

  abbrev pub IsTrued : List T → Cursor → Type 0
  IsTrued pages c = IsTruedAt (length pages) (drop c.of pages) c

  pub flat-append : (xs ys : List T) → flat (xs ++ ys) ≡ flat xs ++ flat ys
  flat-append [] ys = refl
  flat-append (x ∷ xs) ys =
      ap (λ r. bytes x ++ r) (flat-append xs ys) ∙ sym (append_assoc (bytes x) (flat xs) (flat ys))

  pub before-flat :
      (pages : List T) (of : ℕ)
      → before pages of + length (flat (drop of pages)) ≡ length (flat pages)
  before-flat pages zero = omega arith
  before-flat [] (suc of) = omega arith
  before-flat (p ∷ pages) (suc of) =
      omega (arith, before-flat pages of, length-append (bytes p) (flat pages))

  pub drop-before :
      (pages : List T) (of : ℕ) → drop (before pages of) (flat pages) ≡ flat (drop of pages)
  drop-before pages zero = refl
  drop-before [] (suc of) = refl
  drop-before (p ∷ pages) (suc of) =
      drop-append_long (before pages of) (bytes p) (flat pages) ∙ drop-before pages of

  pub take-before :
      (pages : List T) (of : ℕ) → take (before pages of) (flat pages) ≡ flat (take of pages)
  take-before pages zero = refl
  take-before [] (suc of) = refl
  take-before (p ∷ pages) (suc of) =
      take-append_long (before pages of) (bytes p) (flat pages)
      ∙ ap (λ r. bytes p ++ r) (take-before pages of)

  -- What is unread depends on the byte position alone.
  pub unread-offset :
      (pages : List T) (c : Cursor) → unread pages c ≡ drop (offset pages c) (flat pages)
  unread-offset pages c =
      ap (drop c.i) (sym (drop-before pages c.of)) ∙ drop-drop c.i (before pages c.of) (flat pages)

  pub before_next :
      (pages : List T) (of : ℕ) {r : T} {rest : List T}
      → drop of pages ≡ r ∷ rest
      → before pages (of + 1) ≡ before pages of + length (bytes r)
  before_next pages of {r} {rest} e = omega (
    arith,
    before-flat pages of,
    before-flat pages (of + 1),
    ap (λ (l : List T). length (flat l)) e,
    ap (λ (l : List T). length (flat l)) (drop_next of pages e).1,
    length-append (bytes r) (flat rest),
  )

  pub before-append :
      (pages more : List T) (of : ℕ)
      → of ≤ length pages
      → before (pages ++ more) of ≡ before pages of
  before-append pages more zero h = refl
  before-append [] more (suc of) h = absurd (omega arith)
  before-append (p ∷ pages) more (suc of) h = omega (arith, before-append pages more of)

  before-take : (pages : List T) (n of : ℕ) → of ≤ n → before (take n pages) of ≡ before pages of
  before-take pages n zero h = refl
  before-take [] zero (suc of) h = absurd (omega arith)
  before-take [] (suc n) (suc of) h = refl
  before-take (p ∷ pages) zero (suc of) h = absurd (omega arith)
  before-take (p ∷ pages) (suc n) (suc of) h =
      ap (λ t. length (bytes p) + t) (before-take pages n of (omega arith))

  -- Page lists that begin alike have the same positions there.
  pub before_same :
      (xs ys : List T) (n of : ℕ) → take n xs ≡ take n ys → of ≤ n → before xs of ≡ before ys of
  before_same xs ys n of e h =
      sym (before-take xs n of h) ∙ ap (λ (l : List T). before l of) e ∙ before-take ys n of h
