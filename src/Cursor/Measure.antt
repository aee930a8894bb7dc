-- ===== src/Cursor/Measure.antt =====
-- `remaining`, `has_atleast` and `run_off_end` of `Cursor`, as counts of bytes.
use blockrouter.Prelude.{ℕ, ◌+◌, ◌-◌, ◌<◌, ◌^◌, ◌≡◌, refl, ap, ◌∙◌, arith}
use blockrouter.Prelude.{inl, inr, ◌⊎◌}
use blockrouter.Prelude.{List, [], ◌∷◌, length, drop, leb, add_usize, length-append}
use blockrouter.Prelude.{length-drop}
use blockrouter.Prelude.{get_elem?-drop, get_elem?-drop_end}
use blockrouter.Prelude.{drop-drop, sym, ◌≤◌}
use blockrouter.Cursor.{advance}
use blockrouter.Cursor.Position.{unread-offset}
use blockrouter.Cursor.TrueUp.{advance-TruesUp}
use blockrouter.DirectBuf.{DirectBuf, IsLawful}
use blockrouter.Cursor.{Cursor, Multibytes, sum_remaining, remaining, has_atleast_loop, has_atleast}
use blockrouter.Cursor.{run_off_end}
use blockrouter.Cursor.Position.{flat, offset, before-flat, unread, IsTrued}

module _ (D : DirectBuf) (L : IsLawful D) where
  sum_remaining_lem :
      (rest : List D.T) (prev : ℕ)
      → prev + length (flat D rest) < 2 ^ 64
      → sum_remaining D prev rest ≡ prev + length (flat D rest)
  unfolding sum_remaining
  sum_remaining_lem [] prev small = omega arith
  sum_remaining_lem (r ∷ rest) prev small =
      let both = length-append (D.bytes r) (flat D rest) in
      let e : add_usize prev (D.remaining r) ≡ prev + length (D.bytes r) =
        rw (L.remaining-bytes r) (omega arith) in
      rw e (sum_remaining_lem rest (prev + length (D.bytes r)) (omega arith) ∙ omega arith)

  -- `remaining` counts the unread bytes, where their number and that of all bytes fits a `usize`.
  pub remaining-unread :
      (mb : Multibytes D) (c : Cursor)
      → length (flat D mb.b) < 2 ^ 64
      → remaining D c mb ≡ length (unread D mb.b c)
  unfolding remaining
  remaining-unread mb c small = ground (
    arith,
    sum_remaining_lem (drop c.of mb.b) 0 (omega (arith, before-flat D mb.b c.of)),
    length-drop c.i (flat D (drop c.of mb.b)),
  )

  has_atleast_loop_lem :
      (rest : List D.T) (left : ℕ) → has_atleast_loop D rest left ≡ leb left (length (flat D rest))
  unfolding has_atleast_loop
  has_atleast_loop_lem [] left = ground arith
  has_atleast_loop_lem (r ∷ rest) left = ground (
    arith,
    L.remaining-bytes r,
    length-append (D.bytes r) (flat D rest),
    has_atleast_loop_lem rest (left - D.remaining r),
  )

  -- `has_atleast` tells whether `len` bytes follow the cursor's position, where `len` plus the index
  -- into the page does not wrap.
  pub has_atleast-offset :
      (mb : Multibytes D) (c : Cursor) (len : ℕ)
      → len + c.i < 2 ^ 64
      → has_atleast D c mb len ≡ leb (offset D mb.b c + len) (length (flat D mb.b))
  unfolding has_atleast
  has_atleast-offset mb c len small =
      ground (arith, before-flat D mb.b c.of, has_atleast_loop_lem (drop c.of mb.b) (len + c.i))

  -- On a lawful buffer with less than 2 ^ 64 bytes, from a cursor on the pages and for an `n` that does
  -- not wrap: advance tells that it stays within the bytes exactly if has_atleast of `n` holds before;
  -- what is unread afterwards is what was unread without its first `n` bytes; remaining is the number
  -- of bytes that are unread, and is less by `n` afterwards, or 0.
  pub advance-reads :
      (mb : Multibytes D) (c : Cursor) (n : ℕ)
      → c.of ≤ length mb.b
      → length (flat D mb.b) < 2 ^ 64
      → c.i + n < 2 ^ 64
      → ((advance D c mb n).1 ≡ has_atleast D c mb n)
        × (unread D mb.b (advance D c mb n).0 ≡ drop n (unread D mb.b c))
        × (remaining D c mb ≡ length (unread D mb.b c))
        × (remaining D (advance D c mb n).0 mb ≡ remaining D c mb - n)
  advance-reads mb c n h fits small =
      let up = advance-TruesUp D L mb c n h small in
      let moved : offset D mb.b (advance D c mb n).0 ≡ offset D mb.b c + n =
        omega (arith, up.same_offset) in
      let left : unread D mb.b (advance D c mb n).0 ≡ drop n (unread D mb.b c) =
        unread-offset D mb.b _
        ∙ ap (λ k. drop k (flat D mb.b)) moved
        ∙ sym (drop-drop n (offset D mb.b c) (flat D mb.b))
        ∙ ap (drop n) (sym (unread-offset D mb.b c)) in
      (
        up.answer
            ∙ ap (λ k. leb k (length (flat D mb.b))) (omega arith)
            ∙ sym (has_atleast-offset mb c n (omega arith)),
        left,
        remaining-unread mb c fits,
        remaining-unread mb (advance D c mb n).0 fits
            ∙ ap (λ (l : List ℕ). length l) left
            ∙ length-drop n (unread D mb.b c)
            ∙ ap (λ k. k - n) (sym (remaining-unread mb c fits)),
      )

  -- For a cursor that `true_up` has settled, `run_off_end` is the number of bytes missing up to its
  -- position.
  pub run_off_end-offset :
      (mb : Multibytes D) (c : Cursor)
      → IsTrued D mb.b c ⊎ (c.of ≡ length mb.b)
      → run_off_end D c mb ≡ offset D mb.b c - length (flat D mb.b)
  unfolding run_off_end
  run_off_end-offset mb c settled = go (drop c.of mb.b) refl
    where
      go :
          (rest : List D.T)
          → drop c.of mb.b ≡ rest
          → run_off_end D c mb ≡ offset D mb.b c - length (flat D mb.b)
      go [] e =
          rw (get_elem?-drop_end mb.b c.of e)
            (omega (arith, before-flat D mb.b c.of, ap (λ (l : List D.T). length (flat D l)) e))
      go (r ∷ rest) e = elim settled [
        | inl t ↦
            let inside : c.i < length (D.bytes r) = rw e at t in
            rw (get_elem?-drop mb.b c.of e) (
              ground (
                arith,
                L.remaining-bytes r,
                before-flat D mb.b c.of,
                ap (λ (l : List D.T). length (flat D l)) e,
                length-append (D.bytes r) (flat D rest),
              ))
        | inr last ↦
            absurd (omega (arith, length-drop c.of mb.b, ap (λ (l : List D.T). length l) e))
      ]
