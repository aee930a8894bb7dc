-- ===== src/Cursor/Vectored.antt =====
-- src/cursor.rs: `bytes_vectored`, the slices that a vectored write takes.
use blockrouter.Prelude.{
  if◌then◌else◌, ℕ, ◌+◌, ◌≤◌, ◌<◌, ◌≡◌, ◌≢◌, refl, sym, ap, ◌∙◌, arith, inl, inr, Bool-cases,
  Option, none, some, List, [], ◌∷◌, ◌++◌, concat, length, drop, set-append, append_assoc,
  append-nil, length-append, drop-append_short, drop-nil, drop-drop, drop_next, true, false, leb,
  ltb, ◌==◌, List-cases,
}
use blockrouter.DirectBuf.{DirectBuf, IsLawful}
use blockrouter.Cursor
use blockrouter.Cursor.{Cursor, Multibytes, put_slice, fill_slices, bytes_vectored}
use blockrouter.Cursor.Position.{flat, unread, IsTrued}

module _ (D : DirectBuf) where
  -- From `bytes` to be written into the slices `room`: the slices that were filled, and the bytes that
  -- found no slice.
  pub record Fills (bytes : List ℕ) (done room : List (List ℕ)) (o : Option (ℕ × List (List ℕ)))
      : Type 0 where
    pub slices : List (List ℕ)
    pub others : List ℕ
    pub returned : o ≡ some (length (done ++ slices), (done ++ slices) ++ drop (length slices) room)
    pub written : concat slices ++ others ≡ bytes
    pub within : length slices ≤ length room
    pub all : length slices < length room → others ≡ []

  no_bytes : (xs : List ℕ) → length xs ≡ 0 → xs ≡ []
  no_bytes [] h = refl
  no_bytes (x ∷ xs) h = absurd (omega arith)

  put_slice-next :
      (done room : List (List ℕ)) (r v : List ℕ)
      → put_slice (done ++ r ∷ room) (length done) v ≡ some ((done ++ v ∷ []) ++ room)
  unfolding put_slice
  put_slice-next done room r v =
      let inside : ltb (length done) (length (done ++ r ∷ room)) ≡ true =
        ground (arith, length-append done (r ∷ room)) in
      rw (inside, set-append done room r v) refl

  fill_step :
      (p : D.T) (pages : List D.T) (done room : List (List ℕ)) (r : List ℕ)
      → (D.remaining p == 0) ≡ false
      → fill_slices D (p ∷ pages) (length done) (done ++ r ∷ room) ≡ (
          if leb (length (done ++ r ∷ room)) (length done + 1)
          then some (length done + 1, (done ++ D.as_ref p ∷ []) ++ room)
          else fill_slices D pages (length done + 1) ((done ++ D.as_ref p ∷ []) ++ room))
  unfolding fill_slices
  fill_step p pages done room r e =
      rw (fill_slices, e, put_slice-next done room r (D.as_ref p)) refl

  skip_step :
      (p : D.T) (pages : List D.T) (i : ℕ) (dst : List (List ℕ))
      → (D.remaining p == 0) ≡ true
      → fill_slices D (p ∷ pages) i dst ≡ fill_slices D pages i dst
  unfolding fill_slices
  skip_step p pages i dst e = rw (fill_slices, e) refl

  -- One slice more.
  Fills-next :
      (bytes : List ℕ) (done room : List (List ℕ)) (r v : List ℕ) (o : Option (ℕ × List (List ℕ)))
      → Fills bytes (done ++ v ∷ []) room o
      → Fills (v ++ bytes) done (r ∷ room) o
  Fills-next bytes done room r v o f =
      let joined = append_assoc done (v ∷ []) f.slices in
      record {
        slices = v ∷ f.slices;
        others = f.others;
        returned = f.returned ∙ ap (λ l. some (length l, l ++ drop (length f.slices) room)) joined;
        written = append_assoc v (concat f.slices) f.others ∙ ap (λ l. v ++ l) f.written;
        within = omega (arith, f.within);
        all = λ h. f.all (omega arith);
      }

  -- No slice more.
  Fills-end :
      (bytes : List ℕ) (done room : List (List ℕ))
      → (0 < length room → bytes ≡ [])
      → Fills bytes done room (some (length done, done ++ room))
  Fills-end bytes done room all = record {
    slices = [];
    others = bytes;
    returned = ap (λ l. some (length l, l ++ room)) (sym (append-nil done));
    written = refl;
    within = omega arith;
    all = all;
  }

  length-snoc : (done : List (List ℕ)) (v : List ℕ) → length done + 1 ≡ length (done ++ v ∷ [])
  length-snoc done v = omega (arith, length-append done (v ∷ []))

  -- What follows a slice, given what holds of the pages behind.
  after_put :
      (pages : List D.T) (done : List (List ℕ)) (r v : List ℕ) (room : List (List ℕ))
      → (0 < length room
          → Fills
              (flat D pages)
              (done ++ v ∷ [])
              room
              (fill_slices D pages (length (done ++ v ∷ [])) ((done ++ v ∷ []) ++ room)))
      → Fills (flat D pages) (done ++ v ∷ []) room (
          if leb (length (done ++ r ∷ room)) (length done + 1)
          then some (length done + 1, (done ++ v ∷ []) ++ room)
          else fill_slices D pages (length done + 1) ((done ++ v ∷ []) ++ room))
  after_put pages done r v [] ih =
      let full : leb (length (done ++ r ∷ [])) (length done + 1) ≡ true =
        ground (arith, length-append done (r ∷ [])) in
      rw (full, length-snoc done v)
        (Fills-end (flat D pages) (done ++ v ∷ []) [] (λ h. absurd (omega arith)))
  after_put pages done r v (q ∷ room) ih =
      let more : leb (length (done ++ r ∷ q ∷ room)) (length done + 1) ≡ false =
        ground (arith, length-append done (r ∷ q ∷ room)) in
      rw (more, length-snoc done v) (ih (omega arith))

  module _ (L : IsLawful D) where
    fill_slices-Fills :
        (pages : List D.T) (done room : List (List ℕ))
        → 0 < length room
        → Fills (flat D pages) done room (fill_slices D pages (length done) (done ++ room))
    unfolding fill_slices
    fill_slices-Fills [] done room some_room = Fills-end [] done room (λ h. refl)
    fill_slices-Fills (p ∷ pages) done [] some_room = absurd (omega arith)
    fill_slices-Fills (p ∷ pages) done (r ∷ room) some_room =
        elim (Bool-cases (D.remaining p == 0)) [
          | inl none_there ↦
              let empty : D.bytes p ≡ [] =
                no_bytes (D.bytes p) (ground (arith, L.remaining-bytes p)) in
              rw (skip_step p pages (length done) (done ++ r ∷ room) none_there, empty)
                (fill_slices-Fills pages done (r ∷ room) some_room)
          | inr there ↦
              rw (fill_step p pages done room r there, ← L.as_ref-bytes p)
                (Fills-next (flat D pages) done room r (D.as_ref p) _ (
                  after_put pages done r (D.as_ref p) room
                    (fill_slices-Fills pages (done ++ D.as_ref p ∷ []) room)))
        ]

    no_room :
        (pages : List D.T) (v : List ℕ)
        → 0 < length (flat D pages)
        → fill_slices D pages 1 (v ∷ []) ≡ none
    unfolding fill_slices put_slice
    no_room [] v some_bytes = absurd (omega arith)
    no_room (p ∷ pages) v some_bytes = elim (Bool-cases (D.remaining p == 0)) [
      | inl none_there ↦
          skip_step p pages 1 (v ∷ []) none_there
          ∙ no_room pages v (
              ground (
                arith,
                L.remaining-bytes p,
                none_there,
                some_bytes,
                length-append (D.bytes p) (flat D pages),
              ))
      | inr there ↦ rw (fill_slices, there) refl
    ]

    module _ (c : Cursor) (mb : Multibytes D) (trued : IsTrued D mb.b c) where
      first_page :
          (p : D.T) (pages : List D.T)
          → drop c.of mb.b ≡ p ∷ pages
          → (Cursor.slice_from (D.as_ref p) c.i ≡ some (drop c.i (D.bytes p)))
            × (unread D mb.b c ≡ drop c.i (D.bytes p) ++ flat D pages)
      unfolding Cursor.slice_from
      first_page p pages e =
          let inside : c.i < length (D.bytes p) = rw e at trued in
          let fits : leb c.i (length (D.bytes p)) ≡ true = ground (arith, inside) in
          (
            rw (L.as_ref-bytes p, fits) refl,
            rw e (drop-append_short c.i (D.bytes p) (flat D pages) (omega arith)),
          )

      from_first :
          (p : D.T) (pages : List D.T) (d : List ℕ) (dst : List (List ℕ))
          → drop c.of mb.b ≡ p ∷ pages
          → Cursor.fill_from_first D c (drop c.of mb.b) (d ∷ dst)
            ≡ fill_slices D pages 1 (drop c.i (D.bytes p) ∷ dst)
      unfolding Cursor.fill_from_first
      from_first p pages d dst e =
          rw (e, (first_page p pages e).0, put_slice-next [] dst d (drop c.i (D.bytes p))) refl

      -- On a lawful buffer, from a cursor that is trued up, into any number of slices but one,
      -- bytes_vectored returns: it fills the first slices, whose number it gives, with the first unread bytes
      -- in order, leaves the other slices as they are, and if it leaves one, no unread byte found no slice.
      pub bytes_vectored-Fills :
          (dst : List (List ℕ))
          → length dst ≢ 1
          → Fills (unread D mb.b c) [] dst (bytes_vectored D c mb dst)
      unfolding bytes_vectored Cursor.fill_from_first
      bytes_vectored-Fills [] several =
          Fills-end (unread D mb.b c) [] [] (λ h. absurd (omega arith))
      bytes_vectored-Fills (d ∷ []) several = absurd (several (omega arith))
      bytes_vectored-Fills (d ∷ e ∷ dst) several =
          let some_slice : ltb (length (d ∷ e ∷ dst)) 1 ≡ false = ground arith in
          elim (List-cases (drop c.of mb.b)) [
            | inl none_left ↦
                let nothing : unread D mb.b c ≡ [] =
                  ap (λ l. drop c.i (flat D l)) none_left ∙ drop-nil c.i in
                rw (some_slice, none_left)
                  (Fills-end (drop c.i []) [] (d ∷ e ∷ dst) (λ h. drop-nil c.i))
            | inr (p, pages, there) ↦
                rw (some_slice, from_first p pages d (e ∷ dst) there, (first_page p pages there).1)
                  (Fills-next (flat D pages) [] (e ∷ dst) d (drop c.i (D.bytes p)) _
                    (fill_slices-Fills pages (drop c.i (D.bytes p) ∷ []) (e ∷ dst) (omega arith)))
          ]

      -- On a lawful buffer, from a cursor that is trued up, bytes_vectored of a single slice panics if there is
      -- a byte in the pages behind the cursor's.
      pub bytes_vectored-one_slice :
          (d : List ℕ)
          → 0 < length (flat D (drop (c.of + 1) mb.b))
          → bytes_vectored D c mb (d ∷ []) ≡ none
      unfolding bytes_vectored
      bytes_vectored-one_slice d behind = elim (List-cases (drop c.of mb.b)) [
        | inl none_left ↦
            let nothing = ap (λ (l : List D.T). length (flat D (drop 1 l))) none_left in
            absurd
              (omega (arith, behind, nothing, ap (λ l. length (flat D l)) (drop-drop 1 c.of mb.b)))
        | inr (p, pages, there) ↦
            let next = ap (λ l. length (flat D l)) (drop_next c.of mb.b there).1 in
            rw (from_first p pages d [] there)
              (no_room pages (drop c.i (D.bytes p)) (omega (arith, behind, next)))
      ]
