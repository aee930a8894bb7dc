-- ===== src/Ring/Contents.antt =====
-- src/ring.rs: what a frame holds, and reading it.
use blockrouter.Prelude.{
  ℕ, zero, suc, ◌+◌, ◌≤◌, ◌<◌, ◌≡◌, refl, ap, ◌∙◌, true, false, Option, none, some, arith, ◌⊎◌, inl,
  inr, List, [], ◌∷◌, ◌++◌, length, get_elem?, leb,
}
use mathlib.Core.Option.{some-injective}
use blockrouter.Ring.{FramedRing, RingElement, element, Run, done, get, ◌>>=◌}
use blockrouter.Ring.Frames
use blockrouter.Ring.Frames.{RingFrame}

pub within_test : (a b : ℕ) → a ≤ b → leb a b ≡ true
within_test a b h = ground arith

pub beyond_test : (a b : ℕ) → b < a → leb a b ≡ false
beyond_test a b h = ground arith

swap_one : (a b : ℕ) → a + b + 1 ≡ a + 1 + b
swap_one a b = omega arith

module _ {ℓ} {T : Type ℓ} where
  -- The cells from `i` on hold the elements of the list.
  abbrev pub Reads : (ℕ → Option (RingElement T)) → ℕ → List T → Type ℓ
  Reads cells i [] = Unit {ℓ}
  Reads cells i (x ∷ xs) = (cells i ≡ some (element x)) × Reads cells (i + 1) xs

  -- A live frame with the elements `xs`, none of which an iterator has taken.
  pub record Holds (r : FramedRing T) (f : RingFrame) (xs : List T) : Type ℓ where
    pub untaken : f.live_at ≡ f.start + 1
    pub marked :
        get r f.start
        ≡ some (RingElement.header (record { next = f.start + 1 + length xs; is_live = true }))
    pub elements : Reads (get r) (f.start + 1) xs
    pub inside : f.start + 1 + length xs ≤ r.head

  pub Reads-agree :
      (c c' : ℕ → Option (RingElement T)) (i : ℕ) (xs : List T)
      → ((j : ℕ) → i ≤ j → j < i + length xs → c' j ≡ c j)
      → Reads c i xs
      → Reads c' i xs
  Reads-agree c c' i [] agree h = h
  Reads-agree c c' i (x ∷ xs) agree h = (
    agree i (omega arith) (omega arith) ∙ h.0,
    Reads-agree c c' (i + 1) xs (λ j p q. agree j (omega arith) (omega arith)) h.1,
  )

  pub Reads-snoc :
      (c : ℕ → Option (RingElement T)) (i : ℕ) (xs : List T) (x : T)
      → Reads c i xs
      → c (i + length xs) ≡ some (element x)
      → Reads c i (xs ++ x ∷ [])
  Reads-snoc c i [] x h e = (ap c (omega arith) ∙ e, tt)
  Reads-snoc c i (y ∷ ys) x h e = (h.0, Reads-snoc c (i + 1) ys x h.1 (ap c (omega arith) ∙ e))

  -- A frame that lies below `n` is in a ring that has the same cells below `n`.
  pub Holds-kept :
      (r r' : FramedRing T) (f : RingFrame) (xs : List T) (n : ℕ)
      → ((j : ℕ) → j < n → get r' j ≡ get r j)
      → f.start + 1 + length xs ≤ n
      → n ≤ r'.head
      → Holds r f xs
      → Holds r' f xs
  Holds-kept r r' f xs n same under top h = record {
    untaken = h.untaken;
    marked = same f.start (omega arith) ∙ h.marked;
    elements =
        Reads-agree (get r) (get r') (f.start + 1) xs (λ j p q. same j (omega arith)) h.elements;
    inside = omega arith;
  }

  -- len is the number of the elements that the frame holds.
  pub len-Holds :
      (r : FramedRing T) (f : RingFrame) (xs : List T)
      → Holds r f xs
      → Frames.len r f ≡ done (length xs)
  unfolding Frames.len Frames.header_of
  len-Holds r f xs h = rw (h.marked) (ap done (omega arith))

  record Present (xs : List T) (k : ℕ) : Type ℓ where
    x : T
    found : get_elem? xs k ≡ some x
    within : k < length xs

  lookup-cases : (xs : List T) (k : ℕ) → ((get_elem? xs k ≡ none) × (length xs ≤ k)) ⊎ Present xs k
  lookup-cases [] k = inl (refl, omega arith)
  lookup-cases (x ∷ xs) zero = inr (record { x = x; found = refl; within = omega arith })
  lookup-cases (x ∷ xs) (suc k) = elim (lookup-cases xs k) [
    | inl (gone, past) ↦ inl (gone, omega arith)
    | inr p ↦ inr (record { x = p.x; found = p.found; within = omega (arith, p.within) })
  ]

  read_at :
      (c : ℕ → Option (RingElement T)) (i k : ℕ) (xs : List T) (x : T)
      → Reads c i xs
      → get_elem? xs k ≡ some x
      → c (i + k) ≡ some (element x)
  read_at c i k [] x h e = cc
  read_at c i zero (y ∷ ys) x h e =
      ap c (omega arith) ∙ h.0 ∙ ap (λ o. some (element o)) (some-injective y x e)
  read_at c i (suc k) (y ∷ ys) x h e = ap c (omega arith) ∙ read_at c (i + 1) k ys x h.1 e

  -- get of a frame is the lookup in the list of its elements, and `None` past their end.
  pub frame_get-Holds :
      (r : FramedRing T) (f : RingFrame) (xs : List T) (index : ℕ)
      → Holds r f xs
      → Frames.frame_get r f index ≡ done (get_elem? xs index)
  unfolding Frames.frame_get Frames.header_of
  frame_get-Holds r f xs index h = elim (lookup-cases xs index) [
    | inl (gone, past) ↦
        rw
          (
            h.marked,
            gone,
            within_test (f.start + 1 + length xs) (f.start + index + 1) (omega arith),
          )
          refl
    | inr p ↦
        rw
          (
            h.marked,
            p.found,
            beyond_test (f.start + 1 + length xs) (f.start + index + 1) (omega (arith, p.within)),
            ap (get r) (swap_one f.start index),
            read_at (get r) (f.start + 1) index xs p.x h.elements p.found,
          )
          refl
  ]

  -- A client's loop over an iterator, for at most `count` elements.
  unfoldable pub iter_all : ℕ → FramedRing T → Frames.RingFrameIter → Run (List T)
  unfolding Frames.iter_next
  iter_all zero r it = done []
  iter_all (suc count) r it = Frames.iter_next r it >>= λ (it', answer). elim answer [
    | none ↦ done []
    | some x ↦ iter_all count r it' >>= λ xs. done (x ∷ xs)
  ]

  iter_all-Reads :
      (r : FramedRing T) (i end count : ℕ) (xs : List T)
      → Reads (get r) i xs
      → end ≡ i + length xs
      → length xs < count
      → iter_all count r (record { i = i; end = end }) ≡ done xs
  unfolding iter_all
  iter_all-Reads r i end zero xs h e lt = absurd (omega arith)
  iter_all-Reads r i end (suc count) [] h e lt = rw (within_test end i (omega arith)) refl
  iter_all-Reads r i end (suc count) (x ∷ xs) h e lt =
      rw
        (
          beyond_test end i (omega arith),
          h.0,
          iter_all-Reads r (i + 1) end count xs h.1 (omega arith) (omega arith),
        )
        refl

  -- A loop over iter gives the elements of the frame in their order, and ends.
  pub iter-Holds :
      (r : FramedRing T) (f : RingFrame) (xs : List T) (count : ℕ)
      → Holds r f xs
      → length xs < count
      → Frames.iter r f >>= iter_all count r ≡ done xs
  unfolding Frames.iter Frames.header_of
  iter-Holds r f xs count h enough =
      rw (h.marked)
        (iter_all-Reads r (f.start + 1) (f.start + 1 + length xs) count xs h.elements refl enough)
