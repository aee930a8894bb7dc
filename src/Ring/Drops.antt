-- ===== src/Ring/Drops.antt =====
-- src/ring.rs: the end of a frame: `Drop`, `IntoIterator` and `try_promote`.
use blockrouter.Prelude.{
  ℕ, zero, suc, ◌+◌, ◌-◌, ◌^◌, ◌≤◌, ◌<◌, ◌≡◌, refl, sym, ap, ◌∙◌, ◌⊎◌, inl, inr, Bool, true, false,
  some, none, arith, List, [], ◌∷◌, take, length, length-drop, ◌==◌, if◌then◌else◌, Bool-cases,
}
use blockrouter.Prelude as Prelude
use mathlib.Core.Path.{subst}
use blockrouter.Ring
use blockrouter.Ring.{FramedRing, FrameHeader, Run, done, panicked, get, ◌>>=◌}
use blockrouter.Ring.Frames
use blockrouter.Ring.Frames.{RingFrame, RingFrameIntoIter}
use blockrouter.Ring.Growth.{IsValid, get-cell}
use blockrouter.Ring.Contents.{Holds, Reads, beyond_test}
use blockrouter.Ring.Filling.{same, differ}

is_zero : (n : ℕ) → (n == 0) ≡ true → n ≡ 0
is_zero n h = ground arith

is_positive : (n : ℕ) → (n == 0) ≡ false → 0 < n
is_positive n h = ground arith

is_less : (a b : ℕ) → (b == a) ≡ false → a ≤ b → a < b
is_less a b h k = ground arith

module _ {ℓ} {T : Type ℓ} where
  Reads-drop :
      (c : ℕ → Prelude.Option (Ring.RingElement T)) (i n : ℕ) (xs : List T)
      → Reads c i xs
      → Reads c (i + n) (Prelude.drop n xs)
  Reads-drop c i zero xs h = subst (λ k. Reads c k xs) (omega arith) h
  Reads-drop c i (suc n) [] h = tt
  Reads-drop c i (suc n) (x ∷ xs) h =
      subst (λ k. Reads c k (Prelude.drop n xs)) (omega arith) (Reads-drop c (i + 1) n xs h.1)

  drop_elements-Reads :
      (r : FramedRing T) (count i : ℕ) (xs : List T)
      → Reads (get r) i xs
      → count ≡ length xs
      → Frames.drop_elements r count i ≡ done xs
  unfolding Frames.drop_elements get
  drop_elements-Reads r zero i [] h e = refl
  drop_elements-Reads r (suc count) i [] h e = absurd (omega arith)
  drop_elements-Reads r zero i (x ∷ xs) h e = absurd (omega arith)
  drop_elements-Reads r (suc count) i (x ∷ xs) h e =
      rw (h.0, drop_elements-Reads r count (i + 1) xs h.1 (omega arith)) refl

  -- What a drop leaves of the ring: the last frame gives its cells back, the first frame of several
  -- changes nothing, and any other frame is marked dead.
  unfoldable pub released : FramedRing T → ℕ → ℕ → FramedRing T
  released r start end =
      if r.head == end
      then record r { head = start }
      else if start == 0
      then r
      else Ring.set_header r start (record { next = end; is_live = false })

  -- The header of a live frame, met at once by the loop, is where the loop ends.
  skip_dead-live :
      (r : FramedRing T) (i : ℕ) (h : FrameHeader)
      → get r i ≡ some (Ring.header (record { next = h.next; is_live = true }))
      → i + h.next < r.head
      → Frames.skip_dead 2 r i h ≡ done (record r { base = i })
  unfolding Frames.skip_dead get
  skip_dead-live r i h found under = rw (beyond_test r.head (i + h.next) under, found) refl

  release-released :
      (r : FramedRing T) (f : RingFrame) (xs : List T)
      → IsValid r
      → Holds r f xs
      → Frames.release r f.start (record { next = f.start + 1 + length xs; is_live = true })
        ≡ done (released r f.start (f.start + 1 + length xs))
  unfolding Frames.release released
  release-released r f xs v h = elim (Bool-cases (r.head == f.start + 1 + length xs)) [
    | inl last ↦ rw last refl
    | inr inner ↦ elim (Bool-cases (f.start == 0)) [
      | inl first ↦
          rw
            (
              inner,
              first,
              same r.base f.start (omega (arith, is_zero f.start first, v.root)),
              skip_dead-live r f.start (record { next = f.start + 1 + length xs; is_live = true })
                  h.marked
                  (omega (
                    arith,
                    is_zero f.start first,
                    is_less (f.start + 1 + length xs) r.head inner h.inside,
                  )),
            )
            (ap (λ b. done (record r { base = b })) (is_zero f.start first ∙ sym v.root))
      | inr later ↦
          rw
            (
              inner,
              later,
              differ r.base f.start (inl (omega (arith, v.root, is_positive f.start later))),
            )
            refl
    ]
  ]

  -- Drop of a frame that holds `xs`, of which `n` elements were taken before, in a ring that satisfies
  -- the invariant: it drops exactly the elements that are left, in order (none for a type without
  -- drop code), does not panic, and leaves the ring as `released` says.
  pub drop-releases :
      (needs_drop : Bool) (r : FramedRing T) (f : RingFrame) (xs : List T) (n : ℕ)
      → IsValid r
      → Holds r f xs
      → n ≤ length xs
      → Frames.drop needs_drop r (record f { live_at = f.start + 1 + n })
        ≡ done (
          released r f.start (f.start + 1 + length xs),
          if needs_drop then Prelude.drop n xs else [],
        )
  unfolding Frames.drop
  drop-releases true r f xs n v h few =
      rw
        (
          h.marked,
          drop_elements-Reads r (f.start + 1 + length xs - (f.start + 1 + n)) (f.start + 1 + n)
              (Prelude.drop n xs) (Reads-drop (get r) (f.start + 1) n xs h.elements)
              (omega (arith, length-drop n xs)),
          release-released r f xs v h,
        )
        refl
  drop-releases false r f xs n v h few = rw (h.marked, release-released r f xs v h) refl

  -- A frame of which nothing was taken is dropped with all its elements.
  pub untouched :
      (needs_drop : Bool) (r : FramedRing T) (f : RingFrame) (xs : List T)
      → IsValid r
      → Holds r f xs
      → Frames.drop needs_drop r f
        ≡ done (released r f.start (f.start + 1 + length xs), if needs_drop then xs else [])
  untouched needs_drop r f xs v h =
      ap (λ k. Frames.drop needs_drop r (record f { live_at = k })) (h.untaken ∙ omega arith)
      ∙ drop-releases needs_drop r f xs 0 v h (omega arith)

  -- A client's calls of `next` on the iterator, at most `count` of them.
  unfoldable pub take_some : ℕ → FramedRing T → RingFrameIntoIter → Run (RingFrameIntoIter × List T)
  unfolding Frames.into_iter_next
  take_some zero r it = done (it, [])
  take_some (suc count) r it = Frames.into_iter_next r it >>= λ (it', answer). elim answer [
    | none ↦ done (it', [])
    | some x ↦ take_some count r it' >>= λ (it'', xs). done (it'', x ∷ xs)
  ]

  take_some-Reads :
      (r : FramedRing T) (start i end n : ℕ) (xs : List T)
      → Reads (get r) i xs
      → end ≡ i + length xs
      → end ≤ 2 ^ r.ring_size_2
      → n ≤ length xs
      → take_some n r (record { f = record { start = start; live_at = i }; end = end })
        ≡ done (record { f = record { start = start; live_at = i + n }; end = end }, take n xs)
  unfolding take_some Ring.get_masked
  take_some-Reads r start i end zero xs h e small few =
      ap (λ k. done (record { f = record { start = start; live_at = k }; end = end }, []))
        (omega arith)
  take_some-Reads r start i end (suc n) [] h e small few = absurd (omega arith)
  take_some-Reads r start i end (suc n) (x ∷ xs) h e small few =
      rw
        (
          beyond_test end i (omega arith),
          sym (get-cell r i (omega arith)),
          h.0,
          take_some-Reads r start (i + 1) end n xs h.1 (omega arith) small (omega arith),
        )
        (ap
          (λ k.
            done (record { f = record { start = start; live_at = k }; end = end }, x ∷ take n xs))
          (omega arith))

  -- A frame is consumed: `count` elements are taken, and then the iterator is dropped. The elements
  -- that were taken and those that the drop dropped.
  unfoldable pub consume : ℕ → FramedRing T → RingFrame → Run (FramedRing T × (List T × List T))
  consume count r f = Frames.into_iter r f >>= λ it. take_some count r it >>= λ (it', taken).
      Frames.drop true r it'.f >>= λ (r', dropped). done (r', (taken, dropped))

  -- into_iter of a frame that holds `xs`, in a ring that satisfies the invariant, with `n` calls of
  -- next and then the drop of the iterator: the calls give the first `n` elements in order, the drop
  -- drops exactly the others, and the ring is as after a drop of the frame. No element is given twice,
  -- dropped twice or lost.
  pub into_iter-exactly_once :
      (r : FramedRing T) (f : RingFrame) (xs : List T) (n : ℕ)
      → IsValid r
      → Holds r f xs
      → n ≤ length xs
      → consume n r f
        ≡ done (released r f.start (f.start + 1 + length xs), (take n xs, Prelude.drop n xs))
  unfolding consume Frames.into_iter
  into_iter-exactly_once r f xs n v h few =
      rw
        (
          h.marked,
          h.untaken,
          take_some-Reads r f.start (f.start + 1) (f.start + 1 + length xs) n xs h.elements refl
              (omega (arith, h.inside, v.fits)) few,
          drop-releases true r f xs n v h few,
        )
        refl

  -- try_promote of a frame that holds `xs`, in a ring that satisfies the invariant: the frame becomes
  -- mutable exactly if it ends at the head; otherwise it is dropped, with all its elements.
  pub try_promote-last :
      (needs_drop : Bool) (r : FramedRing T) (f : RingFrame) (xs : List T)
      → IsValid r
      → Holds r f xs
      → Frames.try_promote needs_drop r f ≡ (
          if f.start + 1 + length xs == r.head
          then done (r, (some (record { f = f }), []))
          else done
              (released r f.start (f.start + 1 + length xs), (none, if needs_drop then xs else [])))
  unfolding Frames.try_promote
  try_promote-last needs_drop r f xs v h = rw (h.marked, untouched needs_drop r f xs v h) refl
