-- ===== src/Ring/Filling.antt =====
-- src/ring.rs: `FramedRing::frame`, `RingFrameMut::append` and `RingFrameMut::next` on what the
-- frames hold.
use blockrouter.Prelude.{
  ℕ, ◌+◌, ◌^◌, ◌<◌, ◌≡◌, refl, sym, ap, ◌∙◌, ◌⊎◌, inl, inr, true, false, some, arith, List, [], ◌∷◌,
  ◌++◌, length, length-append, ◌==◌,
}
use blockrouter.Prelude.Bits.{bit_and-mask}
use blockrouter.Ring
use blockrouter.Ring.{FramedRing, FrameHeader, element, done, get}
use blockrouter.Ring.Frames
use blockrouter.Ring.Frames.{RingFrame, RingFrameMut, append}
use blockrouter.Ring.Growth.{IsValid, Appends, append_to_ring-Appends}
use blockrouter.Ring.Contents.{Holds, Reads-agree, Reads-snoc}

pub same : (a b : ℕ) → a ≡ b → (a == b) ≡ true
same a b h = ground arith

pub differ : (a b : ℕ) → (a < b) ⊎ (b < a) → (a == b) ≡ false
differ a b h = ground arith

open_at : ℕ → RingFrameMut
open_at n = record { f = record { start = n; live_at = n + 1 } }

module _ {ℓ} {T : Type ℓ} where
  pub get-set_header :
      (r : FramedRing T) (i : ℕ) (h : FrameHeader)
      → i < 2 ^ r.ring_size_2
      → get (Ring.set_header r i h) i ≡ some (Ring.header h)
  unfolding get Ring.get_masked Ring.mask Ring.set_header Ring.write
  get-set_header r i h small = rw (bit_and-mask r.ring_size_2 i small, same i i refl) refl

  pub get-set_header_other :
      (r : FramedRing T) (i j : ℕ) (h : FrameHeader)
      → i < 2 ^ r.ring_size_2
      → j < 2 ^ r.ring_size_2
      → (j < i) ⊎ (i < j)
      → get (Ring.set_header r i h) j ≡ get r j
  unfolding get Ring.get_masked Ring.mask Ring.set_header Ring.write
  get-set_header_other r i j h small small' apart =
      rw (bit_and-mask r.ring_size_2 i small, bit_and-mask r.ring_size_2 j small', differ j i apart)
        refl

  pub set_header-IsValid :
      (r : FramedRing T) (i : ℕ) (h : FrameHeader) → IsValid r → IsValid (Ring.set_header r i h)
  unfolding Ring.set_header
  set_header-IsValid r i h v = record { root = v.root; fits = v.fits }

  -- `x` was appended to the last frame: the frame holds it last, and nothing below the frame changed.
  pub record Extends (r : FramedRing T) (m : RingFrameMut) (xs : List T) (x : T) : Type ℓ where
    pub ring' : FramedRing T
    pub ran : append r m x ≡ done ring'
    pub holds : Holds ring' m.f (xs ++ x ∷ [])
    pub last : ring'.head ≡ m.f.start + 1 + length (xs ++ x ∷ [])
    pub below : (j : ℕ) → j < m.f.start → get ring' j ≡ get r j
    pub valid : IsValid ring'

  longer :
      (start : ℕ) (xs : List T) (x : T)
      → start + 1 + length xs + 1 ≡ start + 1 + length (xs ++ x ∷ [])
  longer start xs x = omega (arith, length-append xs (x ∷ []))

  set_header-head :
      (r : FramedRing T) (i : ℕ) (h : FrameHeader) → (Ring.set_header r i h).head ≡ r.head
  unfolding Ring.set_header
  set_header-head r i h = refl

  append_ran :
      (r : FramedRing T) (m : RingFrameMut) (xs : List T) (x : T) (a : Appends r (element x))
      → Holds r m.f xs
      → append r m x
        ≡ done (
            Ring.set_header a.ring' m.f.start
              (record { next = m.f.start + 1 + length xs + 1; is_live = true }))
  unfolding append
  append_ran r m xs x a h = rw (a.ran, a.kept m.f.start (omega (arith, h.inside)), h.marked) refl

  -- append to a frame that holds `xs` and ends at the head of the ring, of a ring that satisfies the
  -- invariant: it does not panic, even if the buffer grows; the frame then holds `xs` with the
  -- element behind them and ends at the head again; what lies below the frame reads the same; and
  -- the invariant holds again.
  pub append-Extends :
      (r : FramedRing T) (m : RingFrameMut) (xs : List T) (x : T)
      → IsValid r
      → Holds r m.f xs
      → r.head ≡ m.f.start + 1 + length xs
      → Extends r m xs x
  append-Extends r m xs x v h last =
      let a = append_to_ring-Appends r (element x) v in
      let start = m.f.start in
      let mark : FrameHeader = record { next = start + 1 + length xs + 1; is_live = true } in
      let ring' = Ring.set_header a.ring' start mark in
      let room : start < 2 ^ a.ring'.ring_size_2 = omega (arith, a.valid.fits, a.head) in
      let other : (j : ℕ)
          → j < a.ring'.head
          → (j < start) ⊎ (start < j)
          → get ring' j ≡ get a.ring' j =
        λ j p q. get-set_header_other a.ring' start j mark room (omega (arith, a.valid.fits)) q in
      let old : (j : ℕ) → j < r.head → (j < start) ⊎ (start < j) → get ring' j ≡ get r j =
        λ j p q. other j (omega (arith, a.head)) q ∙ a.kept j p in
      let end : ring'.head ≡ start + 1 + length (xs ++ x ∷ []) =
        omega (arith, longer start xs x, a.head, set_header-head a.ring' start mark) in
      record {
        ring' = ring';
        ran = append_ran r m xs x a h;
        holds = record {
          untaken = h.untaken;
          marked =
              get-set_header a.ring' start mark room
              ∙ ap (λ n. some (Ring.header (record { next = n; is_live = true })))
                  (longer start xs x);
          elements =
              Reads-snoc (get ring') (start + 1) xs x
                (Reads-agree (get r) (get ring') (start + 1) xs
                  (λ j p q. old j (omega arith) (inr (omega arith))) h.elements)
                (other (start + 1 + length xs) (omega (arith, a.head)) (inr (omega arith))
                  ∙ ap (get a.ring') (sym last)
                  ∙ a.added);
          inside = omega (arith, end);
        };
        last = end;
        below = λ j p. old j (omega arith) (inl p);
        valid = set_header-IsValid a.ring' start mark a.valid;
      }

  -- A frame was opened at the head of the ring: it is empty, and all below it is as before.
  -- `give` is what the call answers for the new frame.
  pub record Opens {A : Type 0} (r : FramedRing T) (run : Ring.Run (FramedRing T × A))
      (give : RingFrameMut → A) : Type ℓ where
    pub ring' : FramedRing T
    pub opened : RingFrameMut
    pub ran : run ≡ done (ring', give opened)
    pub start : opened.f.start ≡ r.head
    pub holds : Holds ring' opened.f []
    pub last : ring'.head ≡ opened.f.start + 1
    pub below : (j : ℕ) → j < r.head → get ring' j ≡ get r j
    pub valid : IsValid ring'

  first_header : ℕ → Ring.RingElement T
  first_header n = Ring.header (record { next = n + 1; is_live = true })

  opened-Opens :
      {A : Type 0} (r : FramedRing T) (run : Ring.Run (FramedRing T × A)) (give : RingFrameMut → A)
      (a : Appends r (first_header r.head))
      → run ≡ done (a.ring', give (open_at r.head))
      → Opens r run give
  unfolding open_at first_header
  opened-Opens r run give a ran = record {
    ring' = a.ring';
    opened = open_at r.head;
    ran = ran;
    start = refl;
    holds = record {
      untaken = refl;
      marked =
          a.added
          ∙ ap (λ n. some (Ring.header (record { next = n; is_live = true }))) (omega arith);
      elements = tt;
      inside = omega (arith, a.head);
    };
    last = a.head;
    below = a.kept;
    valid = a.valid;
  }

  -- frame on a ring without frames (`head` at the root): it does not panic and opens an empty frame.
  pub frame-Opens : (r : FramedRing T) → IsValid r → r.head ≡ 0 → Opens r (Frames.frame r) (λ o. o)
  unfolding Frames.frame first_header open_at
  frame-Opens r v empty =
      let a = append_to_ring-Appends r (first_header r.head) v in
      opened-Opens r (Frames.frame r) (λ o. o) a
        (rw (same r.head r.base (omega (arith, v.root)), a.ran) refl)

  -- next on a ring that satisfies the invariant: it does not panic, gives the current frame back, and
  -- opens an empty frame at the head.
  pub next-Opens :
      (r : FramedRing T) (m : RingFrameMut) → IsValid r → Opens r (Frames.next r m) (λ o. (m.f, o))
  unfolding Frames.next first_header open_at
  next-Opens r m v =
      let a = append_to_ring-Appends r (first_header r.head) v in
      opened-Opens r (Frames.next r m) (λ o. (m.f, o)) a (rw a.ran refl)
