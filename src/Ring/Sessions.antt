-- ===== src/Ring/Sessions.antt =====
-- src/ring.rs: whole uses of a ring.
use blockrouter.Prelude.{
  ℕ, ◌+◌, ◌≡◌, refl, sym, ap, ◌∙◌, ◌<◌, inr, arith, true, List, [], ◌∷◌, ◌++◌, length, append_assoc,
  append-nil,
}
use mathlib.Core.Path.{subst}
use blockrouter.Ring
use blockrouter.Ring.{FramedRing, Run, done, panicked, ◌>>=◌}
use blockrouter.Ring.Frames
use blockrouter.Ring.Frames.{RingFrame, RingFrameMut}
use blockrouter.Ring.Growth.{IsValid}
use blockrouter.Ring.Contents.{Holds, iter_all, iter-Holds}
use blockrouter.Ring.Filling.{same, differ, append-Extends, Opens, frame-Opens}
use blockrouter.Ring.Drops.{released, untouched}

module _ {ℓ} {T : Type ℓ} where
  unfoldable pub append_all : FramedRing T → RingFrameMut → List T → Run (FramedRing T)
  append_all r m [] = done r
  append_all r m (x ∷ xs) = Frames.append r m x >>= λ r'. append_all r' m xs

  -- The elements `ys` were appended to the last frame, which held `xs`.
  pub record Fills (r : FramedRing T) (m : RingFrameMut) (xs ys : List T) : Type ℓ where
    pub ring' : FramedRing T
    pub ran : append_all r m ys ≡ done ring'
    pub holds : Holds ring' m.f (xs ++ ys)
    pub last : ring'.head ≡ m.f.start + 1 + length (xs ++ ys)
    pub valid : IsValid ring'

  append_all-Fills :
      (r : FramedRing T) (m : RingFrameMut) (xs ys : List T)
      → IsValid r
      → Holds r m.f xs
      → r.head ≡ m.f.start + 1 + length xs
      → Fills r m xs ys
  unfolding append_all
  append_all-Fills r m xs [] v h last = record {
    ring' = r;
    ran = refl;
    holds = subst (λ zs. Holds r m.f zs) (sym (append-nil xs)) h;
    last = last ∙ ap (λ zs. m.f.start + 1 + length zs) (sym (append-nil xs));
    valid = v;
  }
  append_all-Fills r m xs (y ∷ ys) v h last =
      let e = append-Extends r m xs y v h last in
      let rest = append_all-Fills e.ring' m (xs ++ y ∷ []) ys e.valid e.holds e.last in
      record {
        ring' = rest.ring';
        ran = rw e.ran rest.ran;
        holds = subst (λ zs. Holds rest.ring' m.f zs) (append_assoc xs (y ∷ []) ys) rest.holds;
        last = rest.last ∙ ap (λ zs. m.f.start + 1 + length zs) (append_assoc xs (y ∷ []) ys);
        valid = rest.valid;
      }

  new-IsValid : IsValid (Ring.new {T = T})
  unfolding Ring.new
  new-IsValid = record { root = refl; fits = omega arith }

  new-Opens : Opens (Ring.new {T = T}) (Frames.frame Ring.new) (λ o. o)
  unfolding Ring.new
  new-Opens = frame-Opens (Ring.new {T = T}) new-IsValid refl

  -- A new ring, one frame, and any list of elements appended to it: none of the calls panics, and a
  -- loop over the frame's iterator gives the list.
  pub frame-append-iter :
      (xs : List T)
      → (Frames.frame Ring.new >>= λ (r, m).
          append_all r m xs >>= λ r'. Frames.iter r' m.f >>= λ it. iter_all (length xs + 1) r' it)
        ≡ done xs
  frame-append-iter xs =
      let o = new-Opens in
      let filled =
        append_all-Fills o.ring' o.opened [] xs o.valid o.holds (omega (arith, o.last)) in
      rw (o.ran, filled.ran)
        (iter-Holds filled.ring' o.opened.f xs (length xs + 1) filled.holds (omega arith))

  released-first : (r : FramedRing T) (end : ℕ) → end < r.head → released r 0 end ≡ r
  unfolding released
  released-first r end under = rw (differ r.head end (inr under)) refl

  released-last :
      (r : FramedRing T) (start end : ℕ)
      → end ≡ r.head
      → released r start end ≡ record r { head = start }
  unfolding released
  released-last r start end at_head = rw (same r.head end (sym at_head)) refl

  frame_off_root :
      (r : FramedRing T) (start : ℕ)
      → r.base < start
      → Frames.frame (record r { head = start }) ≡ panicked
  unfolding Frames.frame
  frame_off_root r start off = rw (differ start r.base (inr off)) refl

  -- Two frames, the first at the root of a ring that satisfies the invariant and the second behind it
  -- and last. The drop of the first drops its elements and leaves the ring as it is; the drop of the
  -- second after it drops its elements and puts the head back to the second frame's start, which is
  -- above the root; and then frame panics.
  pub drop-drop-frame :
      (r : FramedRing T) (a b : RingFrame) (xs ys : List T)
      → IsValid r
      → Holds r a xs
      → Holds r b ys
      → a.start ≡ 0
      → b.start ≡ a.start + 1 + length xs
      → r.head ≡ b.start + 1 + length ys
      → (Frames.drop true r a ≡ done (r, xs))
        × (Frames.drop true r b ≡ done (record r { head = b.start }, ys))
        × (r.base < b.start)
        × (Frames.frame (record r { head = b.start }) ≡ panicked)
  drop-drop-frame r a b xs ys v ha hb first behind last = (
    rw (untouched true r a xs v ha, first, released-first r (0 + 1 + length xs) (omega arith)) refl,
    rw (untouched true r b ys v hb, released-last r b.start (b.start + 1 + length ys) (sym last))
        refl,
    omega (arith, v.root),
    frame_off_root r b.start (omega (arith, v.root)),
  )
