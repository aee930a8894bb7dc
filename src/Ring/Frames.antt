-- ===== src/Ring/Frames.antt =====
-- src/ring.rs: the frames of a ring, their iterators and their `Drop`.
use blockrouter.Prelude.{ℕ, zero, suc, ◌+◌, ◌-◌, bit_and, Bool, true, false, Option, none, some}
use blockrouter.Prelude.{List, [], ◌∷◌, ltb, leb, ◌==◌, if◌then◌else◌}
use blockrouter.Ring.{
  FrameHeader, RingElement, element, FramedRing, Run, done, panicked, endless, ◌>>=◌,
}
use blockrouter.Ring.{append_to_ring, mask, get, get_masked, set_header, as_header, as_element}

-- The reference to the ring is an argument of the operations.
pub record RingFrame : Type 0 where
  pub start : ℕ
  pub live_at : ℕ

pub record RingFrameMut : Type 0 where
  pub f : RingFrame

pub record RingFrameIter : Type 0 where
  pub i : ℕ
  pub end : ℕ

pub record RingFrameIntoIter : Type 0 where
  pub f : RingFrame
  pub end : ℕ

-- `RingFrameMut::inner` and `downgrade`
unfoldable pub inner : RingFrameMut → RingFrame
inner m = m.f

unfoldable pub downgrade : RingFrameMut → RingFrame
downgrade m = m.f

module _ {ℓ} {T : Type ℓ} where
  unfoldable pub frame : FramedRing T → Run (FramedRing T × RingFrameMut)
  unfolding append_to_ring
  frame r =
      let start = r.head in
      let appended =
        append_to_ring r (RingElement.header (record { next = start + 1; is_live = true }))
        >>= λ r'. done (r', record { f = record { start = start; live_at = start + 1 } }) in
      if start == r.base then appended else panicked

  -- `for i in self.live_at..header.next`: the elements dropped, in order.
  unfoldable pub drop_elements : FramedRing T → ℕ → ℕ → Run (List T)
  unfolding mask get_masked as_element
  drop_elements r zero i = done []
  drop_elements r (suc count) i = as_element (get_masked r (bit_and i (mask r))) >>= λ x.
      drop_elements r count (i + 1) >>= λ rest. done (x ∷ rest)

  -- The loop over the headers. It never moves `header_idx`, so its second round reads the header it
  -- read in the first, and a third round would be as the second: two rounds are all there are.
  unfoldable pub skip_dead : ℕ → FramedRing T → ℕ → FrameHeader → Run (FramedRing T)
  unfolding mask get_masked as_header
  skip_dead zero r header_idx working_header = endless
  skip_dead (suc rounds) r header_idx working_header =
      let next_header_index = header_idx + working_header.next in
      let onwards = as_header (get_masked r (bit_and header_idx (mask r))) >>= λ h.
      let again = skip_dead rounds r header_idx h in
      if h.is_live then done (record r { base = header_idx }) else again in
      if leb r.head next_header_index
      then if ltb r.head next_header_index then panicked else done (record r { base = r.head })
      else onwards

  -- What `drop` does after the elements are dropped; `start` is the frame's.
  unfoldable pub release : FramedRing T → ℕ → FrameHeader → Run (FramedRing T)
  unfolding skip_dead set_header
  release r start h =
      let dead : FrameHeader = record { next = h.next; is_live = false } in
      let scan = skip_dead 2 r start h in
      if r.head == h.next
      then done (record r { head = start })
      else if r.base == start
      then scan
      else done (set_header r start dead)

  -- `Drop` of a frame, with the elements that it drops; the flag is `needs_drop::<T>()`.
  unfoldable pub drop : Bool → FramedRing T → RingFrame → Run (FramedRing T × List T)
  unfolding as_header
  drop needs_drop r f = as_header (get r f.start) >>= λ h.
      (if needs_drop then drop_elements r (h.next - f.live_at) f.live_at else done []) >>= λ xs.
      release r f.start h >>= λ r'. done (r', xs)

  -- Without an answer the frame, which was moved into the call, is dropped at its end. The elements
  -- that are dropped stand last.
  unfoldable pub try_promote :
      Bool → FramedRing T → RingFrame → Run (FramedRing T × (Option RingFrameMut × List T))
  unfolding as_header
  try_promote needs_drop r f =
      let refuse = drop needs_drop r f >>= λ (r', xs). done (r', (none, xs)) in
      as_header (get r f.start) >>= λ h.
      if h.next == r.head then done (r, (some (record { f = f }), [])) else refuse

  -- `unwrap` of the answer.
  unfoldable pub promote : Bool → FramedRing T → RingFrame → Run (FramedRing T × RingFrameMut)
  unfolding try_promote
  promote needs_drop r f = try_promote needs_drop r f >>= λ (r', (answer, xs)). elim answer [
    | none ↦ panicked
    | some m ↦ done (r', m)
  ]

  unfoldable pub header_of : FramedRing T → RingFrame → Run FrameHeader
  unfolding get as_header
  header_of r f = as_header (get r f.start)

  unfoldable pub len : FramedRing T → RingFrame → Run ℕ
  unfolding header_of
  len r f = header_of r f >>= λ h. done (h.next - f.start - 1)

  unfoldable pub frame_get : FramedRing T → RingFrame → ℕ → Run (Option T)
  unfolding header_of get as_element
  frame_get r f index =
      let i = f.start + index + 1 in
      let read = as_element (get r i) >>= λ x. done (some x) in
      header_of r f >>= λ h. if leb h.next i then done none else read

  unfoldable pub iter : FramedRing T → RingFrame → Run RingFrameIter
  unfolding header_of
  iter r f = header_of r f >>= λ h. done (record { i = f.start + 1; end = h.next })

  unfoldable pub iter_next : FramedRing T → RingFrameIter → Run (RingFrameIter × Option T)
  unfolding get as_element
  iter_next r it =
      let read = as_element (get r it.i) >>= λ x. done (record it { i = it.i + 1 }, some x) in
      if leb it.end it.i then done (it, none) else read

  unfoldable pub into_iter : FramedRing T → RingFrame → Run RingFrameIntoIter
  unfolding get as_header
  into_iter r f = as_header (get r f.start) >>= λ h. done (record { f = f; end = h.next })

  -- The cell is read at `live_at` itself, without the mask.
  unfoldable pub into_iter_next :
      FramedRing T → RingFrameIntoIter → Run (RingFrameIntoIter × Option T)
  unfolding get_masked as_element
  into_iter_next r it =
      let live_at = it.f.live_at in
      let read = as_element (get_masked r live_at) >>= λ x.
      done (record it { f = record it.f { live_at = live_at + 1 } }, some x) in
      if leb it.end live_at then done (it, none) else read

  -- `RingFrameMut::next`
  unfoldable pub next :
      FramedRing T → RingFrameMut → Run (FramedRing T × (RingFrame × RingFrameMut))
  unfolding append_to_ring
  next r m =
      let head = r.head in
      append_to_ring r (RingElement.header (record { next = head + 1; is_live = true })) >>= λ r'.
      done (r', (m.f, record { f = record { start = head; live_at = head + 1 } }))

  -- `RingFrameMut::append`
  unfoldable pub append : FramedRing T → RingFrameMut → T → Run (FramedRing T)
  unfolding append_to_ring get as_header set_header
  append r m x = append_to_ring r (element x) >>= λ r'. as_header (get r' m.f.start) >>= λ h.
      done (set_header r' m.f.start (record h { next = h.next + 1 }))
