-- ===== src/Ring/Growth.antt =====
-- src/ring.rs: the buffer of a ring as a growing array, whose root (`base`) is at 0 and which is
-- cut at `head`.
use blockrouter.Prelude.{
  ℕ, suc, ◌+◌, ◌-◌, ◌^◌, ◌≤◌, ◌<◌, bit_and, ◌≡◌, refl, sym, ap, ◌∙◌, true, false, Option, none,
  some, arith, if◌then◌else◌, ltb, leb, ◌&&◌, ◌==◌, inl, inr, Bool-cases, ◌⊎◌,
}
use blockrouter.Prelude.Bits.{bit_and-mask, bit_and-full, pow_pos}
use blockrouter.Ring
use blockrouter.Ring.{FramedRing, RingElement, Run, done, append_to_ring, grow, get, mask}
use native.Mathlib.Nat.{pow-suc}
use mathlib.Core.Path.{fun_ext}

no_cell : (t n j : ℕ) → n ≡ 0 → (leb t j && ltb j (t + n)) ≡ false
no_cell t n j h = ground arith

prefix_cell : (t n m j : ℕ) → t ≡ 0 → n ≡ m → (leb t j && ltb j (t + n)) ≡ ltb j m
prefix_cell t n m j h k = ground arith

bit_and_zero : (k : ℕ) → bit_and 0 (2 ^ k - 1) ≡ 0
bit_and_zero k = bit_and-mask k 0 (pow_pos k)

not_below : (a b : ℕ) → b ≤ a → ltb a b ≡ false
not_below a b h = ground arith

below : (a b : ℕ) → a < b → ltb a b ≡ true
below a b h = ground arith

same : (a b : ℕ) → a ≡ b → (a == b) ≡ true
same a b h = ground arith

differ : (a b : ℕ) → a < b → (a == b) ≡ false
differ a b h = ground arith

-- Where the mask puts `head`: at slot 0 of a full or empty ring, else at itself.
k_plus : (k : ℕ) → k + 1 ≡ suc k
k_plus k = omega arith

pow_double : (k : ℕ) → 2 ^ (k + 1) ≡ 2 ^ k + 2 ^ k
pow_double k = omega (arith, pow-suc 2 k, ap (λ n. 2 ^ n) (k_plus k))

test_zero : (n : ℕ) → (n == 0) ≡ true → n ≡ 0
test_zero n h = ground arith

low_bits :
    (k n : ℕ)
    → n ≤ 2 ^ k
    → (bit_and n (2 ^ k - 1) ≡ 0) ⊎ ((bit_and n (2 ^ k - 1) ≡ n) × ((0 < n) × (n < 2 ^ k)))
low_bits k n h = elim (Bool-cases (n == 0)) [
  | inl e ↦ inl (ap (λ m. bit_and m (2 ^ k - 1)) (test_zero n e) ∙ bit_and_zero k)
  | inr e ↦ elim (Bool-cases (ltb n (2 ^ k))) [
    | inl lt ↦ inr (bit_and-mask k n (ground arith), (ground arith, ground arith))
    | inr ge ↦ inl (ap (λ m. bit_and m (2 ^ k - 1)) (ground arith) ∙ bit_and-full k)
  ]
]

module _ {ℓ} {T : Type ℓ} where
  pub record IsValid (r : FramedRing T) : Type 0 where
    pub root : r.base ≡ 0
    pub fits : r.head ≤ 2 ^ r.ring_size_2

  -- The array below `head` is as before, and the element follows it.
  pub record Appends (r : FramedRing T) (re : RingElement T) : Type ℓ where
    pub ring' : FramedRing T
    pub ran : append_to_ring r re ≡ done ring'
    pub head : ring'.head ≡ r.head + 1
    pub kept : (j : ℕ) → j < r.head → get ring' j ≡ get r j
    pub added : get ring' r.head ≡ some re
    pub valid : IsValid ring'

  pub get-cell : (r : FramedRing T) (j : ℕ) → j < 2 ^ r.ring_size_2 → get r j ≡ r.ring j
  unfolding get mask Ring.get_masked
  get-cell r j small = ap r.ring (bit_and-mask r.ring_size_2 j small)

  -- What `grow` makes of a ring that is full or empty.
  unfoldable grown : FramedRing T → FramedRing T
  grown r = record r {
    ring = λ j. if ltb j r.head then r.ring j else none;
    ring_size_2 = r.ring_size_2 + 1;
  }

  copy_nothing :
      (from : ℕ → Option (RingElement T)) (s : ℕ) (to : ℕ → Option (RingElement T)) (t n j : ℕ)
      → n ≡ 0
      → Ring.copy_nonoverlapping from s to t n j ≡ to j
  unfolding Ring.copy_nonoverlapping
  copy_nothing from s to t n j h = rw (no_cell t n j h) refl

  copy_prefix :
      (from : ℕ → Option (RingElement T)) (s t n m j : ℕ)
      → s ≡ 0
      → t ≡ 0
      → n ≡ m
      → Ring.copy_nonoverlapping from s (λ j. none) t n j ≡ (if ltb j m then from j else none)
  unfolding Ring.copy_nonoverlapping
  copy_prefix from s t n m j hs ht hn =
      rw (prefix_cell t n m j ht hn, hs, ht)
        (ap (λ k. if ltb j m then from k else none) (omega arith))

  grow-grown :
      (r : FramedRing T) → IsValid r → bit_and r.head (mask r) ≡ 0 → grow r r.head ≡ done (grown r)
  unfolding grow grown mask
  grow-grown r v h =
      let pivot_point = r.head - bit_and r.head (2 ^ r.ring_size_2 - 1) in
      let new_mask = 2 ^ (r.ring_size_2 + 1) - 1 in
      rw (not_below pivot_point r.base (omega arith)) (
        ap (λ c. done (record r { ring = c; ring_size_2 = r.ring_size_2 + 1 }))
          (fun_ext (λ j.
            copy_nothing r.ring 0
              (Ring.copy_nonoverlapping r.ring (bit_and r.base (2 ^ r.ring_size_2 - 1)) (λ j'. none)
                (bit_and r.base new_mask) (pivot_point - r.base))
              (bit_and pivot_point new_mask) (r.head - pivot_point) j (omega arith)
            ∙ copy_prefix r.ring (bit_and r.base (2 ^ r.ring_size_2 - 1)) (bit_and r.base new_mask)
                (pivot_point - r.base) r.head j (rw v.root (bit_and_zero r.ring_size_2))
                (rw v.root (bit_and_zero (r.ring_size_2 + 1))) (omega arith))))

  -- The write at `head` into a buffer with room.
  unfoldable stored : FramedRing T → RingElement T → FramedRing T
  stored r re = record r {
    head = r.head + 1;
    ring = Ring.write r.ring (bit_and r.head (mask r)) re;
  }

  stored-added :
      (r : FramedRing T) (re : RingElement T)
      → r.head < 2 ^ r.ring_size_2
      → get (stored r re) r.head ≡ some re
  unfolding stored get Ring.get_masked mask Ring.write
  stored-added r re room = rw (same (bit_and r.head (mask r)) (bit_and r.head (mask r)) refl) refl

  stored-kept :
      (r : FramedRing T) (re : RingElement T) (j : ℕ)
      → r.head < 2 ^ r.ring_size_2
      → j < r.head
      → get (stored r re) j ≡ r.ring j
  unfolding stored get Ring.get_masked mask Ring.write
  stored-kept r re j room old =
      rw
        (
          bit_and-mask r.ring_size_2 r.head room,
          bit_and-mask r.ring_size_2 j (omega arith),
          differ j r.head old,
        )
        refl

  -- The step after the test for room, on a ring that has it.
  stored-Appends :
      (r room : FramedRing T) (re : RingElement T)
      → IsValid r
      → append_to_ring r re ≡ done (stored room re)
      → room.base ≡ 0
      → room.head ≡ r.head
      → r.head < 2 ^ room.ring_size_2
      → ((j : ℕ) → j < r.head → room.ring j ≡ r.ring j)
      → Appends r re
  unfolding stored
  stored-Appends r room re v ran root here small same_cells = record {
    ring' = stored room re;
    ran = ran;
    head = omega arith;
    kept = λ j old.
        stored-kept room re j (omega arith) (omega arith)
        ∙ same_cells j old
        ∙ sym (get-cell r j (omega (arith, v.fits)));
    added = ap (λ h. get (stored room re) h) (sym here) ∙ stored-added room re (omega arith);
    valid = record { root = root; fits = omega arith };
  }

  append_grows :
      (r : FramedRing T) (re : RingElement T)
      → IsValid r
      → bit_and r.head (mask r) ≡ 0
      → append_to_ring r re ≡ done (stored (grown r) re)
  unfolding append_to_ring stored grown
  append_grows r re v low =
      rw
        (
          same (bit_and r.base (mask r)) (bit_and r.head (mask r))
              (rw (v.root, low) (bit_and_zero r.ring_size_2)),
          grow-grown r v low,
        )
        refl

  append_stays :
      (r : FramedRing T) (re : RingElement T)
      → IsValid r
      → 0 < bit_and r.head (mask r)
      → append_to_ring r re ≡ done (stored r re)
  unfolding append_to_ring stored
  append_stays r re v high =
      rw
        (differ (bit_and r.base (mask r)) (bit_and r.head (mask r))
          (rw (v.root, bit_and_zero r.ring_size_2) high))
        refl

  grown_cells : (r : FramedRing T) (j : ℕ) → j < r.head → (grown r).ring j ≡ r.ring j
  unfolding grown
  grown_cells r j old = rw (below j r.head old) refl

  grown_room : (r : FramedRing T) → IsValid r → r.head < 2 ^ (grown r).ring_size_2
  unfolding grown
  grown_room r v = omega (arith, v.fits, pow_double r.ring_size_2, pow_pos r.ring_size_2)

  -- On a ring whose root is at 0, append_to_ring does not panic, even if the buffer grows: `head`
  -- moves on by one, every position below the old `head` reads the same as before, the position
  -- `head` reads the new element, and the invariant holds again.
  pub append_to_ring-Appends : (r : FramedRing T) (re : RingElement T) → IsValid r → Appends r re
  unfolding mask grown
  append_to_ring-Appends r re v = elim (low_bits r.ring_size_2 r.head v.fits) [
    | inl low ↦
        stored-Appends r (grown r) re v (append_grows r re v low) v.root refl (grown_room r v)
          (grown_cells r)
    | inr (low, (some_head, room)) ↦
        stored-Appends r r re v (append_stays r re v (omega arith)) v.root refl room (λ j old. refl)
  ]
