-- ===== src/Mempool/Shares/Windows.antt =====
-- src/mempool.rs: the windows of parts, in their block and beside each other.
use blockrouter.Prelude.{
  at_most, ℕ, ◌+◌, ◌-◌, ◌^◌, ◌≤◌, ◌<◌, ◌≡◌, refl, sym, inl, inr, Bool, true, false, some, arith,
  List, [], ◌∷◌, length, take, drop, All, ◌==◌, Bool-cases,
}
use blockrouter.Mempool.Memory.{Memory, read-take, read-drop}
use blockrouter.Mempool.Part
use blockrouter.Mempool.Part.{Part, deref, rc, whole, windows, split_to, set_at, increment_rc}
use blockrouter.Mempool.Shares.{parts_of, Apart, Blocks, IsInside, IsSound, counted-write}

pub own_part :
    (b : ℕ) (p : Part) (ps : List Part)
    → (p.parent_slice == b) ≡ true
    → parts_of b (p ∷ ps) ≡ parts_of b ps + 1
unfolding parts_of
own_part b p ps h = ground arith

pub other_part :
    (b : ℕ) (p : Part) (ps : List Part)
    → (p.parent_slice == b) ≡ false
    → parts_of b (p ∷ ps) ≡ parts_of b ps
unfolding parts_of
other_part b p ps h = ground arith

pub one_less : (n : ℕ) → n + 1 - 1 ≡ n
one_less n = omega arith

pub last_one : (n : ℕ) → (n + 1 == 1) ≡ (n == 0)
last_one n = ground arith

pub same : (a : ℕ) → (a == a) ≡ true
same a = ground arith

narrowed :
    (p : Part) (ptr len : ℕ) (qs : List Part)
    → p.ptr ≤ ptr
    → ptr + len ≤ p.ptr + p.len
    → All (Apart p) qs
    → All (Apart (record p { ptr = ptr; len = len })) qs
narrowed p ptr len [] low high h = tt
narrowed p ptr len (q ∷ qs) low high h = (
  elim h.0 [ inl before ↦ inl (omega arith) | inr behind ↦ inr (omega arith) ],
  narrowed p ptr len qs low high h.1,
)

pub front_window :
    (mem : Memory) (p : Part) (at : ℕ)
    → at ≤ p.len
    → deref mem (record p { len = at }) ≡ take at (deref mem p)
unfolding deref
front_window mem p at h = sym (read-take mem at p.ptr p.len h)

pub back_window :
    (mem : Memory) (p : Part) (at : ℕ)
    → at ≤ p.len
    → deref mem (record p { ptr = p.ptr + at; len = p.len - at }) ≡ drop at (deref mem p)
unfolding deref
back_window mem p at h = sym (read-drop mem at p.ptr p.len (p.len - at) (omega arith))

pub windows_inside :
    (checks : Bool) (p : Part) (at : ℕ)
    → at ≤ p.len
    → windows checks p at
      ≡ some (record p { len = at }, record p { ptr = p.ptr + at; len = p.len - at })
unfolding windows Part.sub
windows_inside checks p at h = rw (at_most at p.len h) refl

module _ (K : Blocks) where
  open K use {realsize, IsBlock, blocks_apart}

  -- A block without parts is apart from every part.
  new_elsewhere :
      (b : ℕ) (ps : List Part)
      → IsBlock b
      → All (IsInside K) ps
      → parts_of b ps ≡ 0
      → All (Apart (record { parent_slice = b; ptr = b; len = realsize })) ps
  new_elsewhere b [] block inside none_yet = tt
  new_elsewhere b (q ∷ qs) block inside none_yet = elim (Bool-cases (q.parent_slice == b)) [
    | inl own ↦ absurd (omega (arith, own_part b q qs own))
    | inr other ↦ (
      elim (blocks_apart q.parent_slice b inside.0.block block other) [
        | inl before ↦ inr (omega (arith, inside.0.ends))
        | inr behind ↦ inl (omega (arith, inside.0.starts))
      ],
      new_elsewhere b qs block inside.1 (omega (arith, other_part b q qs other)),
    )
  ]

  -- `allocate` was given a block that no part is in.
  pub whole-IsSound :
      (mem : Memory) (b : ℕ) (ps : List Part)
      → IsSound K mem ps
      → IsBlock b
      → parts_of b ps ≡ 0
      → length ps + 1 < 2 ^ 32
      → IsSound K (whole realsize mem b).0 ((whole realsize mem b).1 ∷ ps)
  unfolding whole
  whole-IsSound mem b ps s block none_yet room =
      let p : Part = record { parent_slice = b; ptr = b; len = realsize } in
      record {
        inside = (record { block = block; starts = omega arith; ends = omega arith }, s.inside);
        apart = (new_elsewhere b ps block s.inside none_yet, s.apart);
        counted =
            counted-write K mem ps (p ∷ ps) b 1 block (omega arith)
              (omega (arith, own_part b p ps (same b))) (λ c other. other_part c p ps other)
              s.counted;
        few = omega arith;
      }

  -- A part narrowed to a window inside its own.
  pub narrow-IsSound :
      (mem : Memory) (p : Part) (ptr len : ℕ) (ps : List Part)
      → IsSound K mem (p ∷ ps)
      → p.ptr ≤ ptr
      → ptr + len ≤ p.ptr + p.len
      → IsSound K mem (record p { ptr = ptr; len = len } ∷ ps)
  unfolding parts_of
  narrow-IsSound mem p ptr len ps s low high = record {
    inside = (
      record {
        block = s.inside.0.block;
        starts = omega (arith, s.inside.0.starts);
        ends = omega (arith, s.inside.0.ends);
      },
      s.inside.1,
    );
    apart = (narrowed p ptr len ps low high s.apart.0, s.apart.1);
    counted = s.counted;
    few = s.few;
  }
