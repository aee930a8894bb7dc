-- ===== src/Mempool/Shares/Calls.antt =====
-- src/mempool.rs: the operations of a part, with the other parts that are alive.
use blockrouter.Prelude.{
  at_most, under, ℕ, ◌+◌, ◌-◌, ◌^◌, ◌≤◌, ◌<◌, ◌≡◌, refl, sym, ◌∙◌, inl, Bool, none, some, arith,
  List, ◌∷◌, length, take, drop, ◌==◌, if◌then◌else◌,
}
use blockrouter.Mempool.Memory.{Memory, read_u32, write_u32}
use blockrouter.Mempool.Part
use blockrouter.Mempool.Part.{Part, deref, rc, whole, windows, split_to, set_at, increment_rc}
use blockrouter.Mempool.Shares.{
  parts_of, Blocks, IsInside, IsSound, deref-count, parts_of-le, counted-write,
}
use blockrouter.Mempool.Shares.Windows.{
  own_part, other_part, one_less, last_one, same, front_window, back_window, windows_inside,
  narrow-IsSound,
}

module _ (K : Blocks) where
  open K use {realsize, IsBlock, blocks_apart}

  -- What `split_to` gives for the first of the parts.
  pub record Halves (checks : Bool) (mem : Memory) (p : Part) (at : ℕ) (ps : List Part)
      : Type 0 where
    pub mem' : Memory
    pub front : Part
    pub back : Part
    pub ran : split_to checks realsize mem p at ≡ some (mem', (front, back))
    pub front_block : front.parent_slice ≡ p.parent_slice
    pub back_block : back.parent_slice ≡ p.parent_slice
    pub sound : IsSound K mem' (front ∷ back ∷ ps)
    pub front_bytes : deref mem' front ≡ take at (deref mem p)
    pub back_bytes : deref mem' back ≡ drop at (deref mem p)
    pub others : (q : Part) → IsInside K q → deref mem' q ≡ deref mem q

  -- What `drop` gives for the first of the parts: the block is given back if it was the last of its.
  pub record Drops (checks : Bool) (mem : Memory) (p : Part) (ps : List Part) : Type 0 where
    pub mem' : Memory
    pub ran :
        Part.drop checks realsize mem p
        ≡ some (mem', if parts_of p.parent_slice ps == 0 then some p.parent_slice else none)
    pub sound : IsSound K mem' ps
    pub others : (q : Part) → IsInside K q → deref mem' q ≡ deref mem q

  increment_counts :
      (checks : Bool) (mem : Memory) (p : Part) (n : ℕ)
      → read_u32 mem (p.parent_slice + realsize) ≡ n
      → n + 1 < 2 ^ 32
      → increment_rc checks realsize mem p
        ≡ some (write_u32 mem (p.parent_slice + realsize) (n + 1))
  unfolding increment_rc rc Part.add
  increment_counts checks mem p n count room = rw (count, under (n + 1) (2 ^ 32) room) refl

  drop_counts :
      (checks : Bool) (mem : Memory) (p : Part) (n : ℕ)
      → read_u32 mem (p.parent_slice + realsize) ≡ n + 1
      → Part.drop checks realsize mem p
        ≡ some (
          write_u32 mem (p.parent_slice + realsize) n,
          if n == 0 then some p.parent_slice else none,
        )
  unfolding Part.drop rc Part.sub
  drop_counts checks mem p n count =
      rw (count, at_most 1 (n + 1) (omega arith), one_less n, last_one n) refl

  -- The count behind the first part's block.
  own_count :
      (mem : Memory) (p : Part) (ps : List Part)
      → IsSound K mem (p ∷ ps)
      → read_u32 mem (p.parent_slice + realsize) ≡ parts_of p.parent_slice ps + 1
  own_count mem p ps s =
      let own = own_part p.parent_slice p ps (same p.parent_slice) in
      s.counted p.parent_slice s.inside.0.block (omega (arith, own)) ∙ own

  -- split_to of a part, at a place inside it, in a sound state with less than 2^32 - 1 parts: it does
  -- not panic, with or without overflow checks; the two parts are in the block of the part and have
  -- the bytes in front of the place and behind it; the state is sound again, so the block counts one part more and none overlap; and
  -- no other part's bytes change.
  pub split_to-Halves :
      (checks : Bool) (mem : Memory) (p : Part) (at : ℕ) (ps : List Part)
      → IsSound K mem (p ∷ ps)
      → at ≤ p.len
      → length ps + 2 < 2 ^ 32
      → Halves checks mem p at ps
  unfolding split_to
  split_to-Halves checks mem p at ps s within room =
      let b = p.parent_slice in
      let n = parts_of b ps + 1 in
      let front : Part = record p { len = at } in
      let back : Part = record p { ptr = p.ptr + at; len = p.len - at } in
      let mem' = write_u32 mem (b + realsize) (n + 1) in
      let few : parts_of b ps ≤ length ps = parts_of-le K b ps in
      let one : IsSound K mem (front ∷ ps) =
        narrow-IsSound K mem p p.ptr at ps s (omega arith) (omega arith) in
      let two : IsSound K mem (back ∷ ps) =
        narrow-IsSound K mem p (p.ptr + at) (p.len - at) ps s (omega arith) (omega arith) in
      record {
        mem' = mem';
        front = front;
        back = back;
        ran =
            rw
              (
                windows_inside checks p at within,
                increment_counts checks mem p n (own_count mem p ps s) (omega arith),
              )
              refl;
        front_block = refl;
        back_block = refl;
        sound = record {
          inside = (one.inside.0, two.inside);
          apart = ((inl (omega arith), one.apart.0), two.apart);
          counted =
              counted-write K mem (back ∷ ps) (front ∷ back ∷ ps) b (n + 1) s.inside.0.block
                (omega arith)
                (omega (arith, own_part b front (back ∷ ps) (same b), own_part b back ps (same b)))
                (λ c other. other_part c front (back ∷ ps) other) two.counted;
          few = omega arith;
        };
        front_bytes =
            deref-count K mem front b (n + 1) one.inside.0 s.inside.0.block
            ∙ front_window mem p at within;
        back_bytes =
            deref-count K mem back b (n + 1) two.inside.0 s.inside.0.block
            ∙ back_window mem p at within;
        others = λ q i. deref-count K mem q b (n + 1) i s.inside.0.block;
      }

  -- drop of a part in a sound state: it does not panic; the block goes back to the pool exactly if no
  -- other part is in it; what is left is sound; and no other part's bytes change.
  pub drop-Drops :
      (checks : Bool) (mem : Memory) (p : Part) (ps : List Part)
      → IsSound K mem (p ∷ ps)
      → Drops checks mem p ps
  drop-Drops checks mem p ps s =
      let b = p.parent_slice in
      let n = parts_of b ps in
      let few : n ≤ length ps = parts_of-le K b ps in
      record {
        mem' = write_u32 mem (b + realsize) n;
        ran = drop_counts checks mem p n (own_count mem p ps s);
        sound = record {
          inside = s.inside.1;
          apart = s.apart.1;
          counted =
              counted-write K mem (p ∷ ps) ps b n s.inside.0.block (omega (arith, s.few)) refl
                (λ c other. sym (other_part c p ps other)) s.counted;
          few = omega (arith, s.few);
        };
        others = λ q i. deref-count K mem q b n i s.inside.0.block;
      }
