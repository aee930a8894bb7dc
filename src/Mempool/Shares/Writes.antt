-- ===== src/Mempool/Shares/Writes.antt =====
-- src/mempool.rs: a write through `deref_mut` of a part.
use blockrouter.Prelude.{
  under, ℕ, ◌+◌, ◌≤◌, ◌<◌, ◌≡◌, refl, ◌∙◌, ◌⊎◌, inl, inr, some, arith, List, [], ◌∷◌, All, set,
}
use blockrouter.Mempool.Memory.{
  Memory, read_u32-agree, read-agree, write_byte, write_byte-elsewhere, read-write_byte,
}
use blockrouter.Mempool.Part.{Part, deref, set_at}
use blockrouter.Mempool.Shares.{Apart, Blocks, IsInside, IsSound, count-outside}

byte_aside :
    (p q : Part) (at j : ℕ)
    → p.ptr ≤ at
    → at < p.ptr + p.len
    → Apart p q
    → q.ptr ≤ j
    → j < q.ptr + q.len
    → (j < at) ⊎ (at < j)
byte_aside p q at j low high (inl before) from to = inr (omega arith)
byte_aside p q at j low high (inr behind) from to = inl (omega arith)

module _ (K : Blocks) where
  open K use {realsize, IsBlock}

  -- What a write through the first of the parts does.
  pub record Writes (mem : Memory) (p : Part) (i v : ℕ) (ps : List Part) : Type 0 where
    pub mem' : Memory
    pub ran : set_at mem p i v ≡ some mem'
    pub sound : IsSound K mem' (p ∷ ps)
    pub own : deref mem' p ≡ set (deref mem p) i v
    pub others : All (λ q. deref mem' q ≡ deref mem q) ps

  -- A byte of the part is none of a count.
  count_byte :
      (p : Part) (i b j : ℕ)
      → IsInside K p
      → IsBlock b
      → i < p.len
      → b + realsize ≤ j
      → j < b + realsize + 4
      → (j < p.ptr + i) ⊎ (p.ptr + i < j)
  count_byte p i b j inside block within from to =
      elim (count-outside K p b (p.ptr + i) inside block (omega arith) (omega arith)) [
        | inl before ↦ inr (omega arith)
        | inr behind ↦ inl (omega arith)
      ]

  kept_bytes :
      (mem : Memory) (p : Part) (at v : ℕ) (qs : List Part)
      → p.ptr ≤ at
      → at < p.ptr + p.len
      → All (Apart p) qs
      → All (λ q. deref (write_byte mem at v) q ≡ deref mem q) qs
  unfolding deref
  kept_bytes mem p at v [] low high h = tt
  kept_bytes mem p at v (q ∷ qs) low high h = (
    read-agree mem (write_byte mem at v) q.ptr q.len
        (λ j from to. write_byte-elsewhere mem at v j (byte_aside p q at j low high h.0 from to)),
    kept_bytes mem p at v qs low high h.1,
  )

  -- A write through one part, inside it, in a sound state: it changes that byte of the part and no
  -- byte of any other part, and no count.
  pub set_at-Writes :
      (mem : Memory) (p : Part) (i v : ℕ) (ps : List Part)
      → IsSound K mem (p ∷ ps)
      → i < p.len
      → Writes mem p i v ps
  unfolding set_at deref
  set_at-Writes mem p i v ps s within = record {
    mem' = write_byte mem (p.ptr + i) v;
    ran = rw (under i p.len within) refl;
    sound = record {
      inside = s.inside;
      apart = s.apart;
      counted = λ b block some_parts.
          read_u32-agree mem (write_byte mem (p.ptr + i) v) (b + realsize) (λ j from to.
            write_byte-elsewhere mem (p.ptr + i) v j
              (count_byte p i b j s.inside.0 block within from to))
          ∙ s.counted b block some_parts;
      few = s.few;
    };
    own = read-write_byte mem i v p.ptr p.len;
    others = kept_bytes mem p (p.ptr + i) v ps (omega arith) (omega arith) s.apart.0;
  }
