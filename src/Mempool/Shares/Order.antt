-- ===== src/Mempool/Shares/Order.antt =====
-- The order of the parts that are alive makes no difference: any of them can be brought to the front.
use blockrouter.Prelude.{
  ℕ, ◌≡◌, refl, ◌∙◌, inl, inr, arith, List, [], ◌∷◌, ◌++◌, length, All, length-append,
}
use blockrouter.Mempool.Memory.{Memory}
use blockrouter.Mempool.Part.{Part}
use blockrouter.Mempool.Shares.{parts_of, Apart, AllApart, Blocks, IsInside, IsSound}

module _ {ℓ κ} {A : Type ℓ} (P : A → Type κ) where
  All-front : (xs : List A) (p : A) (ys : List A) → All P (xs ++ p ∷ ys) → P p × All P (xs ++ ys)
  All-front [] p ys h = h
  All-front (x ∷ xs) p ys h = let (front, rest) = All-front xs p ys h.1 in (front, (h.0, rest))

swap : (p q : Part) → Apart p q → Apart q p
swap p q (inl h) = inr h
swap p q (inr h) = inl h

AllApart-front :
    (xs : List Part) (p : Part) (ys : List Part)
    → AllApart (xs ++ p ∷ ys)
    → All (Apart p) (xs ++ ys) × AllApart (xs ++ ys)
AllApart-front [] p ys h = h
AllApart-front (x ∷ xs) p ys h =
    let (from_x, others) = All-front (Apart x) xs p ys h.0 in
    let (from_p, rest) = AllApart-front xs p ys h.1 in ((swap x p from_x, from_p), (others, rest))

pub parts_of-front :
    (b : ℕ) (xs : List Part) (p : Part) (ys : List Part)
    → parts_of b (xs ++ p ∷ ys) ≡ parts_of b (p ∷ (xs ++ ys))
unfolding parts_of
parts_of-front b [] p ys = refl
parts_of-front b (x ∷ xs) p ys = omega (arith, parts_of-front b xs p ys)

length-front :
    (xs : List Part) (p : Part) (ys : List Part) → length (xs ++ p ∷ ys) ≡ length (p ∷ (xs ++ ys))
length-front xs p ys = omega (arith, length-append xs (p ∷ ys), length-append xs ys)

module _ (K : Blocks) where
  pub IsSound-front :
      (mem : Memory) (xs : List Part) (p : Part) (ys : List Part)
      → IsSound K mem (xs ++ p ∷ ys)
      → IsSound K mem (p ∷ (xs ++ ys))
  IsSound-front mem xs p ys s = record {
    inside = All-front (IsInside K) xs p ys s.inside;
    apart = AllApart-front xs p ys s.apart;
    counted = λ b block some_parts.
        s.counted b block (omega (arith, parts_of-front b xs p ys)) ∙ parts_of-front b xs p ys;
    few = omega (arith, s.few, length-front xs p ys);
  }
