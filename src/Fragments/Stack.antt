-- ===== src/Fragments/Stack.antt =====
-- src/packet.rs: a `FragmentPool` is a stack, given as a list with the top first.
use blockrouter.Prelude.{
  ℕ, zero, suc, ◌+◌, ◌-◌, ◌≤◌, ◌<◌, ◌≡◌, refl, sym, ap, ◌∙◌, true, false, Option, none, some, arith,
  List, [], ◌∷◌, length, ltb, ◌==◌, if◌then◌else◌, Bool-cases, inl, inr,
}
use mathlib.Core.Path.{subst}
use blockrouter.Fragments
use blockrouter.Fragments.{FragmentPool, lossy_push, maybe_pop, put}

differ : (a b : ℕ) → a < b → (a == b) ≡ false
differ a b h = ground arith

same : (a : ℕ) → (a == a) ≡ true
same a = ground arith

below : (a b : ℕ) → a < b → ltb a b ≡ true
below a b h = ground arith

not_below : (a b : ℕ) → b ≤ a → ltb a b ≡ false
not_below a b h = ground arith

is_below : (a b : ℕ) → ltb a b ≡ true → a < b
is_below a b h = ground arith

is_not_below : (a b : ℕ) → ltb a b ≡ false → b ≤ a
is_not_below a b h = ground arith

positive : (a : ℕ) → 0 < a → (a == 0) ≡ false
positive a h = ground arith

one_less : (a : ℕ) → a + 1 - 1 ≡ a
one_less a = omega arith

suc_less : (a : ℕ) → suc a - 1 ≡ a
suc_less a = omega arith

module _ {ℓ} {T : Type ℓ} where
  -- The cells below `end` hold the list, whose head is the highest.
  abbrev pub Stacked : (ℕ → Option T) → ℕ → List T → Type ℓ
  Stacked pool end [] = Unit {ℓ}
  Stacked pool end (x ∷ xs) = (pool (end - 1) ≡ some x) × Stacked pool (end - 1) xs

  pub record Holds (p : FragmentPool T) (xs : List T) : Type ℓ where
    pub cells : Stacked p.pool p.end xs
    pub count : length xs ≡ p.end
    pub room : p.end ≤ 64

  Stacked-agree :
      (c c' : ℕ → Option T) (end : ℕ) (xs : List T)
      → length xs ≡ end
      → ((i : ℕ) → i < end → c' i ≡ c i)
      → Stacked c end xs
      → Stacked c' end xs
  Stacked-agree c c' end [] n agree h = tt
  Stacked-agree c c' end (x ∷ xs) n agree h = (
    agree (end - 1) (omega arith) ∙ h.0,
    Stacked-agree c c' (end - 1) xs (omega arith) (λ i p. agree i (omega arith)) h.1,
  )

  put-same : (c : ℕ → Option T) (at : ℕ) (v : Option T) → put c at v at ≡ v
  unfolding put
  put-same c at v = rw (same at) refl

  put-other : (c : ℕ → Option T) (at i : ℕ) (v : Option T) → i < at → put c at v i ≡ c i
  unfolding put
  put-other c at i v h = rw (differ i at h) refl

  push_room :
      (p : FragmentPool T) (x : T)
      → p.end < 64
      → lossy_push p x ≡ record { end = p.end + 1; pool = put p.pool p.end (some x) }
  unfolding lossy_push Fragments.capacity
  push_room p x h = rw (below p.end 64 h) refl

  push_full : (p : FragmentPool T) (x : T) → 64 ≤ p.end → lossy_push p x ≡ p
  unfolding lossy_push Fragments.capacity
  push_full p x h = rw (not_below p.end 64 h) refl

  put-Holds :
      (p : FragmentPool T) (x : T) (xs : List T)
      → Holds p xs
      → p.end < 64
      → Holds (record { end = p.end + 1; pool = put p.pool p.end (some x) }) (x ∷ xs)
  put-Holds p x xs h room = record {
    cells = (
      ap (put p.pool p.end (some x)) (one_less p.end) ∙ put-same p.pool p.end (some x),
      subst (λ n. Stacked (put p.pool p.end (some x)) n xs) (sym (one_less p.end))
          (Stacked-agree p.pool _ p.end xs h.count (λ i q. put-other p.pool p.end i (some x) q)
            h.cells),
    );
    count = omega (arith, h.count);
    room = omega arith;
  }

  -- lossy_push on a pool that holds `xs`, the last element pushed first: with fewer than 64 elements
  -- the pool then holds the new one on top of them, and with 64 it is unchanged.
  pub lossy_push-Holds :
      (p : FragmentPool T) (x : T) (xs : List T)
      → Holds p xs
      → Holds (lossy_push p x) (if ltb (length xs) 64 then x ∷ xs else xs)
  lossy_push-Holds p x xs h = elim (Bool-cases (ltb p.end 64)) [
    | inl room ↦
        rw (h.count, room, push_room p x (is_below p.end 64 room))
          (put-Holds p x xs h (is_below p.end 64 room))
    | inr full ↦ rw (h.count, full, push_full p x (is_not_below p.end 64 full)) h
  ]

  -- maybe_pop gave the top element, and the pool holds the others.
  pub record Pops (p : FragmentPool T) (x : T) (xs : List T) : Type ℓ where
    pub pool' : FragmentPool T
    pub ran : maybe_pop p ≡ some (pool', some x)
    pub holds : Holds pool' xs

  -- maybe_pop on a pool that holds `x` on top of `xs` reads a cell that has an element: it gives `x`,
  -- and the pool then holds `xs`.
  pub maybe_pop-Pops : (p : FragmentPool T) (x : T) (xs : List T) → Holds p (x ∷ xs) → Pops p x xs
  unfolding maybe_pop
  maybe_pop-Pops p x xs h = record {
    pool' = record { end = p.end - 1; pool = put p.pool (p.end - 1) none };
    ran = rw (positive p.end (omega (arith, h.count)), h.cells.0) refl;
    holds = record {
      cells =
          Stacked-agree p.pool _ (p.end - 1) xs (omega (arith, h.count))
            (λ i q. put-other p.pool (p.end - 1) i none q) h.cells.1;
      count = omega (arith, h.count);
      room = omega (arith, h.room);
    };
  }

  drop_all-Stacked :
      (pool : ℕ → Option T) (end : ℕ) (xs : List T)
      → length xs ≡ end
      → Stacked pool end xs
      → Fragments.drop_all end pool ≡ some xs
  unfolding Fragments.drop_all
  drop_all-Stacked pool zero [] n h = refl
  drop_all-Stacked pool (suc end) [] n h = absurd (omega arith)
  drop_all-Stacked pool zero (x ∷ xs) n h = absurd (omega arith)
  drop_all-Stacked pool (suc end) (x ∷ xs) n h =
      rw
        (
          ap pool (sym (suc_less end)) ∙ h.0,
          drop_all-Stacked pool end xs (omega arith)
              (subst (λ k. Stacked pool k xs) (suc_less end) h.1),
        )
        refl

  -- Drop of a pool drops exactly the elements it holds, the last pushed first, and reads no other cell.
  pub drop-Holds : (p : FragmentPool T) (xs : List T) → Holds p xs → Fragments.drop p ≡ some xs
  unfolding Fragments.drop
  drop-Holds p xs h = drop_all-Stacked p.pool p.end xs h.count h.cells
