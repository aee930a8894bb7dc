-- ===== src/Fragments/Sessions.antt =====
-- src/packet.rs: calls of a `FragmentPool` one after the other, and its `Drop` at the end.
use blockrouter.Prelude.{
  ℕ, ◌≡◌, refl, Option, none, some, arith, List, [], ◌∷◌, length, ltb, if◌then◌else◌, ◌>>=◌, true,
  ◌==◌,
}
use blockrouter.Fragments
use blockrouter.Fragments.{FragmentPool, lossy_push, maybe_pop, new}
use blockrouter.Fragments.Stack.{Holds, lossy_push-Holds, maybe_pop-Pops, drop-Holds}

pub data Call {ℓ} (T : Type ℓ) : Type ℓ where
  push : T → Call T
  pop : Call T

module _ {ℓ} {T : Type ℓ} where
  -- The pool afterwards, and what each `maybe_pop` answered.
  unfoldable pub run : List (Call T) → FragmentPool T → Option (FragmentPool T × List (Option T))
  run [] p = some (p, [])
  run (push x ∷ calls) p = run calls (lossy_push p x)
  run (pop ∷ calls) p = do
    (p', answer) ← maybe_pop p
    (q, answers) ← run calls p'
    some (q, answer ∷ answers)

  -- The same calls on a stack, its top first, that has room for 64 elements.
  unfoldable pub replay : List (Call T) → List T → List T × List (Option T)
  replay [] xs = (xs, [])
  replay (push x ∷ calls) xs = replay calls (if ltb (length xs) 64 then x ∷ xs else xs)
  replay (pop ∷ calls) [] = let (ys, answers) = replay calls [] in (ys, none ∷ answers)
  replay (pop ∷ calls) (x ∷ xs) = let (ys, answers) = replay calls xs in (ys, some x ∷ answers)

  pop_empty : (p : FragmentPool T) → Holds p [] → maybe_pop p ≡ some (p, none)
  unfolding maybe_pop
  pop_empty p h = rw (maybe_pop, is_none p.end h.count) refl
    where
      is_none : (n : ℕ) → 0 ≡ n → (n == 0) ≡ true
      is_none n e = ground arith

  -- What a run from a pool that holds `xs` does.
  pub record Replays (calls : List (Call T)) (xs : List T)
      (o : Option (FragmentPool T × List (Option T))) : Type ℓ where
    pub pool : FragmentPool T
    pub returned : o ≡ some (pool, (replay calls xs).1)
    pub holds : Holds pool (replay calls xs).0

  run-Replays :
      (calls : List (Call T)) (p : FragmentPool T) (xs : List T)
      → Holds p xs
      → Replays calls xs (run calls p)
  unfolding run replay
  run-Replays [] p xs h = record { pool = p; returned = refl; holds = h }
  run-Replays (push x ∷ calls) p xs h =
      let r = run-Replays calls (lossy_push p x) _ (lossy_push-Holds p x xs h) in
      record { pool = r.pool; returned = r.returned; holds = r.holds }
  run-Replays (pop ∷ calls) p [] h =
      let r = run-Replays calls p [] h in
      record { pool = r.pool; returned = rw (pop_empty p h, r.returned) refl; holds = r.holds }
  run-Replays (pop ∷ calls) p (x ∷ xs) h =
      let popped = maybe_pop-Pops p x xs h in
      let r = run-Replays calls popped.pool' xs popped.holds in
      record { pool = r.pool; returned = rw (popped.ran, r.returned) refl; holds = r.holds }

  -- Any calls on a new pool read no cell without an element, and are answered as by a stack that has
  -- room for 64 elements and lets go of an element that is pushed beyond; Drop then drops what the stack
  -- still holds, each element once, the last pushed first.
  pub run-replay :
      (calls : List (Call T))
      → (p : FragmentPool T) × (run calls new ≡ some (p, (replay calls []).1))
        × (Fragments.drop p ≡ some (replay calls []).0)
  unfolding new
  run-replay calls =
      let r = run-Replays calls new [] (record { cells = tt; count = refl; room = omega arith }) in
      (r.pool, r.returned, drop-Holds r.pool _ r.holds)
