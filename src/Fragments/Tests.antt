-- ===== src/Fragments/Tests.antt =====
-- A session with a pool.
use blockrouter.Prelude.{ℕ, ◌≡◌, some, [], ◌∷◌}
use blockrouter.Fragments
use blockrouter.Fragments.{FragmentPool, lossy_push}
use blockrouter.Prelude.{none}
use blockrouter.Fragments.{new}
use blockrouter.Fragments.Sessions.{push, pop, run, replay, run-replay}

run-replay_example :
    (p : FragmentPool ℕ) × (run (push 7 ∷ pop ∷ pop ∷ push 8 ∷ push 9 ∷ []) new
      ≡ some (p, some 7 ∷ none ∷ []))
    × (Fragments.drop p ≡ some (9 ∷ 8 ∷ []))
unfolding replay
run-replay_example = run-replay (push 7 ∷ pop ∷ pop ∷ push 8 ∷ push 9 ∷ [])
