-- ===== src/Ring/Tests.antt =====
-- Runs of the ring on concrete elements.
use blockrouter.Prelude.{ℕ, ◌≡◌, refl, arith, true, some, List, [], ◌∷◌, get_elem?}
use blockrouter.Ring
use blockrouter.Ring.{FramedRing, RingElement, element, Run, done, panicked, get, ◌>>=◌}
use blockrouter.Ring.Frames
use blockrouter.Ring.Frames.{RingFrame, RingFrameMut}
use blockrouter.Ring.Growth.{IsValid, Appends, append_to_ring-Appends}
use blockrouter.Prelude.{◌<◌}
use blockrouter.Ring.Contents.{Holds, frame_get-Holds, iter_all}
use blockrouter.Ring.Filling.{Extends, Opens, append-Extends, next-Opens}
use blockrouter.Ring.Drops.{released, consume, drop-releases, into_iter-exactly_once}
use blockrouter.Ring.Sessions.{append_all, frame-append-iter, drop-drop-frame}

abbrev mark : ℕ → RingElement ℕ
mark n = RingElement.header (record { next = n; is_live = true })

-- A full ring of eight cells: a frame with 7 and 8 at 0, a frame with 9, 10, 11 and 12 at 3.
abbrev cells : List (RingElement ℕ)
cells =
    mark 3 ∷ element 7 ∷ element 8 ∷ mark 8 ∷ element 9 ∷ element 10 ∷ element 11 ∷ element 12 ∷ []

abbrev full : FramedRing ℕ
full = record { ring = λ j. get_elem? cells j; base = 0; head = 8; ring_size_2 = 3 }

abbrev first : RingFrame
first = record { start = 0; live_at = 1 }

abbrev second : RingFrame
second = record { start = 3; live_at = 4 }

full-IsValid : IsValid full
full-IsValid = record { root = refl; fits = omega arith }

first-Holds : Holds full first (7 ∷ 8 ∷ [])
unfolding get Ring.get_masked Ring.mask
first-Holds = record {
  untaken = refl;
  marked = refl;
  elements = (refl, (refl, tt));
  inside = omega arith;
}

second-Holds : Holds full second (9 ∷ 10 ∷ 11 ∷ 12 ∷ [])
unfolding get Ring.get_masked Ring.mask
second-Holds = record {
  untaken = refl;
  marked = refl;
  elements = (refl, (refl, (refl, (refl, tt))));
  inside = omega arith;
}

append_to_ring-Appends_example : Appends full (element 13)
append_to_ring-Appends_example = append_to_ring-Appends full (element 13) full-IsValid

append-Extends_example : Extends full (record { f = second }) (9 ∷ 10 ∷ 11 ∷ 12 ∷ []) 13
append-Extends_example =
    append-Extends full (record { f = second }) (9 ∷ 10 ∷ 11 ∷ 12 ∷ []) 13 full-IsValid second-Holds
      refl

next-Opens_example : Opens full (Frames.next full (record { f = second })) (λ o. (second, o))
next-Opens_example = next-Opens full (record { f = second }) full-IsValid

drop-releases_example :
    Frames.drop true full (record { start = 3; live_at = 6 })
    ≡ done (released full 3 8, 11 ∷ 12 ∷ [])
drop-releases_example =
    drop-releases true full second (9 ∷ 10 ∷ 11 ∷ 12 ∷ []) 2 full-IsValid second-Holds (omega arith)

into_iter-exactly_once_example : consume 1 full first ≡ done (released full 0 3, (7 ∷ [], 8 ∷ []))
into_iter-exactly_once_example =
    into_iter-exactly_once full first (7 ∷ 8 ∷ []) 1 full-IsValid first-Holds (omega arith)

frame_get-Holds_example : Frames.frame_get full second 3 ≡ done (some 12)
frame_get-Holds_example = frame_get-Holds full second (9 ∷ 10 ∷ 11 ∷ 12 ∷ []) 3 second-Holds

frame-append-iter_example :
    (Frames.frame {T = ℕ} Ring.new >>= λ (r, m).
    append_all r m (5 ∷ 6 ∷ 7 ∷ []) >>= λ r'. Frames.iter r' m.f >>= λ it. iter_all 4 r' it)
    ≡ done (5 ∷ 6 ∷ 7 ∷ [])
frame-append-iter_example = frame-append-iter (5 ∷ 6 ∷ 7 ∷ [])

drop-drop-frame_example :
    (Frames.drop true full first ≡ done (full, 7 ∷ 8 ∷ []))
    × (Frames.drop true full second ≡ done (record full { head = 3 }, 9 ∷ 10 ∷ 11 ∷ 12 ∷ []))
    × (0 < 3)
    × (Frames.frame (record full { head = 3 }) ≡ panicked)
drop-drop-frame_example =
    drop-drop-frame full first second (7 ∷ 8 ∷ []) (9 ∷ 10 ∷ 11 ∷ 12 ∷ []) full-IsValid first-Holds
      second-Holds refl refl refl
