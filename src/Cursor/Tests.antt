-- ===== src/Cursor/Tests.antt =====
-- Concrete runs of cursors over the buffers of the tests in src/cursor.rs, and the theorems there.
use blockrouter.Prelude.{length, ◌≡◌, refl, arith, true, false}
use blockrouter.Prelude.{some, [], ◌∷◌}
use blockrouter.DirectBuf.Slice.{slice_buf, slice_buf-IsLawful}
use blockrouter.Cursor.{Cursor, Multibytes, true_up, advance, remaining, has_atleast, run_off_end}
use blockrouter.Cursor.{split_to, bytes_vectored}
use blockrouter.Cursor.Position.{unread}
use blockrouter.Cursor.TrueUp.{TruesUp, true_up-TruesUp}
use blockrouter.Cursor.Measure.{advance-reads}
use blockrouter.Prelude.{none, drop, ◌-◌}
use blockrouter.Cursor.Vectored.{Fills, bytes_vectored-Fills, bytes_vectored-one_slice}
use blockrouter.Cursor.Split.{Splits, split_to-Splits}

abbrev test_mb : Multibytes slice_buf
test_mb = record {
  b = (1 ∷ 2 ∷ 3 ∷ 4 ∷ []) ∷ (5 ∷ 6 ∷ []) ∷ [] ∷ (7 ∷ 8 ∷ 9 ∷ []) ∷ (10 ∷ []) ∷ [];
}

abbrev at_start : Cursor
at_start = record { of = 0; i = 0 }

abbrev at_seven : Cursor
at_seven = record { of = 3; i = 0 }

abbrev at_eight : Cursor
at_eight = record { of = 3; i = 1 }

abbrev past_end : Cursor
past_end = record { of = 5; i = 1 }

advance_runs :
    (advance slice_buf at_start test_mb 3 ≡ (record { of = 0; i = 3 }, true))
    × (advance slice_buf at_start test_mb 6 ≡ (at_seven, true))
    × (advance slice_buf at_start test_mb 10 ≡ (record { of = 5; i = 0 }, true))
    × (advance slice_buf at_start test_mb 11 ≡ (past_end, false))
unfolding advance
advance_runs = (refl, refl, refl, refl)

measure_runs :
    (remaining slice_buf at_seven test_mb ≡ 4)
    × (has_atleast slice_buf at_seven test_mb 4 ≡ true)
    × (has_atleast slice_buf at_seven test_mb 5 ≡ false)
    × (has_atleast slice_buf past_end test_mb 0 ≡ false)
    × (run_off_end slice_buf past_end test_mb ≡ 1)
unfolding remaining has_atleast run_off_end
measure_runs = (refl, refl, refl, refl, refl)

split_runs :
    split_to slice_buf test_mb at_eight
    ≡ some (
      record { b = (1 ∷ 2 ∷ 3 ∷ 4 ∷ []) ∷ (5 ∷ 6 ∷ []) ∷ [] ∷ (7 ∷ []) ∷ [] },
      record { b = (8 ∷ 9 ∷ []) ∷ (10 ∷ []) ∷ [] },
    )
unfolding split_to
split_runs = refl

vectored_runs :
    bytes_vectored slice_buf (record { of = 1; i = 1 }) test_mb ([] ∷ [] ∷ [] ∷ [] ∷ [])
    ≡ some (3, (6 ∷ []) ∷ (7 ∷ 8 ∷ 9 ∷ []) ∷ (10 ∷ []) ∷ [] ∷ [])
unfolding bytes_vectored
vectored_runs = refl

true_up-TruesUp_example :
    TruesUp slice_buf test_mb.b
      (record { of = 0; i = 7 })
      (true_up slice_buf (record { of = 0; i = 7 }) test_mb)
true_up-TruesUp_example =
    true_up-TruesUp slice_buf slice_buf-IsLawful test_mb (record { of = 0; i = 7 }) (omega arith)

advance-reads_example :
    ((advance slice_buf at_eight test_mb 2).1 ≡ has_atleast slice_buf at_eight test_mb 2)
    × (unread slice_buf test_mb.b (advance slice_buf at_eight test_mb 2).0
        ≡ drop 2 (unread slice_buf test_mb.b at_eight))
    × (remaining slice_buf at_eight test_mb ≡ length (unread slice_buf test_mb.b at_eight))
    × (remaining slice_buf (advance slice_buf at_eight test_mb 2).0 test_mb
        ≡ remaining slice_buf at_eight test_mb - 2)
advance-reads_example =
    advance-reads slice_buf slice_buf-IsLawful test_mb at_eight 2 (omega arith) (omega arith)
      (omega arith)

split_to-Splits_example :
    (front : Multibytes slice_buf) × (back : Multibytes slice_buf) × (split_to slice_buf test_mb
        at_eight
      ≡ some (front, back))
    × Splits slice_buf test_mb.b at_eight front.b back.b
split_to-Splits_example =
    split_to-Splits slice_buf slice_buf-IsLawful test_mb at_eight (omega arith) (omega arith)

bytes_vectored-Fills_example :
    Fills slice_buf
      (8 ∷ 9 ∷ 10 ∷ [])
      []
      ([] ∷ [] ∷ [] ∷ [])
      (bytes_vectored slice_buf at_eight test_mb ([] ∷ [] ∷ [] ∷ []))
bytes_vectored-Fills_example =
    bytes_vectored-Fills slice_buf slice_buf-IsLawful at_eight test_mb (omega arith)
      ([] ∷ [] ∷ [] ∷ []) (omega arith)

bytes_vectored-one_slice_example : bytes_vectored slice_buf at_eight test_mb ([] ∷ []) ≡ none
bytes_vectored-one_slice_example =
    bytes_vectored-one_slice slice_buf slice_buf-IsLawful at_eight test_mb (omega arith) []
      (omega arith)
