-- ===== src/Buf/First.antt =====
-- A concrete `get_u8`, which shows that what the callers assume of it can be met.
use blockrouter.Prelude.{ℕ, arith, Option, none, some, List, [], ◌∷◌, ◌==◌}
use blockrouter.Prelude.{if◌then◌else◌}
use blockrouter.Buf.{BufMethods, IsDocumented}

abbrev head_and : {B : Type 0} → (B → ℕ → B) → B → Option (List ℕ) → Option (ℕ × B)
head_and advance b none = none
head_and advance b (some []) = none
head_and advance b (some (x ∷ xs)) = some (x, advance b 1)

abbrev pub first_byte : BufMethods
first_byte = record {
  get_u8 = λ B remaining bytes advance b.
      if remaining b == 0 then none else head_and advance b (bytes b);
}

pub first_byte-IsDocumented : IsDocumented first_byte
first_byte-IsDocumented = record {
  get_u8_returns = λ B remaining bytes advance b x xs pos e. rw e (ground arith);
  get_u8_panics = λ B remaining bytes advance b e. rw e;
}
