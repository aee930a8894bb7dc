-- ===== src/Socket/Writing.antt =====
-- src/socket.rs: what `ConnectionSink::write` sends.
use blockrouter.Prelude.{ℕ, ◌≤◌, ◌<◌, ◌≡◌, ◌⊎◌, inr, List, ◌++◌, take, drop, length}
use blockrouter.Socket.{WriteHalf, Written, ok, err, spinning}

module _ (B : Type 0) (remaining : B → ℕ) (H : WriteHalf B) where
  -- What `write_buf` does: it sends some bytes off the front of the buffer, advances it past them and,
  -- if it succeeds, returns how many they were, which may be none.
  pub record IsWriter : Type 0 where
    pub content : B → List ℕ
    pub sent : H.W → List ℕ
    pub amount : H.W → B → ℕ
    pub remaining-content : (b : B) → remaining b ≡ length (content b)
    pub within : (w : H.W) (b : B) → amount w b ≤ length (content b)
    pub sends :
        (w : H.W) (b : B) → sent (H.write_buf w b).0 ≡ sent w ++ take (amount w b) (content b)
    pub advances : (w : H.W) (b : B) → content (H.write_buf w b).1.0 ≡ drop (amount w b) (content b)
    pub counted : (w : H.W) (b : B) (n : ℕ) → (H.write_buf w b).1.1 ≡ inr n → n ≡ amount w b

  -- A write of a buffer that is not empty succeeded with no byte.
  pub record Stalled : Type 0 where
    pub half : H.W
    pub buf : B
    pub some_left : 0 < remaining buf
    pub answer : (H.write_buf half buf).1.1 ≡ inr 0

  module _ (I : IsWriter) where
    -- How a run that sent `k` bytes ended; `Open` is what holds of one that is still in the loop.
    abbrev Ends : Type 0 → ℕ → B → Written H.E → Type 0
    Ends Open k b r =
        ((r ≡ ok) × (k ≡ length (I.content b)))
        ⊎ (((e : H.E) × (r ≡ err e)) ⊎ ((r ≡ spinning) × Open))

    -- The first `k` bytes were sent and the others are left.
    pub record Sends (Open : ℕ → Type 0) (w : H.W) (b : B) (run : H.W × (B × Written H.E))
        : Type 0 where
      pub k : ℕ
      pub within : k ≤ length (I.content b)
      pub in_order : I.sent run.0 ≡ I.sent w ++ take k (I.content b)
      pub left : I.content run.1.0 ≡ drop k (I.content b)
      pub ends : Ends (Open k) k b run.1.1

    -- Each round of the fuel has sent a byte, or some write sent none.
    abbrev Spent : ℕ → ℕ → Type 0
    Spent fuel k = Stalled ⊎ (fuel ≤ k)
