-- ===== src/Cursor.antt =====
-- src/cursor.rs: `Cursor`, `Multibytes` and the two views, generic over `DirectBuf`.
-- A cursor is a page number and an index into that page. `get(self.of)` is the head of
-- `drop c.of`, so the loop of `true_up` runs over that list; `iter().skip(self.of)` is that list.
pub mod Position
pub mod TrueUp
pub mod Measure
pub mod Split
pub mod Front
pub mod Read
pub mod Vectored
mod Tests
pub mod View
pub mod Indexed
use blockrouter.Prelude.{
  ℕ, zero, suc, ◌+◌, ◌-◌, Bool, true, false, ◌&&◌, Option, none, some, List, [],
}
use blockrouter.Prelude.{
  ◌∷◌, ◌++◌, length, get_elem?, set, drop, ltb, leb, ◌==◌, if◌then◌else◌, add_usize,
}
use blockrouter.Prelude.{◌>>=◌}
use blockrouter.DirectBuf.{DirectBuf}

pub record Cursor : Type 0 where
  pub of : ℕ
  pub i : ℕ

pub record Multibytes (D : DirectBuf) : Type 0 where
  pub b : List D.T

-- `&s[from..]`, which panics past the end.
unfoldable pub slice_from : List ℕ → ℕ → Option (List ℕ)
slice_from s from = if leb from (length s) then some (drop from s) else none

-- `dst[i] = IoSlice::new(s)`, which panics past the end.
unfoldable pub put_slice : List (List ℕ) → ℕ → List ℕ → Option (List (List ℕ))
put_slice dst i s = if ltb i (length dst) then some (set dst i s) else none

module _ (D : DirectBuf) where
  open D use {T, remaining as page_remaining, bytes as page_bytes, as_ref, split_to as split_page}

  -- The loop of `true_up`, over the pages from `of` on; `pages` is `b.b.len()`.
  unfoldable pub true_up_loop : ℕ → List T → Cursor → Cursor × Bool
  true_up_loop pages [] c = (c, c.of == pages && c.i == 0)
  true_up_loop pages (r ∷ rest) c =
      let len = page_remaining r in
      let next = true_up_loop pages rest (record { of = c.of + 1; i = c.i - len }) in
      if leb len c.i then next else (c, true)

  unfoldable pub true_up : Cursor → Multibytes D → Cursor × Bool
  unfolding true_up_loop
  true_up c mb = true_up_loop (length mb.b) (drop c.of mb.b) c

  unfoldable pub advance : Cursor → Multibytes D → ℕ → Cursor × Bool
  unfolding true_up
  advance c mb n = true_up (record c { i = add_usize c.i n }) mb

  -- `fold(0, |prev, next| prev + next.remaining())`
  unfoldable pub sum_remaining : ℕ → List T → ℕ
  sum_remaining prev [] = prev
  sum_remaining prev (next ∷ rest) = sum_remaining (add_usize prev (page_remaining next)) rest

  unfoldable pub remaining : Cursor → Multibytes D → ℕ
  unfolding sum_remaining
  remaining c mb =
      let blen = sum_remaining 0 (drop c.of mb.b) in if leb blen c.i then 0 else blen - c.i

  unfoldable pub has_atleast_loop : List T → ℕ → Bool
  has_atleast_loop [] left = left == 0
  has_atleast_loop (buf ∷ rest) left =
      let bl = page_remaining buf in
      let more = has_atleast_loop rest (left - bl) in if leb left bl then true else more

  unfoldable pub has_atleast : Cursor → Multibytes D → ℕ → Bool
  unfolding has_atleast_loop
  has_atleast c mb len = has_atleast_loop (drop c.of mb.b) (add_usize len c.i)

  -- The `while let` loop of `bytes_vectored`; the state is `i` and the contents of `dst`.
  unfoldable pub fill_slices : List T → ℕ → List (List ℕ) → Option (ℕ × List (List ℕ))
  unfolding put_slice
  fill_slices [] i dst = some (i, dst)
  fill_slices (item ∷ iter) i dst =
      let skip = fill_slices iter i dst in
      let fill = put_slice dst i (as_ref item) >>= λ dst'.
      let more = fill_slices iter (i + 1) dst' in
      if leb (length dst) (i + 1) then some (i + 1, dst') else more in
      if page_remaining item == 0 then skip else fill

  fill_from_first : Cursor → List T → List (List ℕ) → Option (ℕ × List (List ℕ))
  unfolding slice_from put_slice fill_slices
  fill_from_first c [] dst = some (0, dst)
  fill_from_first c (first ∷ iter) dst = do
    clipped ← slice_from (as_ref first) c.i
    dst' ← put_slice dst 0 clipped
    fill_slices iter 1 dst'

  -- Returns the count and the contents of `dst`; `none` is a panic.
  unfoldable pub bytes_vectored : Cursor → Multibytes D → List (List ℕ) → Option (ℕ × List (List ℕ))
  unfolding fill_from_first
  bytes_vectored c mb dst =
      if ltb (length dst) 1 then some (0, dst) else fill_from_first c (drop c.of mb.b) dst

  -- How far the cursor points past the end of its page.
  past_page : Cursor → Option T → ℕ
  past_page c none = c.i
  past_page c (some p) = let len = page_remaining p in if ltb len c.i then c.i - len else 0

  unfoldable pub run_off_end : Cursor → Multibytes D → ℕ
  unfolding past_page
  run_off_end c mb = past_page c (get_elem? mb.b c.of)

  -- `for _i in 0..c.of { b.push_back(must_be_some!(self.b.pop_front())) }`: the pages moved, and
  -- those left. `none` is the panic of `must_be_some!`.
  unfoldable pub pop_pages : ℕ → List T → List T → Option (List T × List T)
  pop_pages zero b self = some (b, self)
  pop_pages (suc n) b [] = none
  pop_pages (suc n) b (page ∷ self) = pop_pages n (b ++ page ∷ []) self

  -- The page that `c.i` splits. Without a front page the cursor steps into a page that does not
  -- exist, which panics.
  unfoldable pub split_front : Cursor → List T → List T → Option (List T × List T)
  split_front c b [] = none
  split_front c b (x ∷ self) = do
    (front, back) ← split_page x c.i
    some (b ++ front ∷ [], back ∷ self)

  -- Returns the pages before the cursor and what `self` becomes. `full_pages` of the source only
  -- reserves room for the result, so the model drops it.
  unfoldable pub split_to : Multibytes D → Cursor → Option (Multibytes D × Multibytes D)
  unfolding pop_pages split_front
  split_to mb c =
      if c.i == 0 && c.of == 0
      then some (record { b = [] }, mb)
      else pop_pages c.of [] mb.b >>= λ (b, self).
          (if ltb 0 c.i then split_front c b self else some (b, self)) >>= λ (front, rest).
          some (record { b = front }, record { b = rest })

  unfoldable pub new : List T → Multibytes D
  new b = record { b = b }

  unfoldable pub cursor : Multibytes D → Cursor
  cursor mb = record { of = 0; i = 0 }

  unfoldable pub append : Multibytes D → T → Multibytes D
  append mb b = record { b = mb.b ++ b ∷ [] }
