-- ===== src/DirectBuf/Slice.antt =====
-- A concrete buffer, a plain list of bytes, which shows that the interface can be met.
use blockrouter.Prelude.{ℕ, refl, Option, some, none, List, length, take, drop, leb}
use blockrouter.Prelude.{if◌then◌else◌, arith}
use blockrouter.DirectBuf.{DirectBuf, IsLawful}

abbrev split_list : List ℕ → ℕ → Option (List ℕ × List ℕ)
split_list b at = if leb at (length b) then some (take at b, drop at b) else none

abbrev cut_list : List ℕ → ℕ → Option (List ℕ)
cut_list b len = if leb len (length b) then some (take len b) else none

abbrev pub slice_buf : DirectBuf
slice_buf = record {
  T = List ℕ;
  remaining = length;
  bytes = λ b. b;
  as_ref = λ b. b;
  split_to = split_list;
  truncate = cut_list;
}

pub slice_buf-IsLawful : IsLawful slice_buf
slice_buf-IsLawful = record {
  remaining-bytes = λ b. refl;
  as_ref-bytes = λ b. refl;
  split_to_returns = λ b at h. (take at b, drop at b, ground arith, refl, refl);
  truncate_returns = λ b len h. (take len b, ground arith, refl);
}
