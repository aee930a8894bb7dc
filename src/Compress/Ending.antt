-- ===== src/Compress/Ending.antt =====
-- An operator that copies its input up to the first byte 0, where its stream ends.
use blockrouter.Prelude.{
  ℕ, zero, suc, ◌+◌, ◌-◌, ◌≤◌, ◌<◌, ◌≡◌, refl, ap, arith, min, inl, inr, List, [], ◌∷◌, ◌++◌, take,
  drop, length, All, length-take, length-append, length-drop, ltb, ◌==◌, if◌then◌else◌, Bool-cases,
}
use blockrouter.Prelude.Signed.{ℤ, pos, negsuc}
use blockrouter.Zlib.{ZlibOperator}
use blockrouter.Compress.Streams.{Lawful}

-- The number of bytes in front of the first 0.
abbrev pub body : List ℕ → ℕ
body [] = 0
body (b ∷ bs) = if b == 0 then 0 else 1 + body bs

abbrev pub returned : List ℕ → ℤ
returned inp = if ltb (body inp) (length inp) then pos 1 else pos 0

abbrev pub ending : ZlibOperator
ending = record {
  S = List ℕ;
  reset = λ s. [];
  call = λ s flush inp room. record {
    returned = returned inp;
    consumed = min room (body inp);
    produced = take (min room (body inp)) inp;
    state = s ++ take (min room (body inp)) inp;
  };
}

pub body-length : (inp : List ℕ) → body inp ≤ length inp
body-length [] = omega arith
body-length (b ∷ bs) = ground (arith, body-length bs)

pub open_body : (inp : List ℕ) → All (λ b. 0 < b) inp → body inp ≡ length inp
open_body [] h = refl
open_body (b ∷ bs) h = ground (arith, h.0, open_body bs h.1)

pub open_front : (xs ys : List ℕ) → All (λ b. 0 < b) (xs ++ ys) → All (λ b. 0 < b) xs
open_front [] ys h = tt
open_front (x ∷ xs) ys h = (h.0, open_front xs ys h.1)

pub open_behind :
    (n : ℕ) (xs ys : List ℕ) → All (λ b. 0 < b) (xs ++ ys) → All (λ b. 0 < b) (drop n xs ++ ys)
open_behind zero xs ys h = h
open_behind (suc n) [] ys h = h
open_behind (suc n) (x ∷ xs) ys h = open_behind n xs ys h.1

pub no_end : (inp : List ℕ) → body inp ≡ length inp → returned inp ≡ pos 0
no_end inp e = elim (Bool-cases (ltb (body inp) (length inp))) [
  | inl below ↦ absurd (ground arith)
  | inr all ↦ rw all refl
]

number : ℤ → ℕ
number (pos n) = n
number (negsuc n) = 0

-- A call that returns Z_OK has no end in its input.
pub whole : (inp : List ℕ) → returned inp ≡ pos 0 → body inp ≡ length inp
unfolding number
whole inp e = elim (Bool-cases (ltb (body inp) (length inp))) [
  | inl below ↦ absurd (let differ : 1 ≡ 0 = ap number (rw below at e) in omega arith)
  | inr all ↦ ground (arith, body-length inp)
]

pub left : (n : ℕ) (inp rest : List ℕ) → length (drop n inp ++ rest) ≡ length inp - n + length rest
left n inp rest = omega (arith, length-append (drop n inp) rest, length-drop n inp)

-- Such an operator is lawful too, though it makes no progress at its end.
abbrev pub ending-Lawful : Lawful ending
ending-Lawful = record {
  given = λ s. s;
  gave = λ s. s;
  todo = λ s inp. length inp;
  settled = λ s. Unit;
  goes_on = λ s inp. All (λ b. 0 < b) inp;
  reads = λ s inp room. omega (arith, body-length inp);
  writes = λ s inp room. omega (arith, length-take (min room (body inp)) inp);
  given_more = λ s inp room. refl;
  gave_more = λ s inp room. refl;
  settles = λ s inp room fine eaten some_room. tt;
  returns_ok = λ s inp rest room on fine. no_end inp (open_body inp (open_front inp rest on));
  goes_on_behind = λ s inp rest room on fine. open_behind (min room (body inp)) inp rest on;
  no_more = λ s inp rest room fine.
      omega (arith, length-append inp rest, left (min room (body inp)) inp rest);
  less = λ s inp rest room fine some_input some_room.
      omega (arith, length-append inp rest, left (min room (body inp)) inp rest, whole inp fine);
}
