-- ===== src/Socket/Tests.antt =====
-- A stream that takes two bytes at a time, and one that gives a chunk at a time.
use blockrouter.Prelude.{
  ℕ, ◌++◌, ◌≡◌, refl, ap, arith, List, [], ◌∷◌, length, length-take, take, drop, ◌⊎◌, inr,
}
use blockrouter.DirectBuf.Slice.{slice_buf, slice_buf-IsLawful}
use blockrouter.Socket.{WriteHalf, ReadHalf, read}
use blockrouter.Socket.Writing.{IsWriter}
use blockrouter.Socket.Reading.{IsGrowing, Receives, read-Receives}

abbrev by_two : WriteHalf (List ℕ)
by_two = record {
  W = List ℕ;
  E = Unit;
  write_buf = λ w b. (w ++ take 2 b, (drop 2 b, inr (length (take 2 b))));
}

front_two : (b : List ℕ) → take 2 b ≡ take (length (take 2 b)) b
front_two [] = refl
front_two (x ∷ []) = refl
front_two (x ∷ y ∷ b) = refl

behind_two : (b : List ℕ) → drop 2 b ≡ drop (length (take 2 b)) b
behind_two [] = refl
behind_two (x ∷ []) = refl
behind_two (x ∷ y ∷ b) = refl

written_two :
    (b : List ℕ) (n : ℕ) (amount : by_two.E ⊎ ℕ)
    → amount ≡ inr (length (take 2 b))
    → amount ≡ inr n
    → n ≡ length (take 2 b)
written_two b n amount here e = cc (here, e)

abbrev by_two-IsWriter : IsWriter (List ℕ) length by_two
by_two-IsWriter = record {
  content = λ b. b;
  sent = λ w. w;
  amount = λ w b. length (take 2 b);
  remaining-content = λ b. refl;
  within = λ w b. omega (arith, length-take 2 b);
  sends = λ w b. ap (λ l. w ++ l) (front_two b);
  advances = λ w b. behind_two b;
  counted = λ w b n e. written_two b n (inr (length (take 2 b))) refl e;
}

abbrev first_chunk : List (List ℕ) → List ℕ
first_chunk [] = []
first_chunk (c ∷ cs) = c

abbrev by_chunk : ReadHalf (List ℕ)
by_chunk = record {
  R = List (List ℕ);
  E = Unit;
  read_buf = λ r b. (drop 1 r, (b ++ first_chunk r, inr (length (first_chunk r))));
}

chunk_counted :
    (r : List (List ℕ)) (n : ℕ) (amount : by_chunk.E ⊎ ℕ)
    → amount ≡ inr (length (first_chunk r))
    → amount ≡ inr n
    → n ≡ length (first_chunk r)
chunk_counted r n amount here e = cc (here, e)

abbrev by_chunk-IsGrowing : IsGrowing slice_buf slice_buf-IsLawful by_chunk
by_chunk-IsGrowing = record {
  incoming = λ r b. first_chunk r;
  appends = λ r b. refl;
  counted = λ r b n e. chunk_counted r n (inr (length (first_chunk r))) refl e;
}

abbrev one : List ℕ
one = 5 ∷ []

abbrev chunk : List ℕ
chunk = 7 ∷ 8 ∷ []

read-Receives_example :
    Receives slice_buf slice_buf-IsLawful by_chunk one chunk
      (read slice_buf by_chunk (chunk ∷ []) one).1
    × (slice_buf.bytes one ≡ [] → take 2 (slice_buf.bytes one ++ chunk) ≡ chunk)
read-Receives_example =
    read-Receives slice_buf slice_buf-IsLawful by_chunk by_chunk-IsGrowing (chunk ∷ []) one
