-- ===== src/Compress/Streams.antt =====
-- src/compress.rs: what `MbZlibOp::process` feeds to the operator and what it returns.
use blockrouter.Prelude.{
  concat, ℕ, ◌+◌, ◌^◌, ◌≤◌, ◌<◌, ◌≡◌, refl, sym, ap, ◌∙◌, none, arith, List, [], ◌∷◌, ◌++◌, length,
  take, drop, All, append_assoc, append-nil, true, false, ltb, ◌==◌,
}
use blockrouter.Prelude.{some}
use blockrouter.Prelude.Signed.{pos}
use blockrouter.Zlib.{ZLibError, sync_flush, ZStream, ZlibOperator, lookup}
use blockrouter.Compress.{ProcessResult, ok, err, stuck}

pub concat-snoc : (ps : List (List ℕ)) (p : List ℕ) → concat (ps ++ p ∷ []) ≡ concat ps ++ p
concat-snoc [] p = append-nil p
concat-snoc (q ∷ qs) p = ap (λ t. q ++ t) (concat-snoc qs p) ∙ sym (append_assoc q (concat qs) p)

pub take_self : (xs : List ℕ) → take (length xs) xs ≡ xs
take_self [] = refl
take_self (x ∷ xs) = ap (λ t. x ∷ t) (take_self xs)

pub is_zero : (n : ℕ) → (n == 0) ≡ true → n ≡ 0
is_zero n h = ground arith

pub positive : (n : ℕ) → (n == 0) ≡ false → 0 < n
positive n h = ground arith

pub is_below : (a b : ℕ) → ltb a b ≡ true → a < b
is_below a b h = ground arith

pub is_not_below : (a b : ℕ) → ltb a b ≡ false → b ≤ a
is_not_below a b h = ground arith

-- What the zlib library documents of a call: it reads and writes no more than it may, and where it
-- returns Z_OK, it has made progress: it leaves less to do if there is input and room, and no more
-- otherwise. Nothing is asked of the progress of a call that returns Z_STREAM_END or Z_NEED_DICT; a
-- stream that `goes_on` through some bytes neither ends nor asks for a dictionary within them, so that
-- its calls return Z_OK or an error. `given` and `gave` are all bytes that a stream has read and
-- written so far; `todo` counts the calls that a stream can still make use of on an input; a stream
-- is `settled` if it holds nothing back of what it was given, which a call that read all its input
-- and left some room has settled.
pub record Lawful (Z : ZlibOperator) : Type 1 where
  pub given : Z.S → List ℕ
  pub gave : Z.S → List ℕ
  pub todo : Z.S → List ℕ → ℕ
  pub settled : Z.S → Type 0
  pub goes_on : Z.S → List ℕ → Type 0
  pub reads :
      (s : Z.S) (inp : List ℕ) (room : ℕ) → (Z.call s sync_flush inp room).consumed ≤ length inp
  pub writes :
      (s : Z.S) (inp : List ℕ) (room : ℕ) → length (Z.call s sync_flush inp room).produced ≤ room
  pub given_more :
      (s : Z.S) (inp : List ℕ) (room : ℕ)
      → given (Z.call s sync_flush inp room).state
        ≡ given s ++ take (Z.call s sync_flush inp room).consumed inp
  pub gave_more :
      (s : Z.S) (inp : List ℕ) (room : ℕ)
      → gave (Z.call s sync_flush inp room).state
        ≡ gave s ++ (Z.call s sync_flush inp room).produced
  pub returns_ok :
      (s : Z.S) (inp rest : List ℕ) (room : ℕ)
      → goes_on s (inp ++ rest)
      → lookup (Z.call s sync_flush inp room).returned ≡ none
      → (Z.call s sync_flush inp room).returned ≡ pos 0
  pub goes_on_behind :
      (s : Z.S) (inp rest : List ℕ) (room : ℕ)
      → goes_on s (inp ++ rest)
      → (Z.call s sync_flush inp room).returned ≡ pos 0
      → goes_on
          (Z.call s sync_flush inp room).state
          (drop (Z.call s sync_flush inp room).consumed inp ++ rest)
  pub no_more :
      (s : Z.S) (inp rest : List ℕ) (room : ℕ)
      → (Z.call s sync_flush inp room).returned ≡ pos 0
      → todo
          (Z.call s sync_flush inp room).state
          (drop (Z.call s sync_flush inp room).consumed inp ++ rest)
        ≤ todo s (inp ++ rest)
  pub less :
      (s : Z.S) (inp rest : List ℕ) (room : ℕ)
      → (Z.call s sync_flush inp room).returned ≡ pos 0
      → 0 < length inp
      → 0 < room
      → todo
          (Z.call s sync_flush inp room).state
          (drop (Z.call s sync_flush inp room).consumed inp ++ rest)
        < todo s (inp ++ rest)
  pub settles :
      (s : Z.S) (inp : List ℕ) (room : ℕ)
      → lookup (Z.call s sync_flush inp room).returned ≡ none
      → (Z.call s sync_flush inp room).consumed ≡ length inp
      → length (Z.call s sync_flush inp room).produced < room
      → settled (Z.call s sync_flush inp room).state

-- There is a last page, and it is shorter than a buffer.
abbrev pub EndsShort : ℕ → List (List ℕ) → Type 0
EndsShort capacity [] = ⊥
EndsShort capacity (p ∷ []) = length p < capacity
EndsShort capacity (p ∷ q ∷ ps) = EndsShort capacity (q ∷ ps)

pub EndsShort-snoc :
    (capacity : ℕ) (ps : List (List ℕ)) (p : List ℕ)
    → EndsShort capacity (ps ++ p ∷ [])
    → length p < capacity
EndsShort-snoc capacity [] p h = h
EndsShort-snoc capacity (q ∷ []) p h = h
EndsShort-snoc capacity (q ∷ r ∷ ps) p h = EndsShort-snoc capacity (r ∷ ps) p h

module _ (Z : ZlibOperator) (L : Lawful Z) (capacity : ℕ) where
  abbrev pub Fits : List ℕ → Type 0
  Fits p = (0 < length p) × (length p ≤ capacity)

  -- The operator reported the error in a call, whose state is the one that is kept, and had read no
  -- more than it should.
  pub record Reported (G : List ℕ) (s' : Z.S) (e : ZLibError) : Type 0 where
    pub before : Z.S
    pub inp : List ℕ
    pub room : ℕ
    pub left : List ℕ
    pub reported : lookup (Z.call before sync_flush inp room).returned ≡ some e
    pub state : s' ≡ (Z.call before sync_flush inp room).state
    pub read : L.given s' ++ left ≡ G

  -- A result, where the stream was to read up to `G` and had written `O` before.
  unfoldable pub Sound : List ℕ → List ℕ → ProcessResult Z.S → Type 0
  Sound G O (ok s' out) =
      (L.given s' ≡ G)
      × ((L.gave s' ≡ O ++ concat out) × All Fits out)
      × (EndsShort capacity out → L.settled s')
  Sound G O (err s' e) = Reported G s' e
  Sound G O stuck = ⊥

  -- Between two rounds, or within one: what is fed and what is written add up.
  pub record Mid (G O : List ℕ) (s : Z.S) (strm : ZStream) (b vd : List (List ℕ)) : Type 0 where
    pub input : L.given s ++ (strm.next_in ++ concat b) ≡ G
    pub output : L.gave s ≡ O ++ (concat vd ++ strm.written)
    pub counted : strm.avail_in ≡ length strm.next_in
    pub space : length strm.written + strm.avail_out ≡ capacity
    pub pages : All Fits vd
    pub small : All (λ p. length p < 2 ^ 32) b
