-- ===== src/Compress/Run.antt =====
-- src/compress.rs: the rounds of the loop of `MbZlibOp::process`.
use blockrouter.Prelude.{
  concat, ℕ, zero, suc, ◌+◌, ◌%◌, ◌^◌, ◌<◌, ◌≡◌, refl, sym, ap, Option, none, some, arith, List, [],
  ◌∷◌, ◌++◌, true, false, length, drop, All, append-nil, Bool-cases, inl, inr, ◌⊎◌, length-drop,
  ◌==◌,
}
use mathlib.Core.Path.{subst}
use blockrouter.Prelude.Signed.{pos}
use blockrouter.Zlib.{ZLibError, ZStream, ZlibOperator, Answer, lookup, moved}
use blockrouter.Compress.{err, set_in, next_out, process_loop, process}
use blockrouter.Compress.Streams.{Lawful, Sound, Mid, is_zero, positive}
use blockrouter.Compress.Rounds.{
  call-Mid, pop-Mid, next_out-Mid, next_out-room, next_out-next_in, finish-Sound, empty,
}
use blockrouter.Compress.Steps.{answer, round_err, round_more, round_end, round_pop}

failed-cases : (o : Option ZLibError) → (o ≡ none) ⊎ ((e : ZLibError) × (o ≡ some e))
failed-cases none = inl refl
failed-cases (some e) = inr (e, refl)

module _ (Z : ZlibOperator) (L : Lawful Z) (capacity : ℕ) where
  module _ (G O : List ℕ) (room : 0 < capacity) (word : capacity < 2 ^ 32) where
    moved_left :
        (strm : ZStream) (a : Answer Z.S)
        → strm.avail_in ≡ length strm.next_in
        → ((moved Z strm a).avail_in ≡ length (moved Z strm a).next_in)
          × ((moved Z strm a).next_in ≡ drop a.consumed strm.next_in)
    unfolding moved
    moved_left strm a counted = (omega (arith, length-drop a.consumed strm.next_in), refl)

    -- The input that is left once a page is read is nothing.
    nothing_left :
        (s : Z.S) (strm : ZStream)
        → strm.avail_in ≡ length strm.next_in
        → ((moved Z strm (answer Z capacity s strm)).avail_in == 0) ≡ true
        → drop (answer Z capacity s strm).consumed strm.next_in ≡ []
    unfolding answer
    nothing_left s strm counted eaten =
        let a = answer Z capacity s strm in
        empty Z L capacity G O room word (drop a.consumed strm.next_in) (
          omega (
            arith,
            is_zero (moved Z strm a).avail_in eaten,
            moved_left strm a counted,
            ap length (moved_left strm a counted).1,
          ))

    onwards_pop :
        (s : Z.S) (strm : ZStream) (p : List ℕ) (b vd : List (List ℕ))
        → strm.avail_in ≡ length strm.next_in
        → L.goes_on s (strm.next_in ++ concat (p ∷ b))
        → (answer Z capacity s strm).returned ≡ pos 0
        → ((moved Z strm (answer Z capacity s strm)).avail_in == 0) ≡ true
        → (let out = next_out capacity (set_in (moved Z strm (answer Z capacity s strm)) p) vd in
            L.goes_on (answer Z capacity s strm).state (out.0.next_in ++ concat b))
    unfolding answer set_in
    onwards_pop s strm p b vd counted on fine eaten =
        let a = answer Z capacity s strm in
        let fed = set_in (moved Z strm a) p in
        rw (next_out-next_in Z L capacity G O room word fed vd) (
          subst (λ t. L.goes_on a.state (t ++ (p ++ concat b))) (nothing_left s strm counted eaten)
            (L.goes_on_behind s strm.next_in (concat (p ∷ b)) strm.avail_out on fine))

    onwards_more :
        (s : Z.S) (strm : ZStream) (b vd : List (List ℕ))
        → strm.avail_in ≡ length strm.next_in
        → L.goes_on s (strm.next_in ++ concat b)
        → (answer Z capacity s strm).returned ≡ pos 0
        → (let out = next_out capacity (moved Z strm (answer Z capacity s strm)) vd in
            L.goes_on (answer Z capacity s strm).state (out.0.next_in ++ concat b))
    unfolding answer
    onwards_more s strm b vd counted on fine =
        let strm' = moved Z strm (answer Z capacity s strm) in
        rw (next_out-next_in Z L capacity G O room word strm' vd) (
          rw ((moved_left strm (answer Z capacity s strm) counted).1)
            (L.goes_on_behind s strm.next_in (concat b) strm.avail_out on fine))

    after_pop :
        (fuel : ℕ) (s : Z.S) (strm : ZStream) (p : List ℕ) (b vd : List (List ℕ))
        → Mid Z L capacity G O s strm (p ∷ b) vd
        → (answer Z capacity s strm).returned ≡ pos 0
        → ((moved Z strm (answer Z capacity s strm)).avail_in == 0) ≡ true
        → L.todo s (strm.next_in ++ concat (p ∷ b)) + length (p ∷ b) < suc fuel
        → (let out = next_out capacity (set_in (moved Z strm (answer Z capacity s strm)) p) vd in
            L.todo (answer Z capacity s strm).state (out.0.next_in ++ concat b) + length b < fuel)
    unfolding answer set_in
    after_pop fuel s strm p b vd m fine eaten enough =
        let a = answer Z capacity s strm in
        let strm' = moved Z strm a in
        let nothing = nothing_left s strm m.counted eaten in
        rw (next_out-next_in Z L capacity G O room word (set_in strm' p) vd) (
          omega (
            arith,
            L.no_more s strm.next_in (concat (p ∷ b)) strm.avail_out fine,
            ap (λ t. L.todo a.state (t ++ (p ++ concat b))) nothing,
          ))

    after_more :
        (fuel : ℕ) (s : Z.S) (strm : ZStream) (b vd : List (List ℕ))
        → Mid Z L capacity G O s strm b vd
        → 0 < strm.avail_out
        → (answer Z capacity s strm).returned ≡ pos 0
        → ((moved Z strm (answer Z capacity s strm)).avail_in == 0) ≡ false
        → L.todo s (strm.next_in ++ concat b) + length b < suc fuel
        → (let out = next_out capacity (moved Z strm (answer Z capacity s strm)) vd in
            L.todo (answer Z capacity s strm).state (out.0.next_in ++ concat b) + length b < fuel)
    unfolding answer
    after_more fuel s strm b vd m some_room fine left enough =
        let a = answer Z capacity s strm in
        let strm' = moved Z strm a in
        rw (next_out-next_in Z L capacity G O room word strm' vd, (moved_left strm a m.counted).1)
          (omega (
            arith,
            L.less s strm.next_in (concat b) strm.avail_out fine
                (omega (
                  arith,
                  positive strm'.avail_in left,
                  moved_left strm a m.counted,
                  ap length (moved_left strm a m.counted).1,
                  length-drop a.consumed strm.next_in,
                ))
                some_room,
          ))

    failed-Sound :
        (s : Z.S) (strm : ZStream) (b vd : List (List ℕ)) (e : ZLibError)
        → Mid Z L capacity G O s strm b vd
        → lookup (answer Z capacity s strm).returned ≡ some e
        → Sound Z L capacity G O (err (answer Z capacity s strm).state e)
    unfolding Sound answer
    failed-Sound s strm b vd e m failed = record {
      before = s;
      inp = strm.next_in;
      room = strm.avail_out;
      left = (moved Z strm (answer Z capacity s strm)).next_in ++ concat b;
      reported = failed;
      state = refl;
      read = (call-Mid Z L capacity G O room word s strm b vd m).input;
    }

    settled_end :
        (s : Z.S) (strm : ZStream)
        → strm.avail_in ≡ length strm.next_in
        → lookup (answer Z capacity s strm).returned ≡ none
        → ((moved Z strm (answer Z capacity s strm)).avail_in == 0) ≡ true
        → 0 < (moved Z strm (answer Z capacity s strm)).avail_out
        → L.settled (answer Z capacity s strm).state
    unfolding answer moved
    settled_end s strm counted fine eaten some_room =
        L.settles s strm.next_in strm.avail_out fine
          (omega (arith, counted, is_zero _ eaten, L.reads s strm.next_in strm.avail_out))
          (omega (arith, some_room))

    -- The round that has read all of its page, given what holds of the rounds after it.
    eaten-Sound :
        (fuel : ℕ) (s : Z.S) (strm : ZStream) (b vd : List (List ℕ))
        → Mid Z L capacity G O s strm b vd
        → lookup (answer Z capacity s strm).returned ≡ none
        → ((moved Z strm (answer Z capacity s strm)).avail_in == 0) ≡ true
        → L.todo s (strm.next_in ++ concat b) + length b < suc fuel
        → L.goes_on s (strm.next_in ++ concat b)
        → ((s' : Z.S) (strm' : ZStream) (b' vd' : List (List ℕ))
            → L.goes_on s' (strm'.next_in ++ concat b')
            → Mid Z L capacity G O s' strm' b' vd'
            → 0 < strm'.avail_out
            → L.todo s' (strm'.next_in ++ concat b') + length b' < fuel
            → Sound Z L capacity G O (process_loop Z capacity fuel s' strm' b' vd'))
        → Sound Z L capacity G O (process_loop Z capacity (suc fuel) s strm b vd)
    unfolding answer
    eaten-Sound fuel s strm [] vd m fine eaten enough on ih =
        let m' = call-Mid Z L capacity G O room word s strm [] vd m in
        let strm' = moved Z strm (answer Z capacity s strm) in
        rw (round_end Z capacity fuel s strm vd m.counted fine eaten) (
          finish-Sound Z L capacity G O room word (answer Z capacity s strm).state strm' vd
            (is_zero strm'.avail_in eaten) m' (settled_end s strm m.counted fine eaten))
    eaten-Sound fuel s strm (p ∷ b) vd m fine eaten enough on ih =
        let s' = (answer Z capacity s strm).state in
        let strm' = moved Z strm (answer Z capacity s strm) in
        let fed = set_in strm' p in
        let ok = L.returns_ok s strm.next_in (concat (p ∷ b)) strm.avail_out on fine in
        let m' = call-Mid Z L capacity G O room word s strm (p ∷ b) vd m in
        let popped =
          pop-Mid Z L capacity G O room word s' strm' p b vd (is_zero strm'.avail_in eaten) m' in
        rw (round_pop Z capacity fuel s strm p b vd m.counted fine eaten) (
          ih s' (next_out capacity fed vd).0 b (next_out capacity fed vd).1
            (onwards_pop s strm p b vd m.counted on ok eaten)
            (next_out-Mid Z L capacity G O room word s' fed b vd popped)
            (next_out-room Z L capacity G O room word fed vd)
            (after_pop fuel s strm p b vd m ok eaten enough))

    loop-Sound :
        (fuel : ℕ) (s : Z.S) (strm : ZStream) (b vd : List (List ℕ))
        → L.goes_on s (strm.next_in ++ concat b)
        → Mid Z L capacity G O s strm b vd
        → 0 < strm.avail_out
        → L.todo s (strm.next_in ++ concat b) + length b < fuel
        → Sound Z L capacity G O (process_loop Z capacity fuel s strm b vd)
    unfolding answer
    loop-Sound zero s strm b vd on m some_room enough = absurd (omega arith)
    loop-Sound (suc fuel) s strm b vd on m some_room enough =
        let a = answer Z capacity s strm in
        let strm' = moved Z strm a in
        let m' = call-Mid Z L capacity G O room word s strm b vd m in
        elim (failed-cases (lookup a.returned)) [
          | inr (e, failed) ↦
              rw (round_err Z capacity fuel s strm b vd e m.counted failed)
                (failed-Sound s strm b vd e m failed)
          | inl fine ↦ elim (Bool-cases (strm'.avail_in == 0)) [
            | inr left ↦ rw (round_more Z capacity fuel s strm b vd m.counted fine left) (
                loop-Sound fuel a.state (next_out capacity strm' vd).0 b
                  (next_out capacity strm' vd).1
                  (onwards_more s strm b vd m.counted on
                    (L.returns_ok s strm.next_in (concat b) strm.avail_out on fine))
                  (next_out-Mid Z L capacity G O room word a.state strm' b vd m')
                  (next_out-room Z L capacity G O room word strm' vd)
                  (after_more fuel s strm b vd m some_room
                    (L.returns_ok s strm.next_in (concat b) strm.avail_out on fine) left enough))
            | inl eaten ↦ eaten-Sound fuel s strm b vd m fine eaten enough on (loop-Sound fuel)
          ]
        ]

  pub process-Sound :
      (fuel : ℕ) (s : Z.S) (b : List (List ℕ))
      → 0 < capacity
      → capacity < 2 ^ 32
      → All (λ p. length p < 2 ^ 32) b
      → L.todo s (concat b) + length b < fuel
      → L.goes_on s (concat b)
      → Sound Z L capacity (L.given s ++ concat b) (L.gave s) (process Z capacity fuel s b)
  unfolding Sound process
  process-Sound fuel s [] room word small enough on =
      (sym (append-nil (L.given s)), (sym (append-nil (L.gave s)), tt), λ ends. absurd ends)
  process-Sound fuel s (p ∷ b) room word small enough on =
      loop-Sound (L.given s ++ concat (p ∷ b)) (L.gave s) room word fuel s
        (record {
          next_in = p;
          avail_in = length p % 2 ^ 32;
          written = [];
          avail_out = capacity % 2 ^ 32;
        })
        b [] on
        (record {
          input = refl;
          output = sym (append-nil (L.gave s));
          counted = omega (arith, small.0);
          space = omega arith;
          pages = tt;
          small = small.1;
        })
        (omega arith) (omega arith)
