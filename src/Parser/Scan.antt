-- ===== src/Parser/Scan.antt =====
-- The variable-length integer format, independent of the code: groups of seven bits, the lowest
-- first, one to a byte, with the top bit set on every byte but the last.
use blockrouter.Prelude.{ℕ, zero, suc, ◌+◌, ◌*◌, ◌%◌, ◌≡◌, refl, arith, List, [], ◌∷◌, ◌++◌, ltb}
use blockrouter.Prelude.{if◌then◌else◌, length, ◌≤◌, ◌<◌, ◌≢◌, ap, drop, Bool-cases, inl, inr}

-- `done groups rest`: a whole number and what follows it. `short`: the input ends inside a number.
-- `long`: a number of too many groups.
pub data Scan : Type 0 where
  done : List ℕ → List ℕ → Scan
  short : Scan
  long : Scan

abbrev pub push : ℕ → Scan → Scan
push g (done gs rest) = done (g ∷ gs) rest
push g short = short
push g long = long

-- Reads a number of at most the given count of groups.
unfoldable pub scan : ℕ → List ℕ → Scan
scan zero bs = long
scan (suc k) [] = short
scan (suc k) (b ∷ bs) = if ltb b 128 then done (b ∷ []) bs else push (b % 128) (scan k bs)

abbrev pub value : List ℕ → ℕ
value [] = 0
value (g ∷ gs) = g + 128 * value gs

abbrev pub append_rest : List ℕ → Scan → Scan
append_rest more (done gs rest) = done gs (rest ++ more)
append_rest more short = short
append_rest more long = long

push_short : (g : ℕ) (s : Scan) → push g s ≢ short → s ≢ short
push_short g s h e = h (ap (push g) e)

append_rest-push :
    (more : List ℕ) (g : ℕ) (s : Scan) → append_rest more (push g s) ≡ push g (append_rest more s)
append_rest-push more g (done gs rest) = refl
append_rest-push more g short = refl
append_rest-push more g long = refl

-- Once the scan is decided, more input does not change it.
pub scan-append :
    (k : ℕ) (bs more : List ℕ)
    → scan k bs ≢ short
    → scan k (bs ++ more) ≡ append_rest more (scan k bs)
unfolding scan
scan-append zero bs more h = refl
scan-append (suc k) [] more h = absurd (h refl)
scan-append (suc k) (b ∷ bs) more h = elim (Bool-cases (ltb b 128)) [
  | inl last ↦ rw last
  | inr on ↦
      let open_end : scan k bs ≢ short = push_short (b % 128) (scan k bs) (rw on at h) in
      rw (on, append_rest-push) (ap (push (b % 128)) (scan-append k bs more open_end))
]

-- A number takes as many bytes as it has groups, one at least, and the rest follows it.
pub record IsHeader (k : ℕ) (bs gs rest : List ℕ) : Type 0 where
  pub behind : drop (length gs) bs ≡ rest
  pub size : length bs ≡ length gs + length rest
  pub some_group : 0 < length gs
  pub few_groups : length gs ≤ k

-- The scan holds what the name says, where it is `done`.
abbrev Whole : ℕ → List ℕ → Scan → Type 0
Whole k bs (done gs rest) = IsHeader k bs gs rest
Whole k bs short = Unit
Whole k bs long = Unit

Whole-push :
    (k b : ℕ) (g : ℕ) (bs : List ℕ) (s : Scan) → Whole k bs s → Whole (suc k) (b ∷ bs) (push g s)
Whole-push k b g bs (done gs rest) h = record {
  behind = h.behind;
  size = omega (arith, h.size);
  some_group = omega arith;
  few_groups = omega (arith, h.few_groups);
}
Whole-push k b g bs short h = h
Whole-push k b g bs long h = h

scan-Whole : (k : ℕ) (bs : List ℕ) → Whole k bs (scan k bs)
unfolding scan
scan-Whole zero bs = tt
scan-Whole (suc k) [] = tt
scan-Whole (suc k) (b ∷ bs) = elim (Bool-cases (ltb b 128)) [
  | inl last ↦ rw last (record {
    behind = refl;
    size = omega arith;
    some_group = omega arith;
    few_groups = omega arith;
  })
  | inr on ↦ rw on (Whole-push k b (b % 128) bs (scan k bs) (scan-Whole k bs))
]

pub scan-IsHeader :
    (k : ℕ) (bs : List ℕ) {gs rest : List ℕ} → scan k bs ≡ done gs rest → IsHeader k bs gs rest
scan-IsHeader k bs e = rw e at (scan-Whole k bs)
