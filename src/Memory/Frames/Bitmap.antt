-- ===== src/Memory/Frames/Bitmap.antt =====
-- The bitmap as a set of frames: what marking a frame changes, and that a frame's word is found.
use mathlib.Core.Logic.{inl, inr}
use cdk.Prelude.{
  ℕ, zero, suc, ◌+◌, ◌/◌, ◌%◌, ◌^◌, ◌<◌, ◌≡◌, refl, sym, ap, ap₂, ◌∙◌, Bool, true, false, not, ◌&&◌,
  ◌||◌, List, [], ◌∷◌, length, length-set, set, bit_and, bit_or, ◌==◌, ==_iff, if◌then◌else◌, arith,
  Bool-cases, All,
}
use cdk.Prelude.Bits.{
  test_bit, test_bit-or, test_bit-and, test_bit-not, test_bit-pow, bit_not, bit_or-lt,
}
use cdk.Memory.Frames.{word, set_used, set_free, is_used}
use cdk.Memory.Frames.Words.{pow_lt, bit_and-le}

abbrev pub AreWords : List ℕ → Type 0
AreWords = All (λ w. w < 2 ^ 64)

pub word-lt : (bm : List ℕ) (i : ℕ) → AreWords bm → word bm i < 2 ^ 64
unfolding word
word-lt [] i h = omega arith
word-lt (w ∷ ws) zero h = h.0
word-lt (w ∷ ws) (suc i) h = word-lt ws i h.1

word-set :
    (bm : List ℕ) (i j v : ℕ)
    → i < length bm
    → word (set bm i v) j ≡ (if i == j then v else word bm j)
unfolding word
word-set [] i j v h = absurd (omega arith)
word-set (w ∷ ws) zero zero v h = refl
word-set (w ∷ ws) zero (suc j) v h = ground arith
word-set (w ∷ ws) (suc i) zero v h = ground arith
word-set (w ∷ ws) (suc i) (suc j) v h = word-set ws i j v (omega arith) ∙ ground arith

AreWords-set : (bm : List ℕ) (i v : ℕ) → AreWords bm → v < 2 ^ 64 → AreWords (set bm i v)
AreWords-set [] i v h k = h
AreWords-set (w ∷ ws) zero v h k = (k, h.1)
AreWords-set (w ∷ ws) (suc i) v h k = (h.0, AreWords-set ws i v h.1 k)

one_bit : (frame : ℕ) → 2 ^ (frame % 64) < 2 ^ 64
one_bit frame = pow_lt (frame % 64) 64 (omega arith)

pub length-set_used : (frame : ℕ) (bm : List ℕ) → length (set_used frame bm) ≡ length bm
unfolding set_used
length-set_used frame bm = length-set bm (frame / 64) _

pub length-set_free : (frame : ℕ) (bm : List ℕ) → length (set_free frame bm) ≡ length bm
unfolding set_free
length-set_free frame bm = length-set bm (frame / 64) _

pub set_used-AreWords : (frame : ℕ) (bm : List ℕ) → AreWords bm → AreWords (set_used frame bm)
unfolding set_used
set_used-AreWords frame bm h = AreWords-set bm (frame / 64) _ h (
    bit_or-lt 64 (word bm (frame / 64)) (2 ^ (frame % 64)) (word-lt bm (frame / 64) h)
      (one_bit frame))

pub set_free-AreWords : (frame : ℕ) (bm : List ℕ) → AreWords bm → AreWords (set_free frame bm)
unfolding set_free
set_free-AreWords frame bm h = AreWords-set bm (frame / 64) _ h (
    omega (
      arith,
      word-lt bm (frame / 64) h,
      bit_and-le (word bm (frame / 64)) (bit_not 64 (2 ^ (frame % 64))),
    ))

same_place : (i j : ℕ) → i / 64 ≡ j / 64 → (i % 64 == j % 64) ≡ (i == j)
same_place i j e = ground arith

-- A word that was written, seen at a frame.
module _ (i j : ℕ) (bm : List ℕ) (v : ℕ) (h : i / 64 < length bm) where
  bit_of_same :
      i / 64 ≡ j / 64 → test_bit (word (set bm (i / 64) v) (j / 64)) (j % 64) ≡ test_bit v (j % 64)
  bit_of_same e =
      ap (λ w. test_bit w (j % 64))
        (word-set bm (i / 64) (j / 64) v h
          ∙ ap (λ b. if b then v else word bm (j / 64)) ((==_iff (i / 64) (j / 64)).1 e))

  bit_of_other :
      (i / 64 == j / 64) ≡ false
      → test_bit (word (set bm (i / 64) v) (j / 64)) (j % 64) ≡ test_bit (word bm (j / 64)) (j % 64)
  bit_of_other n =
      ap (λ w. test_bit w (j % 64))
        (word-set bm (i / 64) (j / 64) v h ∙ ap (λ b. if b then v else word bm (j / 64)) n)

-- Marking a frame used sets it, and leaves every other frame as it is.
pub is_used-set_used :
    (i j : ℕ) (bm : List ℕ)
    → i / 64 < length bm
    → is_used j (set_used i bm) ≡ (is_used j bm || i == j)
unfolding is_used set_used
is_used-set_used i j bm h = elim (Bool-cases (i / 64 == j / 64)) [
  | inl e ↦
      let q : i / 64 ≡ j / 64 = (==_iff _ _).0 e in
      bit_of_same i j bm (bit_or (word bm (i / 64)) (2 ^ (i % 64))) h q
      ∙ test_bit-or (word bm (i / 64)) (2 ^ (i % 64)) (j % 64)
      ∙ ap₂ (λ x y. x || y) (ap (λ k. test_bit (word bm k) (j % 64)) q)
          (test_bit-pow (i % 64) (j % 64) ∙ same_place i j q)
  | inr n ↦
      let k : (i == j) ≡ false = ground arith in
      bit_of_other i j bm (bit_or (word bm (i / 64)) (2 ^ (i % 64))) h n ∙ rw k (sym (or_false _))
]
  where
    or_false : (b : Bool) → (b || false) ≡ b
    or_false true = refl
    or_false false = refl

-- Marking a frame free clears it, and leaves every other frame as it is.
pub is_used-set_free :
    (i j : ℕ) (bm : List ℕ)
    → i / 64 < length bm
    → is_used j (set_free i bm) ≡ (is_used j bm && not (i == j))
unfolding is_used set_free
is_used-set_free i j bm h = elim (Bool-cases (i / 64 == j / 64)) [
  | inl e ↦
      let q : i / 64 ≡ j / 64 = (==_iff _ _).0 e in
      bit_of_same i j bm (bit_and (word bm (i / 64)) (bit_not 64 (2 ^ (i % 64)))) h q
      ∙ test_bit-and (word bm (i / 64)) (bit_not 64 (2 ^ (i % 64))) (j % 64)
      ∙ ap₂ (λ x y. x && y) (ap (λ k. test_bit (word bm k) (j % 64)) q)
          (test_bit-not 64 (2 ^ (i % 64)) (j % 64) (one_bit i) (omega arith)
            ∙ ap not (test_bit-pow (i % 64) (j % 64) ∙ same_place i j q))
  | inr n ↦
      let k : (i == j) ≡ false = ground arith in
      bit_of_other i j bm (bit_and (word bm (i / 64)) (bit_not 64 (2 ^ (i % 64)))) h n
      ∙ rw k (sym (and_true _))
]
  where
    and_true : (b : Bool) → (b && true) ≡ b
    and_true true = refl
    and_true false = refl

-- A frame in the first word, and behind it.
pub is_used_low : (j w : ℕ) (ws : List ℕ) → j < 64 → is_used j (w ∷ ws) ≡ test_bit w j
unfolding is_used word
is_used_low j w ws h =
    let q : j / 64 ≡ 0 = omega arith in
    let r : j % 64 ≡ j = omega arith in ap₂ (λ a b. test_bit (word (w ∷ ws) a) b) q r

pub is_used_high : (j w : ℕ) (ws : List ℕ) → is_used (64 + j) (w ∷ ws) ≡ is_used j ws
unfolding is_used word
is_used_high j w ws =
    let q : (64 + j) / 64 ≡ suc (j / 64) = omega arith in
    let r : (64 + j) % 64 ≡ j % 64 = omega arith in ap₂ (λ a b. test_bit (word (w ∷ ws) a) b) q r
