-- ===== src/Memory/Frames/Words.antt =====
-- Bits of one word of the bitmap: the lowest clear bit, and the number of clear bits.
use native.Mathlib.Decide.{dec_lt}
use native.Mathlib.Nat.{pow-suc}
use mathlib.Core.Logic.{inl, inr}
use cdk.Prelude.{
  ℕ, zero, suc, ◌+◌, ◌-◌, ◌/◌, ◌%◌, ◌^◌, ◌≤◌, ◌<◌, ◌≡◌, ◌≢◌, refl, ap, ◌∙◌, true, false, bit_and,
  ◌==◌, if◌then◌else◌, arith, Bool-cases,
}
use cdk.Prelude.Bits.{test_bit, bit_and_low, test_bit-and, test_bit-zero, zero_of_bits}
use cdk.Memory.Frames.{trailing_ones, count_zeros}

pub pow_pos : (n : ℕ) → 0 < 2 ^ n
pow_pos zero = omega arith
pow_pos (suc n) = omega (arith, pow-suc 2 n, pow_pos n)

pub pow_lt : (k n : ℕ) → k < n → 2 ^ k < 2 ^ n
pow_lt zero zero h = absurd (omega arith)
pow_lt zero (suc n) h = omega (arith, pow-suc 2 n, pow_pos n)
pow_lt (suc k) zero h = absurd (omega arith)
pow_lt (suc k) (suc n) h = omega (arith, pow-suc 2 n, pow-suc 2 k, pow_lt k n (omega arith))

-- The bits below the first clear one are set.
pub trailing_below : (n w j : ℕ) → j < trailing_ones n w → test_bit w j ≡ true
unfolding trailing_ones test_bit
trailing_below zero w j h = absurd (omega arith)
trailing_below (suc n) w zero h = ground arith
trailing_below (suc n) w (suc j) h = trailing_below n (w / 2) j (ground arith)

-- A word that is not all ones has a clear bit there.
pub trailing_clear :
    (n w : ℕ)
    → w < 2 ^ n
    → w ≢ 2 ^ n - 1
    → (test_bit w (trailing_ones n w) ≡ false) × (trailing_ones n w < n)
unfolding trailing_ones test_bit
trailing_clear zero w h k = absurd (omega arith)
trailing_clear (suc n) w h k = elim (Bool-cases (w % 2 == 1)) [
  | inl odd ↦
      let (b, l) =
        trailing_clear n (w / 2) (omega (arith, pow-suc 2 n)) (ground (arith, pow-suc 2 n)) in
      rw odd (b, omega arith)
  | inr even ↦ rw even (even, omega arith)
]

-- All ones: every bit within the width is set.
pub all_ones : (n j : ℕ) → j < n → test_bit (2 ^ n - 1) j ≡ true
unfolding test_bit
all_ones zero j h = absurd (omega arith)
all_ones (suc n) zero h = ground (arith, pow-suc 2 n, pow_lt 0 (suc n))
all_ones (suc n) (suc j) h =
    let e : (2 ^ suc n - 1) / 2 ≡ 2 ^ n - 1 = omega (arith, pow-suc 2 n) in
    ap (λ k. test_bit k j) e ∙ all_ones n j (omega arith)

-- One more bit counts if it is clear.
pub count_zeros-suc :
    (n w : ℕ) → count_zeros (suc n) w ≡ (if test_bit w n then 0 else 1) + count_zeros n w
unfolding count_zeros test_bit
count_zeros-suc zero w = ground arith
count_zeros-suc (suc n) w = omega (arith, count_zeros-suc n (w / 2))

count_zeros-zero : (n : ℕ) → count_zeros n 0 ≡ n
unfolding count_zeros
count_zeros-zero zero = refl
count_zeros-zero (suc n) = omega (arith, count_zeros-zero n)

bit_and_zero : (w : ℕ) → bit_and w 0 ≡ 0
bit_and_zero w =
    zero_of_bits (bit_and w 0) (λ i. test_bit-and w 0 i ∙ ground (arith, test_bit-zero i))

-- The bits that a mask of the `r` lowest bits takes away count as clear.
pub count_zeros-mask :
    (n r w : ℕ) → r ≤ n → count_zeros n (bit_and w (2 ^ r - 1)) ≡ count_zeros r w + (n - r)
unfolding count_zeros
count_zeros-mask n zero w h = ap (count_zeros n) (bit_and_zero w) ∙ count_zeros-zero n ∙ omega arith
count_zeros-mask zero (suc r) w h = absurd (omega arith)
count_zeros-mask (suc n) (suc r) w h =
    omega (arith, low, ap (count_zeros n) high, count_zeros-mask n r (w / 2) (omega arith))
  where
    halves : (2 ^ suc r - 1) / 2 ≡ 2 ^ r - 1
    halves = omega (arith, pow-suc 2 r)

    low : bit_and w (2 ^ suc r - 1) % 2 ≡ w % 2
    low = omega (arith, bit_and_low w (2 ^ suc r - 1), pow-suc 2 r, pow_pos r)

    high : bit_and w (2 ^ suc r - 1) / 2 ≡ bit_and (w / 2) (2 ^ r - 1)
    high =
        let q : bit_and w (2 ^ suc r - 1) / 2 ≡ bit_and (w / 2) ((2 ^ suc r - 1) / 2) =
          omega (arith, bit_and_low w (2 ^ suc r - 1)) in
        q ∙ ap (bit_and (w / 2)) halves

-- Masking makes a word no larger.
bit_and-le_fuel : (n a b : ℕ) → a ≤ n → bit_and a b ≤ a
bit_and-le_fuel zero zero b h =
    let e : bit_and 0 b ≡ 0 =
      zero_of_bits (bit_and 0 b) (λ i. test_bit-and 0 b i ∙ ground (arith, test_bit-zero i)) in
    omega (arith, e)
bit_and-le_fuel zero (suc a) b h = absurd (omega arith)
bit_and-le_fuel (suc n) a b h = elim (dec_lt 0 a) [
  | yes p ↦ omega (arith, bit_and_low a b, bit_and-le_fuel n (a / 2) (b / 2) (omega arith))
  | no p ↦ let z : a ≡ 0 = omega arith in rw z (bit_and-le_fuel n 0 b (omega arith))
]

pub bit_and-le : (a b : ℕ) → bit_and a b ≤ a
bit_and-le a b = bit_and-le_fuel a a b (omega arith)
