-- ===== src/Prelude/Bits.antt =====
-- Bits of a machine word. `test_bit x i` is bit `i` of `x`; a mask operation is known by its bits.
use Prim.Native.Nat.{ℕ, zero, suc, ◌+◌, ◌-◌, ◌*◌, ◌/◌, ◌%◌, ◌^◌, ◌≤◌, ◌<◌, min, max}
use Prim.Native.Nat.{bit_and, bit_or, digits, bitwise, bit_and-bitwise, bit_or-bitwise}
use mathlib.Core.Path.{◌≡◌, refl, ap, ◌∙◌}
use mathlib.Core.Bool.{Bool, true, false, not, ◌&&◌, ◌||◌}
use native.Mathlib.Omega.{arith}
use native.Mathlib.Decide.{dec_lt}
use mathlib.Core.Logic.{◌≢◌, inl, inr}
use native.Mathlib.Nat.{pow-suc}
use cdk.Prelude.Tests.{◌==◌, ==_iff, Bool-cases}

unfoldable pub test_bit : ℕ → ℕ → Bool
test_bit x zero = x % 2 == 1
test_bit x (suc i) = test_bit (x / 2) i

-- The native operations stand for a recursion on digits with fuel `a`: the fuel does not matter.
module _ (rest : ℕ → ℕ) (op : ℕ → ℕ → ℕ) where
  enough_fuel : (n m a b : ℕ) → a ≤ n → a ≤ m → digits rest op n a b ≡ digits rest op m a b
  enough_fuel zero zero zero b p q = refl
  enough_fuel zero (suc m) zero b p q = refl
  enough_fuel (suc n) zero zero b p q = refl
  enough_fuel (suc n) (suc m) zero b p q = refl
  enough_fuel zero m (suc a) b p q = absurd (omega arith)
  enough_fuel (suc n) zero (suc a) b p q = absurd (omega arith)
  enough_fuel (suc n) (suc m) (suc a) b p q =
      omega (arith, enough_fuel n m (suc a / 2) (b / 2) (omega arith) (omega arith))

  lowest_digit :
      (a b : ℕ)
      → bitwise rest op (suc a) b ≡ bitwise rest op (suc a / 2) (b / 2) * 2 + op (suc a % 2) (b % 2)
  lowest_digit a b =
      omega (arith, enough_fuel a (suc a / 2) (suc a / 2) (b / 2) (omega arith) (omega arith))

pub bit_and_low : (a b : ℕ) → bit_and a b ≡ bit_and (a / 2) (b / 2) * 2 + min (a % 2) (b % 2)
bit_and_low zero b = simp bit_and-bitwise (omega arith)
bit_and_low (suc a) b = simp bit_and-bitwise (lowest_digit (λ y. 0) min a b)

bit_or_low : (a b : ℕ) → bit_or a b ≡ bit_or (a / 2) (b / 2) * 2 + max (a % 2) (b % 2)
bit_or_low zero b = simp bit_or-bitwise (omega arith)
bit_or_low (suc a) b = simp bit_or-bitwise (lowest_digit (λ y. y) max a b)

-- The bits of `&` and `|`, at every position.
pub test_bit-and : (a b i : ℕ) → test_bit (bit_and a b) i ≡ (test_bit a i && test_bit b i)
unfolding test_bit
test_bit-and a b zero = ground (arith, bit_and_low a b)
test_bit-and a b (suc i) = ap (λ k. test_bit k i) (halves) ∙ test_bit-and (a / 2) (b / 2) i
  where
    halves : bit_and a b / 2 ≡ bit_and (a / 2) (b / 2)
    halves = omega (arith, bit_and_low a b)

pub test_bit-or : (a b i : ℕ) → test_bit (bit_or a b) i ≡ (test_bit a i || test_bit b i)
unfolding test_bit
test_bit-or a b zero = ground (arith, bit_or_low a b)
test_bit-or a b (suc i) = ap (λ k. test_bit k i) (halves) ∙ test_bit-or (a / 2) (b / 2) i
  where
    halves : bit_or a b / 2 ≡ bit_or (a / 2) (b / 2)
    halves = omega (arith, bit_or_low a b)

-- `!x` on a word of `w` bits.
unfoldable pub bit_not : ℕ → ℕ → ℕ
bit_not w x = 2 ^ w - 1 - x

pub test_bit-not : (w x i : ℕ) → x < 2 ^ w → i < w → test_bit (bit_not w x) i ≡ not (test_bit x i)
unfolding test_bit bit_not
test_bit-not zero x i h l = absurd (omega arith)
test_bit-not (suc w) x zero h l = ground (arith, pow-suc 2 w)
test_bit-not (suc w) x (suc i) h l =
    ap (λ k. test_bit k i) halves
    ∙ test_bit-not w (x / 2) i (omega (arith, pow-suc 2 w)) (omega arith)
  where
    halves : (2 ^ suc w - 1 - x) / 2 ≡ 2 ^ w - 1 - x / 2
    halves = omega (arith, pow-suc 2 w)

-- A power of two has one bit.
pub test_bit-zero : (i : ℕ) → test_bit 0 i ≡ false
unfolding test_bit
test_bit-zero zero = refl
test_bit-zero (suc i) = test_bit-zero i

pub test_bit-pow : (k i : ℕ) → test_bit (2 ^ k) i ≡ (k == i)
unfolding test_bit
test_bit-pow zero zero = refl
test_bit-pow zero (suc i) = test_bit-zero i ∙ ground arith
test_bit-pow (suc k) zero = ground (arith, pow-suc 2 k)
test_bit-pow (suc k) (suc i) = ap (λ n. test_bit n i) halves ∙ test_bit-pow k i ∙ ground arith
  where
    halves : 2 ^ suc k / 2 ≡ 2 ^ k
    halves = omega (arith, pow-suc 2 k)

-- A number with no bit set is zero.
zero_of_bits_fuel : (n x : ℕ) → x ≤ n → ((i : ℕ) → test_bit x i ≡ false) → x ≡ 0
unfolding test_bit
zero_of_bits_fuel zero x l h = omega arith
zero_of_bits_fuel (suc n) x l h =
    ground (arith, h 0, zero_of_bits_fuel n (x / 2) (omega arith) (λ i. h (suc i)))

pub zero_of_bits : (x : ℕ) → ((i : ℕ) → test_bit x i ≡ false) → x ≡ 0
zero_of_bits x h = zero_of_bits_fuel x x (omega arith) h

-- Bits outside the width of a word are clear, and `|` stays within the width.
pub test_bit_high : (w x i : ℕ) → x < 2 ^ w → w ≤ i → test_bit x i ≡ false
unfolding test_bit
test_bit_high zero x i h l = let e : x ≡ 0 = omega arith in rw e (test_bit-zero i)
test_bit_high (suc w) x zero h l = absurd (omega arith)
test_bit_high (suc w) x (suc i) h l =
    test_bit_high w (x / 2) i (omega (arith, pow-suc 2 w)) (omega arith)

pub bit_or-lt : (w a b : ℕ) → a < 2 ^ w → b < 2 ^ w → bit_or a b < 2 ^ w
bit_or-lt zero a b h k =
    let e : a ≡ 0 = omega arith in let f : b ≡ 0 = omega arith in rw (e, f) (omega arith)
bit_or-lt (suc w) a b h k = omega (
  arith,
  pow-suc 2 w,
  bit_or_low a b,
  bit_or-lt w (a / 2) (b / 2) (omega (arith, pow-suc 2 w)) (omega (arith, pow-suc 2 w)),
)

-- A number that is not zero has a bit.
some_bit_fuel : (n x : ℕ) → x ≤ n → x ≢ 0 → (i : ℕ) × (test_bit x i ≡ true)
unfolding test_bit
some_bit_fuel zero x l h = absurd (omega arith)
some_bit_fuel (suc n) x l h = elim (dec_lt 0 (x % 2)) [
  | yes odd ↦ (0, ground arith)
  | no even ↦ let (i, b) = some_bit_fuel n (x / 2) (omega arith) (omega arith) in (suc i, b)
]

pub some_bit : (x : ℕ) → x ≢ 0 → (i : ℕ) × (test_bit x i ≡ true)
some_bit x h = some_bit_fuel x x (omega arith) h

-- A mask has no bit in common with a permission's bit exactly if its bit there is clear.
pub bit_test : (mask k : ℕ) → (bit_and mask (2 ^ k) == 0) ≡ not (test_bit mask k)
bit_test mask k = elim (Bool-cases (test_bit mask k)) [
  | inl set ↦ rw set (differs set)
  | inr clear ↦ rw clear ((==_iff _ 0).1 (zero_of_bits _ (λ i. meets clear i)))
]
  where
    meets : test_bit mask k ≡ false → (i : ℕ) → test_bit (bit_and mask (2 ^ k)) i ≡ false
    meets clear i = ground (arith, test_bit-and mask (2 ^ k) i, test_bit-pow k i)

    differs : test_bit mask k ≡ true → (bit_and mask (2 ^ k) == 0) ≡ false
    differs set = ground (
      arith,
      test_bit-and mask (2 ^ k) k,
      test_bit-pow k k,
      test_bit-zero k,
      ap (λ n. test_bit n k),
    )
