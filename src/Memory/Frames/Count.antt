-- ===== src/Memory/Frames/Count.antt =====
-- The number of free frames: the code's count by words is the count frame by frame.
use mathlib.Core.Logic.{inl, inr}
use cdk.Prelude.{
  ℕ, zero, suc, ◌+◌, ◌*◌, ◌/◌, ◌%◌, ◌≤◌, ◌<◌, ◌≡◌, refl, sym, ap, ◌∙◌, true, false, ◌||◌, List, [],
  ◌∷◌, length, take, ◌==◌, ltb, if◌then◌else◌, arith, Bool-cases,
}
use cdk.Memory.Frames.{word, is_used, count_zeros, count_words, count_free, set_used, set_free}
use cdk.Memory.Frames.Words.{count_zeros-suc, count_zeros-mask}
use cdk.Memory.Frames.Bitmap.{is_used_low, is_used_high, is_used-set_used, is_used-set_free}

count_zeros_0 : (w : ℕ) → count_zeros 0 w ≡ 0
unfolding count_zeros
count_zeros_0 w = refl

-- The free frames among the first `n`.
unfoldable pub free_below : ℕ → List ℕ → ℕ
free_below zero bm = 0
free_below (suc n) bm = (if is_used n bm then 0 else 1) + free_below n bm

free_below_0 : (bm : List ℕ) → free_below 0 bm ≡ 0
unfolding free_below
free_below_0 bm = refl

free_below-word : (n w : ℕ) (ws : List ℕ) → n ≤ 64 → free_below n (w ∷ ws) ≡ count_zeros n w
unfolding free_below
free_below-word zero w ws h = sym (count_zeros_0 w)
free_below-word (suc n) w ws h = ground (
  arith,
  is_used_low n w ws (omega arith),
  count_zeros-suc n w,
  free_below-word n w ws (omega arith),
)

free_below-skip :
    (n w : ℕ) (ws : List ℕ) → free_below (64 + n) (w ∷ ws) ≡ count_zeros 64 w + free_below n ws
unfolding free_below
free_below-skip zero w ws =
    let e : 64 + 0 ≡ 64 = omega arith in
    ap (λ k. free_below k (w ∷ ws)) e ∙ free_below-word 64 w ws (omega arith) ∙ omega arith
free_below-skip (suc n) w ws =
    let e : 64 + suc n ≡ suc (64 + n) = omega arith in
    ap (λ k. free_below k (w ∷ ws)) e ∙ ground (arith, is_used_high n w ws, free_below-skip n w ws)

count_parts :
    (q r : ℕ) (bm : List ℕ)
    → r < 64
    → 64 * q + r ≤ 64 * length bm
    → count_words (take q bm) + count_zeros r (word bm q) ≡ free_below (64 * q + r) bm
unfolding count_words word
count_parts zero r [] l h =
    let e : r ≡ 0 = omega arith in
    let z : 64 * 0 + r ≡ 0 = omega arith in
    omega (
      arith,
      ap (λ k. count_zeros k (word [] 0)) e,
      count_zeros_0 (word [] 0),
      ap (λ k. free_below k []) z,
      free_below_0 [],
    )
count_parts zero r (w ∷ ws) l h =
    let e : 64 * 0 + r ≡ r = omega arith in
    omega (arith, free_below-word r w ws (omega arith), ap (λ k. free_below k (w ∷ ws)) e)
count_parts (suc q) r [] l h = absurd (omega arith)
count_parts (suc q) r (w ∷ ws) l h =
    let e : 64 * suc q + r ≡ 64 + (64 * q + r) = omega arith in
    omega (
      arith,
      count_parts q r ws l (omega arith),
      free_below-skip (64 * q + r) w ws,
      ap (λ k. free_below k (w ∷ ws)) e,
    )

-- `count_free` counts the frames below `total` whose bit is clear, whether or not the last word is
-- used in full.
pub count_free-free_below :
    (total : ℕ) (bm : List ℕ) → total ≤ 64 * length bm → count_free total bm ≡ free_below total bm
unfolding count_free
count_free-free_below total bm h = ground (
  arith,
  count_parts (total / 64) (total % 64) bm (omega arith) (omega arith),
  count_zeros-mask 64 (total % 64) (word bm (total / 64)) (omega arith),
  ap (λ k. free_below k bm) (let e : 64 * (total / 64) + total % 64 ≡ total = omega arith in e),
  count_zeros_0 (word bm (total / 64)),
)

-- Taking a free frame makes one free frame less.
free_below-taken :
    (n i : ℕ) (bm bm' : List ℕ)
    → ((j : ℕ) → is_used j bm' ≡ (is_used j bm || i == j))
    → is_used i bm ≡ false
    → free_below n bm' + (if ltb i n then 1 else 0) ≡ free_below n bm
unfolding free_below
free_below-taken zero i bm bm' h f = ground arith
free_below-taken (suc n) i bm bm' h f = elim (Bool-cases (i == n)) [
  | inl e ↦
      let q : i ≡ n = ground arith in
      let clear : is_used n bm ≡ false = sym (ap (λ k. is_used k bm) q) ∙ f in
      ground (arith, h n, free_below-taken n i bm bm' h f)
  | inr k ↦ ground (arith, h n, free_below-taken n i bm bm' h f)
]

pub free_below-set_used :
    (n i : ℕ) (bm : List ℕ)
    → i < n
    → i / 64 < length bm
    → is_used i bm ≡ false
    → free_below n (set_used i bm) + 1 ≡ free_below n bm
free_below-set_used n i bm l k f =
    ground (arith, free_below-taken n i bm (set_used i bm) (λ j. is_used-set_used i j bm k) f)

-- The number depends on nothing but which frames are used.
pub free_below-ext :
    (n : ℕ) (bm bm' : List ℕ)
    → ((j : ℕ) → j < n → is_used j bm' ≡ is_used j bm)
    → free_below n bm' ≡ free_below n bm
unfolding free_below
free_below-ext zero bm bm' h = refl
free_below-ext (suc n) bm bm' h = omega (
  arith,
  ap (λ b. let k : ℕ = if b then 0 else 1 in k) (h n (omega arith)),
  free_below-ext n bm bm' (λ j l. h j (omega arith)),
)

-- Giving a used frame back makes one free frame more.
pub free_below-set_free :
    (n i : ℕ) (bm : List ℕ)
    → i < n
    → i / 64 < length bm
    → is_used i bm ≡ true
    → free_below n (set_free i bm) ≡ free_below n bm + 1
free_below-set_free n i bm l k u =
    ground (arith, free_below-taken n i (set_free i bm) bm back clear)
  where
    clear : is_used i (set_free i bm) ≡ false
    clear = ground (arith, is_used-set_free i i bm k)

    back : (j : ℕ) → is_used j bm ≡ (is_used j (set_free i bm) || i == j)
    back j = elim (Bool-cases (i == j)) [
      | inl e ↦
          let q : i ≡ j = ground arith in
          let uj : is_used j bm ≡ true = sym (ap (λ t. is_used t bm) q) ∙ u in
          ground (arith, is_used-set_free i j bm k)
      | inr n ↦ ground (arith, is_used-set_free i j bm k)
    ]

pub free_below-le : (n : ℕ) (bm : List ℕ) → free_below n bm ≤ n
unfolding free_below
free_below-le zero bm = omega arith
free_below-le (suc n) bm = ground (arith, free_below-le n bm)

-- A free frame counts.
pub free_below-pos : (n i : ℕ) (bm : List ℕ) → i < n → is_used i bm ≡ false → 0 < free_below n bm
unfolding free_below
free_below-pos zero i bm l f = absurd (omega arith)
free_below-pos (suc n) i bm l f = elim (Bool-cases (i == n)) [
  | inl e ↦
      let q : i ≡ n = ground arith in
      let clear : is_used n bm ≡ false = sym (ap (λ k. is_used k bm) q) ∙ f in ground arith
  | inr k ↦ ground (arith, free_below-pos n i bm (ground arith) f)
]
