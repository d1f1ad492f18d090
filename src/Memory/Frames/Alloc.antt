-- ===== src/Memory/Frames/Alloc.antt =====
-- `alloc` takes the lowest free frame, and fails only where there is none.
use mathlib.Core.Logic.{inl, inr}
use cdk.Prelude.{
  ℕ, suc, ◌+◌, ◌-◌, ◌*◌, ◌^◌, ◌≤◌, ◌<◌, ◌≡◌, ◌≢◌, refl, sym, ap, ◌∙◌, subst, true, false, Option,
  none, some, List, [], ◌∷◌, length, ltb, ltb→lt, leb, leb→le, ◌==◌, ==_iff, arith, Bool-cases,
}
use cdk.Prelude.Bits.{test_bit}
use cdk.Memory.Frames.{is_used, find_free, trailing_ones, u64_max}
use cdk.Memory.Frames.Words.{trailing_below, trailing_clear, all_ones}
use cdk.Memory.Frames.Bitmap.{AreWords, is_used_low, is_used_high}

-- What the loop answers for the words from a place on: `r` counts the frames from there.
pub record Lowest (total word_idx : ℕ) (ws : List ℕ) (f r : ℕ) : Type 0 where
  pub place : f ≡ word_idx * 64 + r
  pub within : r < 64 * length ws
  pub tracked : f < total
  pub free : is_used r ws ≡ false
  pub lowest : (j : ℕ) → j < r → is_used j ws ≡ true

abbrev pub Answers : ℕ → ℕ → List ℕ → Option ℕ → Type 0
Answers total word_idx ws none =
    (r : ℕ) → r < 64 * length ws → word_idx * 64 + r < total → is_used r ws ≡ true
Answers total word_idx ws (some f) = (r : ℕ) × Lowest total word_idx ws f r

module _ (total word_idx w : ℕ) (ws : List ℕ) where
  -- A frame of this word, or of a later one.
  by_word : (P : ℕ → Type 0) → ((j : ℕ) → j < 64 → P j) → ((j : ℕ) → P (64 + j)) → (j : ℕ) → P j
  by_word P low high j = elim (Bool-cases (ltb j 64)) [
    | inl l ↦ low j (ltb→lt _ _ l)
    | inr n ↦ let e : 64 + (j - 64) ≡ j = ground arith in subst P e (high (j - 64))
  ]

  ones : w ≡ u64_max → (j : ℕ) → j < 64 → is_used j (w ∷ ws) ≡ true
  ones e j l = is_used_low j w ws l ∙ ap (λ k. test_bit k j) e ∙ all_ones 64 j l

  -- The word is full, and the loop goes on.
  full :
      (o : Option ℕ)
      → w ≡ u64_max
      → Answers total (suc word_idx) ws o
      → Answers total word_idx (w ∷ ws) o
  full none e a =
      by_word
        (λ r. r < 64 * suc (length ws) → word_idx * 64 + r < total → is_used r (w ∷ ws) ≡ true)
        (λ j l h k. ones e j l) (λ j h k. is_used_high j w ws ∙ a j (omega arith) (omega arith))
  full (some f) e (r, l) = (
    64 + r,
    record {
      place = omega (arith, l.place);
      within = omega (arith, l.within);
      tracked = l.tracked;
      free = is_used_high r w ws ∙ l.free;
      lowest =
          by_word (λ j. j < 64 + r → is_used j (w ∷ ws) ≡ true) (λ j k h. ones e j k)
            (λ j h. is_used_high j w ws ∙ l.lowest j (omega arith));
    },
  )

  module _ (bound : w < 2 ^ 64) (differs : w ≢ u64_max) where
    abbrev bit : ℕ
    bit = trailing_ones 64 w

    below : (j : ℕ) → j < bit → is_used j (w ∷ ws) ≡ true
    below j h =
        is_used_low j w ws (omega (arith, (trailing_clear 64 w bound differs).1))
        ∙ trailing_below 64 w j h

    -- The word has a free frame, and the bitmap tracks it.
    here :
        word_idx * 64 + bit < total → Answers total word_idx (w ∷ ws) (some (word_idx * 64 + bit))
    here h =
        let (clear, lt) = trailing_clear 64 w bound differs in
        (
          bit,
          record {
            place = refl;
            within = omega arith;
            tracked = h;
            free = is_used_low bit w ws lt ∙ clear;
            lowest = below;
          },
        )

    -- The free frame of the word lies past the end.
    past : total ≤ word_idx * 64 + bit → Answers total word_idx (w ∷ ws) none
    past h r l k = below r (omega arith)

pub find_free-Answers :
    (total word_idx : ℕ) (ws : List ℕ)
    → AreWords ws
    → Answers total word_idx ws (find_free total ws word_idx)
unfolding find_free
find_free-Answers total word_idx [] b = λ r l k. absurd (omega arith)
find_free-Answers total word_idx (w ∷ ws) b = elim (Bool-cases (w == u64_max)) [
  | inl e ↦ rw e (
      full total word_idx w ws (find_free total ws (suc word_idx)) ((==_iff w u64_max).0 e)
        (find_free-Answers total (suc word_idx) ws b.1))
  | inr n ↦
      let differs : w ≢ u64_max = λ e. apart (sym n ∙ (==_iff w u64_max).1 e) in
      elim (Bool-cases (leb total (word_idx * 64 + trailing_ones 64 w))) [
        | inl p ↦ rw (n, p) (past total word_idx w ws b.0 differs (leb→le _ _ p))
        | inr p ↦ rw (n, p) (here total word_idx w ws b.0 differs (ground arith))
      ]
]
  where
    apart : false ≡ true → ⊥
    apart e = cc
