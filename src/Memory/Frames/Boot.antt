-- ===== src/Memory/Frames/Boot.antt =====
-- Which frames the boot makes available, by the bytes of the memory map's regions.
use mathlib.Core.Logic.{inl, inr, ◌⊎◌, ◌↔◌}
use cdk.Prelude.{
  ℕ, ◌+◌, ◌-◌, ◌*◌, ◌/◌, ◌^◌, ◌≤◌, ◌<◌, ◌≡◌, refl, sym, subst, Bool, true, false, not, ◌||◌, List,
  [], ◌∷◌, length, any, if◌then◌else◌, min, take, leb, ltb, arith, Bool-cases, In, All, In-of_any,
  any_of_In,
}
use cdk.Memory.Frames.{
  FrameAllocator, Region, first_frame, last_frame, is_used, tracked, max_end, boot_init,
  bitmap_words, u64_max, init_from_regions, reserve_range,
}
use cdk.Memory.Frames.Bitmap.{AreWords}
use cdk.Memory.Frames.Valid.{IsValid}
use cdk.Memory.Frames.Init.{covers, boot_marks}

-- A byte of a usable region lies in frame `j`.
abbrev pub HasByte : ℕ → Region → Type 0
HasByte j r = (x : ℕ) × (r.usable ≡ true) × (r.base ≤ x) × (x < r.base + r.len) × (x / 4096 ≡ j)

-- The regions end where the sums of the code do not wrap around.
abbrev pub Bounded : List Region → Type 0
Bounded = All (λ (r : Region). r.base + r.len ≤ 2 ^ 64 - 4096)

All-In : (rs : List Region) (r : Region) → Bounded rs → In r rs → r.base + r.len ≤ 2 ^ 64 - 4096
All-In [] r h m = absurd m
All-In (x ∷ rs) r h (inl e) = subst (λ (t : Region). t.base + t.len ≤ 2 ^ 64 - 4096) (sym e) h.0
All-In (x ∷ rs) r h (inr m) = All-In rs r h.1 m

covers-HasByte :
    (j : ℕ) (r : Region) → r.base + r.len ≤ 2 ^ 64 - 4096 → covers j r ≡ true → HasByte j r
unfolding first_frame last_frame
covers-HasByte j r h c = elim (Bool-cases (leb r.base (4096 * j))) [
  | inl low ↦ (4096 * j, ground arith, ground arith, ground arith, omega arith)
  | inr high ↦ (r.base, ground arith, ground arith, ground arith, ground arith)
]

HasByte-covers :
    (j : ℕ) (r : Region) → r.base + r.len ≤ 2 ^ 64 - 4096 → HasByte j r → covers j r ≡ true
unfolding first_frame last_frame
HasByte-covers j r h (x, usable, above, below, here) = ground arith

max_end-le :
    (rs : List Region) (m : ℕ) → m ≤ 2 ^ 64 - 4096 → Bounded rs → max_end m rs ≤ 2 ^ 64 - 4096
unfolding max_end
max_end-le [] m l h = l
max_end-le (r ∷ rs) m l h = max_end-le rs _ (ground (arith, h.0)) h.1

le-max_end : (rs : List Region) (m : ℕ) → m ≤ max_end m rs
unfolding max_end
le-max_end [] m = omega arith
le-max_end (r ∷ rs) m =
    let end : ℕ = min (r.base + r.len) u64_max in
    let l : (if ltb m end then end else m) ≤ max_end (if ltb m end then end else m) rs =
      le-max_end rs (if ltb m end then end else m) in
    ground (arith, l)

end-le-max_end :
    (rs : List Region) (m : ℕ) (r : Region) → Bounded rs → In r rs → r.base + r.len ≤ max_end m rs
unfolding max_end
end-le-max_end [] m r h i = absurd i
end-le-max_end (x ∷ rs) m r h (inr i) = end-le-max_end rs _ r h.1 i
end-le-max_end (x ∷ rs) m r h (inl e) =
    let end : ℕ = min (x.base + x.len) u64_max in
    let l : (if ltb m end then end else m) ≤ max_end (if ltb m end then end else m) rs =
      le-max_end rs (if ltb m end then end else m) in
    subst (λ (t : Region). t.base + t.len ≤ max_end m (x ∷ rs)) (sym e) (ground (arith, l, h.0))

max_end_attained :
    (rs : List Region) (m k : ℕ)
    → k < max_end m rs
    → (k < m) ⊎ ((r : Region) × In r rs × (k < r.base + r.len))
unfolding max_end
max_end_attained [] m k l = inl l
max_end_attained (r ∷ rs) m k l = elim (max_end_attained rs _ k l) [
  | inr (t, i, b) ↦ inr (t, inr i, b)
  | inl b ↦ elim (Bool-cases (ltb k m)) [
    | inl low ↦ inl (ground arith)
    | inr high ↦ inr (r, inl refl, ground arith)
  ]
]

boot_total :
    (regions : List Region) (a : FrameAllocator)
    → (boot_init regions a).total_frames ≡ tracked (take 64 regions)
unfolding boot_init reserve_range init_from_regions
boot_total regions a = refl

free_bit : (j : ℕ) (c u : Bool) → u ≡ (ltb j 256 || not c) → (u ≡ false) ↔ ((256 ≤ j) × (c ≡ true))
free_bit j true u e = (λ h. (ground arith, refl), λ h. ground (arith, h.0))
free_bit j false u e = (λ h. absurd (ground arith), λ h. absurd (cc))

-- Started on a bitmap of 2048 words of 64 bits, with a memory map whose first 64 regions end at least
-- 4096 bytes below the end of 64-bit addresses: after the boot the state is valid, and a tracked
-- frame is free exactly if it lies above the first mebibyte and one of these regions is usable and
-- has a byte in it. Every frame with such a byte is tracked if the bitmap has a bit for it, and every
-- tracked frame begins below the end of one of these regions.
pub boot_init_lem :
    (regions : List Region) (a : FrameAllocator)
    → AreWords a.bitmap
    → length a.bitmap ≡ bitmap_words
    → Bounded (take 64 regions)
    → IsValid (boot_init regions a)
      × ((j : ℕ)
          → j < (boot_init regions a).total_frames
          → (is_used j (boot_init regions a).bitmap ≡ false)
            ↔ ((256 ≤ j) × ((r : Region) × In r (take 64 regions) × HasByte j r)))
      × ((j : ℕ) (r : Region)
          → In r (take 64 regions)
          → HasByte j r
          → j < 131072
          → j < (boot_init regions a).total_frames)
      × ((j : ℕ)
          → j < (boot_init regions a).total_frames
          → (r : Region) × In r (take 64 regions) × (4096 * j < r.base + r.len))
unfolding tracked
boot_init_lem regions a w l h =
    let rs : List Region = take 64 regions in
    let (v, marks) = boot_marks regions a w l in
    let total : (boot_init regions a).total_frames ≡ tracked rs = boot_total regions a in
    let top : max_end 0 rs ≤ 2 ^ 64 - 4096 = max_end-le rs 0 (omega arith) h in
    (
      v,
      (λ j lt. (
        (λ free.
            let (high, some_covers) = (free_bit j (any (covers j) rs) _ (marks j lt)).0 free in
            let (r, m, c) = In-of_any (covers j) rs some_covers in
            (high, (r, m, covers-HasByte j r (All-In rs r h m) c))),
        (λ has.
            let (high, (r, m, b)) = has in
            (free_bit j (any (covers j) rs) _ (marks j lt)).1
              (high, any_of_In (covers j) r rs m (HasByte-covers j r (All-In rs r h m) b))),
      )),
      (λ j r m b lt.
          let (x, usable, above, below, here) = b in
          omega (arith, total, top, end-le-max_end rs 0 r h m, above, below, here)),
      (λ j lt. elim (max_end_attained rs 0 (4096 * j) (omega (arith, total, top, lt))) [
        | inl none ↦ absurd (omega arith)
        | inr found ↦ found
      ]),
    )
