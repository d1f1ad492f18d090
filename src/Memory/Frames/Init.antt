-- ===== src/Memory/Frames/Init.antt =====
-- The start of the allocator: which frames are free, and that low memory never is.
use mathlib.Core.Logic.{inl, inr}
use cdk.Prelude.{
  ℕ, zero, suc, ◌+◌, ◌-◌, ◌*◌, ◌/◌, ◌≤◌, ◌<◌, ◌≡◌, refl, sym, ap, ◌∙◌, Bool, true, false, not, ◌&&◌,
  ◌||◌, List, [], ◌∷◌, length, any, min, take, leb, ltb, ◌==◌, if◌then◌else◌, arith, Bool-cases,
}
use cdk.Memory.Frames.{
  FrameAllocator, Region, first_frame, last_frame, set_free, set_used, is_used, mark_used,
  mark_free, free_regions, tracked, init_from_regions, reserve, reserve_range, boot_init,
  low_memory_reserved, frame_size, bitmap_words,
}
use cdk.Memory.Frames.Bitmap.{
  AreWords, is_used-set_used, is_used-set_free, set_used-AreWords, set_free-AreWords,
  length-set_used, length-set_free,
}
use cdk.Memory.Frames.Count.{free_below, free_below-set_used, count_free-free_below}
use cdk.Memory.Frames.Valid.{IsValid, in_run}
use cdk.Memory.Frames.Runs.{is_used-mark_used, mark_used-AreWords, length-mark_used}

-- The frames that the marking of a region frees.
abbrev pub covers : ℕ → Region → Bool
covers j r = r.usable && (not (r.len == 0) && (leb (first_frame r) j && leb j (last_frame r)))

-- A bitmap with room for the frames below `total`.
record Fits (total : ℕ) (bm : List ℕ) : Type 0 where
  words : AreWords bm
  room : total ≤ 64 * length bm

mark_free-Fits : (n total f : ℕ) (bm : List ℕ) → Fits total bm → Fits total (mark_free n total f bm)
unfolding mark_free
mark_free-Fits zero total f bm v = v
mark_free-Fits (suc n) total f bm v = mark_free-Fits n total (suc f) _ (step (ltb f total))
  where
    step : (b : Bool) → Fits total (if b then set_free f bm else bm)
    step true = record {
      words = set_free-AreWords f bm v.words;
      room = omega (arith, v.room, length-set_free f bm);
    }
    step false = v

is_used-mark_free :
    (n total f j : ℕ) (bm : List ℕ)
    → Fits total bm
    → j < total
    → is_used j (mark_free n total f bm) ≡ (is_used j bm && not (in_run f n j))
unfolding mark_free
is_used-mark_free zero total f j bm v h = ground arith
is_used-mark_free (suc n) total f j bm v h = elim (Bool-cases (ltb f total)) [
  | inl l ↦ rw l (
      is_used-mark_free n total (suc f) j (set_free f bm)
        (record {
          words = set_free-AreWords f bm v.words;
          room = omega (arith, v.room, length-set_free f bm);
        })
        h
      ∙ ap (λ b. b && not (in_run (suc f) n j)) (is_used-set_free f j bm (ground (arith, v.room)))
      ∙ ground arith)
  | inr k ↦ rw k (is_used-mark_free n total (suc f) j bm v h ∙ ground arith)
]

free_regions-Fits :
    (total : ℕ) (rs : List Region) (bm : List ℕ)
    → Fits total bm
    → Fits total (free_regions total rs bm)
unfolding free_regions
free_regions-Fits total [] bm v = v
free_regions-Fits total (r ∷ rs) bm v =
    free_regions-Fits total rs _ (step (not r.usable || r.len == 0))
  where
    step :
        (b : Bool)
        → Fits total (
            if b then bm else mark_free (last_frame r + 1 - first_frame r) total (first_frame r) bm)
    step true = v
    step false = mark_free-Fits (last_frame r + 1 - first_frame r) total (first_frame r) bm v

is_used-free_regions :
    (total j : ℕ) (rs : List Region) (bm : List ℕ)
    → Fits total bm
    → j < total
    → is_used j (free_regions total rs bm) ≡ (is_used j bm && not (any (covers j) rs))
unfolding free_regions
is_used-free_regions total j [] bm v h = ground arith
is_used-free_regions total j (r ∷ rs) bm v h = elim (Bool-cases (not r.usable || r.len == 0)) [
  | inl skip ↦ rw skip (is_used-free_regions total j rs bm v h ∙ ground arith)
  | inr go ↦ rw go (
      is_used-free_regions total j rs _
        (mark_free-Fits (last_frame r + 1 - first_frame r) total (first_frame r) bm v) h
      ∙ ap (λ b. b && not (any (covers j) rs))
          (is_used-mark_free (last_frame r + 1 - first_frame r) total (first_frame r) j bm v h)
      ∙ ground arith)
]

tracked-le : (rs : List Region) → tracked rs ≤ 64 * bitmap_words
unfolding tracked
tracked-le rs = omega arith

-- From any bitmap of the program's size: the state is valid, and a tracked frame is free exactly if
-- some region of the map frees it.
pub init_from_regions_lem :
    (regions : List Region) (a : FrameAllocator)
    → AreWords a.bitmap
    → length a.bitmap ≡ bitmap_words
    → IsValid (init_from_regions regions a)
      × ((j : ℕ)
          → j < tracked regions
          → is_used j (init_from_regions regions a).bitmap ≡ not (any (covers j) regions))
      × ((init_from_regions regions a).total_frames ≡ tracked regions)
unfolding init_from_regions
init_from_regions_lem regions a w l = (
  record {
    words = ends.words;
    room = ends.room;
    count = count_free-free_below (tracked regions) _ ends.room;
  },
  (λ j h.
      is_used-free_regions (tracked regions) j regions _ starts h
      ∙ ap (λ b. b && not (any (covers j) regions))
          (is_used-mark_used (tracked regions) 0 j a.bitmap (omega (arith, l, tracked-le regions)))
      ∙ ground arith),
  refl,
)
  where
    starts : Fits (tracked regions) (mark_used (tracked regions) 0 a.bitmap)
    starts = record {
      words = mark_used-AreWords (tracked regions) 0 a.bitmap w;
      room = omega (arith, l, tracked-le regions, length-mark_used (tracked regions) 0 a.bitmap);
    }

    ends :
        Fits
          (tracked regions)
          (free_regions (tracked regions) regions (mark_used (tracked regions) 0 a.bitmap))
    ends = free_regions-Fits (tracked regions) regions _ starts

-- What the loop of `reserve_range` changes: the frames of the range are used, and it counts those
-- that were free.
module _ (total : ℕ) where
  abbrev Reserved : ℕ → ℕ → ℕ → List ℕ → ℕ × List ℕ → Type 0
  Reserved n f taken bm r =
      Fits total r.1
      × (free_below total r.1 + r.0 ≡ free_below total bm + taken)
      × ((j : ℕ) → is_used j r.1 ≡ (is_used j bm || in_run f n j))

  reserve_lem :
      (n f taken : ℕ) (bm : List ℕ)
      → Fits total bm
      → f + n ≤ total
      → Reserved n f taken bm (reserve n f taken bm)
  unfolding reserve
  reserve_lem zero f taken bm v h = (v, refl, λ j. ground arith)
  reserve_lem (suc n) f taken bm v h = elim (Bool-cases (is_used f bm)) [
    | inl u ↦
        let (v', c, us) = reserve_lem n (suc f) taken bm v (omega arith) in
        rw (u, reserve) (v', c, λ j. us j ∙ already j u)
    | inr k ↦
        let fits : Fits total (set_used f bm) = record {
          words = set_used-AreWords f bm v.words;
          room = omega (arith, v.room, length-set_used f bm);
        } in
        let (v', c, us) = reserve_lem n (suc f) (taken + 1) (set_used f bm) fits (omega arith) in
        rw (k, reserve)
          (
            v',
            omega
                (arith, c, free_below-set_used total f bm (omega arith) (omega (arith, v.room)) k),
            λ j.
                us j
                ∙ ap (λ b. b || in_run (suc f) n j)
                    (is_used-set_used f j bm (omega (arith, v.room)))
                ∙ ground arith,
          )
  ]
    where
      already :
          (j : ℕ)
          → is_used f bm ≡ true
          → (is_used j bm || in_run (suc f) n j) ≡ (is_used j bm || in_run f (suc n) j)
      already j u = elim (Bool-cases (f == j)) [
        | inl e ↦
            let q : f ≡ j = ground arith in
            let uj : is_used j bm ≡ true = sym (ap (λ t. is_used t bm) q) ∙ u in ground arith
        | inr ne ↦ ground arith
      ]

-- Taking a range out of service: every tracked frame that overlaps it is used, no other frame
-- changes, the answer is how many of them were free, and the state stays valid.
pub reserve_range_lem :
    (start end : ℕ) (a : FrameAllocator)
    → IsValid a
    → start / frame_size ≤ min ((end + 4095) / frame_size) a.total_frames
    → IsValid (reserve_range start end a).1
      × ((j : ℕ)
          → is_used j (reserve_range start end a).1.bitmap ≡ (
              is_used j a.bitmap
              || leb (start / frame_size) j
                && ltb j (min ((end + 4095) / frame_size) a.total_frames)))
      × ((reserve_range start end a).1.free_frames + (reserve_range start end a).0 ≡ a.free_frames)
      × ((reserve_range start end a).1.total_frames ≡ a.total_frames)
unfolding reserve_range
reserve_range_lem start end a v h =
    let first : ℕ = start / frame_size in
    let last : ℕ = min ((end + 4095) / frame_size) a.total_frames in
    let (fits, c, us) =
      reserve_lem a.total_frames (last - first) first 0 a.bitmap
        (record { words = v.words; room = v.room }) (omega arith) in
    (
      record { words = fits.words; room = fits.room; count = omega (arith, v.count, c) },
      (λ j. us j ∙ ground arith),
      omega (arith, v.count, c),
      refl,
    )

-- The bits after the boot, by the frames that the regions free.
pub boot_marks :
    (regions : List Region) (a : FrameAllocator)
    → AreWords a.bitmap
    → length a.bitmap ≡ bitmap_words
    → IsValid (boot_init regions a)
      × ((j : ℕ)
          → j < (boot_init regions a).total_frames
          → is_used j (boot_init regions a).bitmap
            ≡ (ltb j 256 || not (any (covers j) (take 64 regions))))
unfolding boot_init
boot_marks regions a w l =
    let (v, us, t) = init_from_regions_lem (take 64 regions) a w l in
    let (v', us', c, t') =
      reserve_range_lem 0 low_memory_reserved (init_from_regions (take 64 regions) a) v
        (omega arith) in
    (v', λ j h. us' j ∙ ground (arith, us j (omega (arith, t, t'))))
