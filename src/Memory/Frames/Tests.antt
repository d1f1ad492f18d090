-- ===== src/Memory/Frames/Tests.antt =====
-- Tests of the frame allocator and the theorems at concrete states.
use mathlib.Core.Logic.{inl}
use cdk.Prelude.{
  In, false, ◌+◌, ◌≤◌, ◌*◌, ◌↔◌, ℕ, zero, suc, ap, ◌-◌, ◌*◌, ◌<◌, ◌≡◌, refl, true, some, List, [],
  ◌∷◌, length, Result, ok, arith, take, replicate,
}
use cdk.Memory.Frames.{
  FrameAllocator, AllocError, alloc, alloc_contiguous, free, is_used, Region, boot_init, u64_max,
  frame_size, bitmap_words, find_free, find_run, first_used, mark_used, set_used, set_free, word,
  new,
}
use cdk.Prelude.Bits.{test_bit, bit_not}
use cdk.Memory.Frames.Bitmap.{AreWords}
use cdk.Memory.Frames.Count.{free_below}
use cdk.Memory.Frames.Valid.{IsValid, Allocates, alloc_lem}
use cdk.Memory.Frames.Runs.{AllocatesRun, alloc_contiguous_lem}
use cdk.Memory.Frames.Boot.{HasByte, Bounded, boot_init_lem}
use cdk.Memory.Frames.Owned.{begin, next, Holds, reachable-Holds, take_one, give_back}

-- Eight frames in one word: frames 2, 3 and 5 are free.
abbrev small : FrameAllocator
small = record {
  bitmap = (u64_max - 44) ∷ [];
  total_frames = 8;
  free_frames = 3;
  reserved_frames = 0;
}

small-IsValid : IsValid small
unfolding free_below is_used word test_bit
small-IsValid = record { words = omega arith; room = omega arith; count = refl }

alloc_lem_example : Allocates small
alloc_lem_example = alloc_lem small small-IsValid

alloc_contiguous_lem_example :
    (r : Result AllocError ℕ × FrameAllocator) × (alloc_contiguous 2 small ≡ some r)
    × AllocatesRun 2 small r
alloc_contiguous_lem_example = alloc_contiguous_lem 2 small small-IsValid

-- The whole bitmap, and two regions.
abbrev map_regions : List Region
map_regions =
    record { base = 0; len = 0x9F000; usable = true }
    ∷ record { base = 0x100000; len = 0x3000; usable = true }
    ∷ []

words_replicate : (n : ℕ) → AreWords (replicate n u64_max)
words_replicate zero = tt
words_replicate (suc n) = (omega arith, words_replicate n)

length-replicate : (n v : ℕ) → length (replicate n v) ≡ n
length-replicate zero v = refl
length-replicate (suc n) v = ap suc (length-replicate n v)

map_regions-Bounded : Bounded (take 64 map_regions)
map_regions-Bounded = (omega arith, (omega arith, tt))

boot_init_lem_example :
    IsValid (boot_init map_regions new)
    × ((j : ℕ)
        → j < (boot_init map_regions new).total_frames
        → (is_used j (boot_init map_regions new).bitmap ≡ false)
          ↔ ((256 ≤ j) × ((r : Region) × In r (take 64 map_regions) × HasByte j r)))
    × ((j : ℕ) (r : Region)
        → In r (take 64 map_regions)
        → HasByte j r
        → j < 131072
        → j < (boot_init map_regions new).total_frames)
    × ((j : ℕ)
        → j < (boot_init map_regions new).total_frames
        → (r : Region) × In r (take 64 map_regions) × (4096 * j < r.base + r.len))
unfolding new
boot_init_lem_example =
    boot_init_lem map_regions new (words_replicate bitmap_words)
      (length-replicate bitmap_words u64_max) map_regions-Bounded

-- The lowest frame is taken and given back.
abbrev taken : FrameAllocator
taken = record small { bitmap = (u64_max - 40) ∷ []; free_frames = 2 }

took : alloc small ≡ (ok (2 * frame_size), taken)
unfolding alloc find_free set_used word
took = refl

gave : free (2 * frame_size) taken ≡ (ok tt, small)
unfolding free is_used set_free word test_bit bit_not
gave = refl

reachable-Holds_example : Holds small []
reachable-Holds_example =
    reachable-Holds small-IsValid
      (next (next begin (take_one 2 took)) (give_back 2 (inl refl) gave))

finds_a_run :
    alloc_contiguous 2 small
    ≡ some (ok (2 * frame_size), record small { bitmap = (u64_max - 32) ∷ []; free_frames = 1 })
unfolding alloc_contiguous find_run first_used is_used mark_used set_used word test_bit
finds_a_run = refl
