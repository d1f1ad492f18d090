-- ===== src/Memory/Frames.antt =====
-- src/allocator.rs: the allocator of physical page frames, a bitmap of 64-bit words. The translation
-- of src/phys_mem.rs is at the end. Sums of addresses wrap around at 2 ^ 64 where the code's do.
pub mod Words
pub mod Bitmap
pub mod Alloc
pub mod Valid
pub mod Runs
pub mod Count
pub mod Init
pub mod Boot
pub mod Owned
mod Tests
use cdk.Prelude.{
  ℕ, zero, suc, ◌+◌, ◌-◌, ◌*◌, ◌/◌, ◌%◌, ◌^◌, Bool, true, false, not, ◌&&◌, ◌||◌, Option, none,
  some, List, [], ◌∷◌, length, set, take, replicate, min, bit_and, bit_or, leb, ltb, ◌==◌,
  if◌then◌else◌, Result, ok, err,
}
use cdk.Prelude.Bits.{bit_not, test_bit}

abbrev pub frame_size : ℕ
frame_size = 4096

abbrev pub max_frames : ℕ
max_frames = 128 * 1024

abbrev pub bitmap_words : ℕ
bitmap_words = max_frames / 64

abbrev pub low_memory_reserved : ℕ
low_memory_reserved = 0x100000

-- u64::MAX
abbrev pub u64_max : ℕ
u64_max = 2 ^ 64 - 1

pub data AllocError : Type 0 where
  out_of_memory already_free out_of_range : AllocError

pub record FrameAllocator : Type 0 where
  pub bitmap : List ℕ
  pub total_frames : ℕ
  pub free_frames : ℕ
  pub reserved_frames : ℕ

unfoldable pub new : FrameAllocator
new = record {
  bitmap = replicate bitmap_words u64_max;
  total_frames = 0;
  free_frames = 0;
  reserved_frames = 0;
}

-- bitmap[i]; the code does not read past the end.
unfoldable pub word : List ℕ → ℕ → ℕ
word [] i = u64_max
word (w ∷ ws) zero = w
word (w ∷ ws) (suc i) = word ws i

unfoldable pub set_used : ℕ → List ℕ → List ℕ
set_used frame bm = set bm (frame / 64) (bit_or (word bm (frame / 64)) (2 ^ (frame % 64)))

unfoldable pub set_free : ℕ → List ℕ → List ℕ
set_free frame bm =
    set bm (frame / 64) (bit_and (word bm (frame / 64)) (bit_not 64 (2 ^ (frame % 64))))

unfoldable pub is_used : ℕ → List ℕ → Bool
is_used frame bm = test_bit (word bm (frame / 64)) (frame % 64)

-- w.count_zeros() of a word of `n` bits.
unfoldable pub count_zeros : ℕ → ℕ → ℕ
count_zeros zero w = 0
count_zeros (suc n) w = (1 - w % 2) + count_zeros n (w / 2)

unfoldable pub count_words : List ℕ → ℕ
unfolding count_zeros
count_words [] = 0
count_words (w ∷ ws) = count_zeros 64 w + count_words ws

unfoldable pub count_free : ℕ → List ℕ → ℕ
unfolding count_words count_zeros word
count_free total bm =
    let full_words = total / 64 in
    let remainder = total % 64 in
    let n = count_words (take full_words bm) in
    if total == 0
    then 0
    else (if ltb 0 remainder
        then n
          + (count_zeros 64 (bit_and (word bm full_words) (2 ^ remainder - 1)) - (64 - remainder))
        else n)

-- `for i in first..first + n`
unfoldable pub mark_used : ℕ → ℕ → List ℕ → List ℕ
unfolding set_used
mark_used zero first bm = bm
mark_used (suc n) first bm = mark_used n (suc first) (set_used first bm)

-- A region of the memory map: its base, its length, and whether it may be used.
pub record Region : Type 0 where
  pub base : ℕ
  pub len : ℕ
  pub usable : Bool

max_end : ℕ → List Region → ℕ
max_end max_addr [] = max_addr
max_end max_addr (r ∷ rs) =
    let end = min (r.base + r.len) u64_max in
    max_end (if ltb max_addr end then end else max_addr) rs

-- `for frame in first..=last`: the frames of a region that the bitmap tracks.
unfoldable pub mark_free : ℕ → ℕ → ℕ → List ℕ → List ℕ
unfolding set_free
mark_free zero total frame bm = bm
mark_free (suc n) total frame bm =
    mark_free n total (suc frame) (if ltb frame total then set_free frame bm else bm)

unfoldable pub first_frame : Region → ℕ
first_frame r = r.base / frame_size

unfoldable pub last_frame : Region → ℕ
last_frame r = ((r.base + r.len) % 2 ^ 64 - 1) / frame_size

unfoldable pub free_regions : ℕ → List Region → List ℕ → List ℕ
unfolding mark_free first_frame last_frame
free_regions total [] bm = bm
free_regions total (r ∷ rs) bm = free_regions total rs (
    if not r.usable || r.len == 0
    then bm
    else mark_free (last_frame r + 1 - first_frame r) total (first_frame r) bm)

unfoldable pub tracked : List Region → ℕ
unfolding max_end
tracked regions = min ((max_end 0 regions + frame_size - 1) % 2 ^ 64 / frame_size) max_frames

unfoldable pub init_from_regions : List Region → FrameAllocator → FrameAllocator
unfolding mark_used free_regions tracked count_free
init_from_regions regions a =
    let total = tracked regions in
    let bm = free_regions total regions (mark_used total 0 a.bitmap) in
    let free = count_free total bm in
    record { bitmap = bm; total_frames = total; free_frames = free; reserved_frames = total - free }

-- The loop of `reserve_range`, with the number of frames taken so far.
unfoldable pub reserve : ℕ → ℕ → ℕ → List ℕ → ℕ × List ℕ
unfolding set_used is_used
reserve zero frame taken bm = (taken, bm)
reserve (suc n) frame taken bm =
    reserve n (suc frame) (if not (is_used frame bm) then taken + 1 else taken)
      (if not (is_used frame bm) then set_used frame bm else bm)

unfoldable pub reserve_range : ℕ → ℕ → FrameAllocator → ℕ × FrameAllocator
unfolding reserve
reserve_range start end a =
    let first = start / frame_size in
    let last = min ((end + 4095) / frame_size) a.total_frames in
    let (taken, bm) = reserve (last - first) first 0 a.bitmap in
    (
      taken,
      record a {
        bitmap = bm;
        free_frames = a.free_frames - taken;
        reserved_frames = a.reserved_frames + taken;
      },
    )

-- `boot::init`, on the regions of the boot loader's map.
unfoldable pub boot_init : List Region → FrameAllocator → FrameAllocator
unfolding init_from_regions reserve_range
boot_init regions a =
    (reserve_range 0 low_memory_reserved (init_from_regions (take 64 regions) a)).1

-- w.trailing_ones() of a word of `n` bits.
unfoldable pub trailing_ones : ℕ → ℕ → ℕ
trailing_ones zero w = 0
trailing_ones (suc n) w = let rest = trailing_ones n (w / 2) in if w % 2 == 1 then suc rest else 0

-- The frame that the loop over the words finds.
unfoldable pub find_free : ℕ → List ℕ → ℕ → Option ℕ
unfolding trailing_ones
find_free total [] word_idx = none
find_free total (w ∷ ws) word_idx =
    let rest = find_free total ws (suc word_idx) in
    let frame = word_idx * 64 + trailing_ones 64 w in
    if w == u64_max then rest else (if leb total frame then none else some frame)

-- A frame is named by its number; its address is frame_size times that.
alloc_at : FrameAllocator → Option ℕ → Result AllocError ℕ × FrameAllocator
unfolding set_used
alloc_at a none = (err out_of_memory, a)
alloc_at a (some frame) = (
  ok (frame * frame_size),
  record a { bitmap = set_used frame a.bitmap; free_frames = a.free_frames - 1 },
)

unfoldable pub alloc : FrameAllocator → Result AllocError ℕ × FrameAllocator
unfolding find_free alloc_at
alloc a = alloc_at a (find_free a.total_frames a.bitmap 0)

-- The first used frame of the `n` from `frame` on.
unfoldable pub first_used : ℕ → ℕ → List ℕ → Option ℕ
unfolding is_used
first_used zero frame bm = none
first_used (suc n) frame bm =
    let rest = first_used n (suc frame) bm in if is_used frame bm then some frame else rest

-- `while start <= limit`: each round that goes on starts behind a used frame.
unfoldable pub find_run : ℕ → ℕ → ℕ → ℕ → List ℕ → Option (Option ℕ)
unfolding first_used
find_run zero count limit start bm = none
find_run (suc fuel) count limit start bm = elim (leb start limit) [
  | false ↦ some none
  | true ↦ elim (first_used count start bm) [
    | none ↦ some (some start)
    | some frame ↦ find_run fuel count limit (suc frame) bm
  ]
]

take_run : ℕ → FrameAllocator → Option (Option ℕ) → Option (Result AllocError ℕ × FrameAllocator)
unfolding mark_used
take_run count a none = none
take_run count a (some none) = some (err out_of_memory, a)
take_run count a (some (some start)) = some (
  ok (start * frame_size),
  record a { bitmap = mark_used count start a.bitmap; free_frames = a.free_frames - count },
)

-- `none` means that the fuel of the loop ran out.
unfoldable pub alloc_contiguous : ℕ → FrameAllocator → Option (Result AllocError ℕ × FrameAllocator)
unfolding find_run take_run
alloc_contiguous count a =
    if count == 0
    then some (err out_of_memory, a)
    else (if ltb a.free_frames count
        then some (err out_of_memory, a)
        else take_run count a (
            find_run (suc (suc (a.total_frames - count))) count (a.total_frames - count) 0
              a.bitmap))

unfoldable pub free : ℕ → FrameAllocator → Result AllocError (Unit {0}) × FrameAllocator
unfolding is_used set_free
free addr a =
    let idx = addr / frame_size in
    if leb a.total_frames idx
    then (err out_of_range, a)
    else (if not (is_used idx a.bitmap)
        then (err already_free, a)
        else (ok tt, record a { bitmap = set_free idx a.bitmap; free_frames = a.free_frames + 1 }))

unfoldable pub used_frames : FrameAllocator → ℕ
used_frames a = a.total_frames - a.free_frames

unfoldable pub usable_bytes : FrameAllocator → ℕ
usable_bytes a = (a.total_frames - a.reserved_frames) * frame_size

unfoldable pub free_bytes : FrameAllocator → ℕ
free_bytes a = a.free_frames * frame_size

-- `phys_to_virt_addr`, with the offset if one was set.
unfoldable pub phys_to_virt_addr : Option ℕ → ℕ → ℕ
phys_to_virt_addr none phys = phys
phys_to_virt_addr (some offset) phys = min (phys + offset) u64_max
