-- ===== src/Memory/Frames/Valid.antt =====
-- The allocator's invariant, and what `alloc` and `free` do in a state that has it.
use mathlib.Core.Logic.{inl, inr, ◌⊎◌}
use cdk.Prelude.{
  ℕ, ◌+◌, ◌*◌, ◌/◌, ◌≤◌, ◌<◌, ◌≡◌, refl, ap, ◌∙◌, Bool, true, false, not, ◌&&◌, ◌||◌, Option, none,
  some, length, leb, leb→le, ltb, ◌==◌, ok, err, arith, Bool-cases, subst,
}
use cdk.Memory.Frames.{
  FrameAllocator, out_of_memory, already_free, out_of_range, alloc, free, find_free, is_used,
  frame_size,
}
use cdk.Memory.Frames.Bitmap.{
  AreWords, is_used-set_used, is_used-set_free, set_used-AreWords, set_free-AreWords,
  length-set_used, length-set_free,
}
use cdk.Memory.Frames.Count.{free_below, free_below-set_used, free_below-set_free, free_below-pos}
use cdk.Memory.Frames.Alloc.{find_free-Answers, Answers}

-- The bitmap holds words and has a bit for every frame, and the counter is the number of free frames.
pub record IsValid (a : FrameAllocator) : Type 0 where
  pub words : AreWords a.bitmap
  pub room : a.total_frames ≤ 64 * length a.bitmap
  pub count : a.free_frames ≡ free_below a.total_frames a.bitmap

-- The frames from `s` on, `n` of them.
abbrev pub in_run : ℕ → ℕ → ℕ → Bool
in_run s n j = leb s j && ltb j (s + n)

-- What is taken is the run; what the rest of the state becomes.
pub record Takes (a a' : FrameAllocator) (s n : ℕ) : Type 0 where
  pub total : a'.total_frames ≡ a.total_frames
  pub reserved : a'.reserved_frames ≡ a.reserved_frames
  pub counted : a'.free_frames + n ≡ a.free_frames
  pub used : (j : ℕ) → is_used j a'.bitmap ≡ (is_used j a.bitmap || in_run s n j)
  pub valid : IsValid a'

one_frame : (f j : ℕ) → (f == j) ≡ in_run f 1 j
one_frame f j = ground arith

-- The two answers of `alloc`: the lowest free frame, or that there is none.
abbrev pub Allocates : FrameAllocator → Type 0
Allocates a =
    ((f : ℕ) × ((alloc a).0 ≡ ok (f * frame_size))
      × (f < a.total_frames)
      × (is_used f a.bitmap ≡ false)
      × ((j : ℕ) → j < f → is_used j a.bitmap ≡ true)
      × Takes a (alloc a).1 f 1)
    ⊎ ((alloc a ≡ (err out_of_memory, a))
        × ((j : ℕ) → j < a.total_frames → is_used j a.bitmap ≡ true))

-- In a valid state `alloc` takes the lowest free frame and nothing else, and the state stays valid;
-- or it reports that memory is out, every tracked frame is in use, and nothing changes.
pub alloc_lem : (a : FrameAllocator) → IsValid a → Allocates a
unfolding alloc
alloc_lem a v =
    by_answer (find_free a.total_frames a.bitmap 0) refl
      (find_free-Answers a.total_frames 0 a.bitmap v.words)
  where
    by_answer :
        (o : Option ℕ)
        → find_free a.total_frames a.bitmap 0 ≡ o
        → Answers a.total_frames 0 a.bitmap o
        → Allocates a
    by_answer none e h = inr (rw e refl, λ j l. h j (omega (arith, v.room)) (omega arith))
    by_answer (some f) e (r, l) =
        let q : r ≡ f = omega (arith, l.place) in
        let clear : is_used f a.bitmap ≡ false = subst (λ k. is_used k a.bitmap ≡ false) q l.free in
        let here : f / 64 < length a.bitmap = omega (arith, v.room, l.tracked) in
        inl (
          f,
          rw e refl,
          l.tracked,
          clear,
          (λ j k. l.lowest j (omega arith)),
          rw e (record {
            total = refl;
            reserved = refl;
            counted =
                omega (arith, v.count, free_below-pos a.total_frames f a.bitmap l.tracked clear);
            used = λ j.
                is_used-set_used f j a.bitmap here
                ∙ ap (λ b. is_used j a.bitmap || b) (one_frame f j);
            valid = record {
              words = set_used-AreWords f a.bitmap v.words;
              room = omega (arith, v.room, length-set_used f a.bitmap);
              count = omega (
                arith,
                v.count,
                free_below-set_used a.total_frames f a.bitmap l.tracked here clear,
              );
            };
          }),
        )

-- `free` gives back exactly a tracked frame that is in use: its bit is cleared and no other, and the
-- state stays valid. A frame that is free already, or lies past the end, is refused and nothing
-- changes.
pub free_lem :
    (addr : ℕ) (a : FrameAllocator)
    → IsValid a
    → (((free addr a).0 ≡ ok tt)
        × (addr / frame_size < a.total_frames)
        × (is_used (addr / frame_size) a.bitmap ≡ true)
        × ((j : ℕ)
            → is_used j (free addr a).1.bitmap
              ≡ (is_used j a.bitmap && not (addr / frame_size == j)))
        × ((free addr a).1.free_frames ≡ a.free_frames + 1)
        × ((free addr a).1.total_frames ≡ a.total_frames)
        × IsValid (free addr a).1)
      ⊎ (((free addr a ≡ (err already_free, a))
            × (addr / frame_size < a.total_frames)
            × (is_used (addr / frame_size) a.bitmap ≡ false))
          ⊎ ((free addr a ≡ (err out_of_range, a)) × (a.total_frames ≤ addr / frame_size)))
unfolding free
free_lem addr a v = elim (Bool-cases (leb a.total_frames (addr / frame_size))) [
  | inl past ↦ inr (inr (rw past refl, leb→le _ _ past))
  | inr within ↦ elim (Bool-cases (is_used (addr / frame_size) a.bitmap)) [
    | inr clear ↦ inr (inl (rw (within, clear) refl, ground arith, clear))
    | inl used ↦
        let lt : addr / frame_size < a.total_frames = ground arith in
        let here : addr / frame_size / 64 < length a.bitmap = omega (arith, v.room) in
        inl (
          rw (within, used) refl,
          lt,
          used,
          rw (within, used) (λ j. is_used-set_free (addr / frame_size) j a.bitmap here),
          rw (within, used) refl,
          rw (within, used) refl,
          rw (within, used)
              (record {
                words = set_free-AreWords (addr / frame_size) a.bitmap v.words;
                room = omega (arith, v.room, length-set_free (addr / frame_size) a.bitmap);
                count = omega (
                  arith,
                  v.count,
                  free_below-set_free a.total_frames (addr / frame_size) a.bitmap lt here used,
                );
              }),
        )
  ]
]
