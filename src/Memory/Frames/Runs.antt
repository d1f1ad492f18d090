-- ===== src/Memory/Frames/Runs.antt =====
-- `alloc_contiguous` takes the lowest run of free frames, and its loop ends.
use mathlib.Core.Logic.{inl, inr, ◌⊎◌}
use cdk.Prelude.{
  ℕ, zero, suc, ◌+◌, ◌-◌, ◌*◌, ◌≤◌, ◌<◌, ◌≡◌, refl, sym, ap, ◌∙◌, true, false, ◌||◌, Option, none,
  some, List, length, leb, leb→le, ltb, ◌==◌, Result, ok, err, arith, Bool-cases,
}
use cdk.Memory.Frames.{
  FrameAllocator, AllocError, out_of_memory, alloc_contiguous, find_run, first_used, mark_used,
  set_used, is_used, frame_size,
}
use cdk.Memory.Frames.Bitmap.{AreWords, is_used-set_used, set_used-AreWords, length-set_used}
use cdk.Memory.Frames.Count.{free_below, free_below-set_used, free_below-le}
use cdk.Memory.Frames.Valid.{IsValid, Takes, in_run}

module _ (bm : List ℕ) where
  -- The `n` frames from `s` on are free.
  abbrev pub IsRun : ℕ → ℕ → Type 0
  IsRun n s = (j : ℕ) → s ≤ j → j < s + n → is_used j bm ≡ false

  -- One of them is in use.
  abbrev pub IsBlocked : ℕ → ℕ → Type 0
  IsBlocked n s = (j : ℕ) × (s ≤ j) × (j < s + n) × (is_used j bm ≡ true)

  abbrev FirstUsed : ℕ → ℕ → Option ℕ → Type 0
  FirstUsed n s none = IsRun n s
  FirstUsed n s (some f) = (s ≤ f) × (f < s + n) × (is_used f bm ≡ true)

  first_used_lem : (n s : ℕ) → FirstUsed n s (first_used n s bm)
  unfolding first_used
  first_used_lem zero s = λ j l k. absurd (omega arith)
  first_used_lem (suc n) s = elim (Bool-cases (is_used s bm)) [
    | inl u ↦ rw u (omega arith, omega arith, u)
    | inr c ↦ rw c (later (first_used n (suc s) bm) (first_used_lem n (suc s)) c)
  ]
    where
      later : (o : Option ℕ) → FirstUsed n (suc s) o → is_used s bm ≡ false → FirstUsed (suc n) s o
      later none h c = λ j l k. elim (Bool-cases (j == s)) [
        | inl e ↦ let q : s ≡ j = ground arith in sym (ap (λ t. is_used t bm) q) ∙ c
        | inr ne ↦ h j (ground arith) (omega arith)
      ]
      later (some f) (l, k, u) c = (omega arith, omega arith, u)

  -- The loop's answer, with enough fuel: the lowest start whose frames are all free, or none.
  abbrev pub Found : ℕ → ℕ → ℕ → Option ℕ → Type 0
  Found count limit start none = (s : ℕ) → start ≤ s → s ≤ limit → IsBlocked count s
  Found count limit start (some s) =
      (start ≤ s) × (s ≤ limit) × IsRun count s × ((t : ℕ) → start ≤ t → t < s → IsBlocked count t)

  -- A used frame blocks every start from which the run would reach it.
  module _ (count limit start f : ℕ) (l : start ≤ f) (k : f < start + count)
      (u : is_used f bm ≡ true) where
    blocked : (t : ℕ) → start ≤ t → (suc f ≤ t → IsBlocked count t) → IsBlocked count t
    blocked t h later = elim (Bool-cases (leb t f)) [
      | inl e ↦ (f, leb→le _ _ e, omega arith, u)
      | inr e ↦ later (ground arith)
    ]

    widen : (o : Option ℕ) → Found count limit (suc f) o → Found count limit start o
    widen none h = λ t a b. blocked t a (λ c. h t c b)
    widen (some s) (a, b, run, before) =
        (omega arith, b, run, λ t c d. blocked t c (λ g. before t g d))

  pub find_run_total :
      (fuel count limit start : ℕ)
      → limit + 1 < fuel + start
      → 0 < fuel
      → (o : Option ℕ) × (find_run fuel count limit start bm ≡ some o) × Found count limit start o
  unfolding find_run
  find_run_total zero count limit start h p = absurd (omega arith)
  find_run_total (suc fuel) count limit start h p = elim (Bool-cases (leb start limit)) [
    | inr past ↦ (none, rw (past, find_run) refl, λ s l k. absurd (ground arith))
    | inl go ↦
        by_first (first_used count start bm) refl (first_used_lem count start) go (leb→le _ _ go)
          (find_run_total fuel count limit)
  ]
    where
      by_first :
          (o : Option ℕ)
          → first_used count start bm ≡ o
          → FirstUsed count start o
          → leb start limit ≡ true
          → start ≤ limit
          → ((next : ℕ)
              → limit + 1 < fuel + next
              → 0 < fuel
              → (r : Option ℕ) × (find_run fuel count limit next bm ≡ some r)
                × Found count limit next r)
          → (r : Option ℕ) × (find_run (suc fuel) count limit start bm ≡ some r)
            × Found count limit start r
      by_first none e run go le rest = (
        some start,
        rw (go, find_run) (rw e refl),
        (omega arith, le, run, λ t a b. absurd (omega arith)),
      )
      by_first (some f) e (l, k, u) go le rest =
          let (r, q, found) = rest (suc f) (omega arith) (omega arith) in
          (r, rw (go, find_run) (rw e q), widen count limit start f l k u r found)

-- Marking a run.
pub is_used-mark_used :
    (n s j : ℕ) (bm : List ℕ)
    → s + n ≤ 64 * length bm
    → is_used j (mark_used n s bm) ≡ (is_used j bm || in_run s n j)
unfolding mark_used
is_used-mark_used zero s j bm h = ground arith
is_used-mark_used (suc n) s j bm h =
    is_used-mark_used n (suc s) j (set_used s bm) (omega (arith, length-set_used s bm))
    ∙ ap (λ b. b || in_run (suc s) n j) (is_used-set_used s j bm (omega arith))
    ∙ ground arith

pub mark_used-AreWords : (n s : ℕ) (bm : List ℕ) → AreWords bm → AreWords (mark_used n s bm)
unfolding mark_used
mark_used-AreWords zero s bm h = h
mark_used-AreWords (suc n) s bm h =
    mark_used-AreWords n (suc s) (set_used s bm) (set_used-AreWords s bm h)

pub length-mark_used : (n s : ℕ) (bm : List ℕ) → length (mark_used n s bm) ≡ length bm
unfolding mark_used
length-mark_used zero s bm = refl
length-mark_used (suc n) s bm = length-mark_used n (suc s) (set_used s bm) ∙ length-set_used s bm

-- The frames of a run count one by one.
free_below-mark_used :
    (total n s : ℕ) (bm : List ℕ)
    → s + n ≤ total
    → total ≤ 64 * length bm
    → IsRun bm n s
    → free_below total (mark_used n s bm) + n ≡ free_below total bm
unfolding mark_used
free_below-mark_used total zero s bm h k run = omega arith
free_below-mark_used total (suc n) s bm h k run = omega (
  arith,
  free_below-mark_used total n (suc s) (set_used s bm) (omega arith)
      (omega (arith, length-set_used s bm))
      (λ j a b. ground (arith, is_used-set_used s j bm (omega arith), run j (omega arith))),
  free_below-set_used total s bm (omega arith) (omega arith) (run s (omega arith) (omega arith)),
)

-- A run can be no longer than the number of free frames.
IsRun-le :
    (total n s : ℕ) (bm : List ℕ)
    → s + n ≤ total
    → total ≤ 64 * length bm
    → IsRun bm n s
    → n ≤ free_below total bm
IsRun-le total n s bm h k run = omega (arith, free_below-mark_used total n s bm h k run)

-- Where fewer frames are free than are asked for, every run is blocked.
few_free :
    (a : FrameAllocator) (n : ℕ)
    → IsValid a
    → a.free_frames < n
    → (t : ℕ) → t + n ≤ a.total_frames
    → IsBlocked a.bitmap n t
few_free a n v h t l = by_first (first_used n t a.bitmap) (first_used_lem a.bitmap n t)
  where
    by_first : (o : Option ℕ) → FirstUsed a.bitmap n t o → IsBlocked a.bitmap n t
    by_first none run =
        absurd (omega (arith, v.count, IsRun-le a.total_frames n t a.bitmap l v.room run))
    by_first (some f) (p, q, u) = (f, p, q, u)

-- The two answers of `alloc_contiguous` for `n` frames.
abbrev pub AllocatesRun : ℕ → FrameAllocator → Result AllocError ℕ × FrameAllocator → Type 0
AllocatesRun n a r =
    ((s : ℕ) × (r.0 ≡ ok (s * frame_size))
      × (0 < n)
      × (s + n ≤ a.total_frames)
      × IsRun a.bitmap n s
      × ((t : ℕ) → t < s → IsBlocked a.bitmap n t)
      × Takes a r.1 s n)
    ⊎ ((r ≡ (err out_of_memory, a))
        × ((n ≡ 0) ⊎ ((t : ℕ) → t + n ≤ a.total_frames → IsBlocked a.bitmap n t)))

module _ (n : ℕ) (a : FrameAllocator) (v : IsValid a) where
  takes :
      (s : ℕ)
      → s + n ≤ a.total_frames
      → IsRun a.bitmap n s
      → Takes a (record a { bitmap = mark_used n s a.bitmap; free_frames = a.free_frames - n }) s n
  takes s h run =
      let counted : free_below a.total_frames (mark_used n s a.bitmap) + n ≡ a.free_frames =
        free_below-mark_used a.total_frames n s a.bitmap h v.room run ∙ sym v.count in
      record {
        total = refl;
        reserved = refl;
        counted = omega (arith, counted);
        used = λ j. is_used-mark_used n s j a.bitmap (omega (arith, v.room));
        valid = record {
          words = mark_used-AreWords n s a.bitmap v.words;
          room = omega (arith, v.room, length-mark_used n s a.bitmap);
          count = omega (arith, counted);
        };
      }

  -- In a valid state the loop ends. Either the lowest run of `n` free frames is taken, with nothing
  -- else, and the state stays valid; or memory is reported out and nothing changes, because `n` is 0
  -- or every place for the run has a frame in use.
  pub alloc_contiguous_lem :
      (r : Result AllocError ℕ × FrameAllocator) × (alloc_contiguous n a ≡ some r)
      × AllocatesRun n a r
  unfolding alloc_contiguous
  alloc_contiguous_lem = elim (Bool-cases (n == 0)) [
    | inl zero_frames ↦
        ((err out_of_memory, a), rw zero_frames refl, inr (refl, inl (ground arith)))
    | inr more ↦ elim (Bool-cases (ltb a.free_frames n)) [
      | inl few ↦ (
        (err out_of_memory, a),
        rw (more, few) refl,
        inr (refl, inr (few_free a n v (ground arith))),
      )
      | inr enough ↦
          let le : n ≤ a.total_frames =
            ground (arith, v.count, free_below-le a.total_frames a.bitmap) in
          let (o, e, found) =
            find_run_total a.bitmap (suc (suc (a.total_frames - n))) n (a.total_frames - n) 0
              (omega arith) (omega arith) in
          by_found o more enough e found le
    ]
  ]
    where
      by_found :
          (o : Option ℕ)
          → (n == 0) ≡ false
          → ltb a.free_frames n ≡ false
          → find_run (suc (suc (a.total_frames - n))) n (a.total_frames - n) 0 a.bitmap ≡ some o
          → Found a.bitmap n (a.total_frames - n) 0 o
          → n ≤ a.total_frames
          → (r : Result AllocError ℕ × FrameAllocator) × (alloc_contiguous n a ≡ some r)
            × AllocatesRun n a r
      by_found none more enough e blocked le = (
        (err out_of_memory, a),
        rw (more, enough, e) refl,
        inr (refl, inr (λ t h. blocked t (omega arith) (omega arith))),
      )
      by_found (some s) more enough e (l, k, run, before) le = (
        (
          ok (s * frame_size),
          record a { bitmap = mark_used n s a.bitmap; free_frames = a.free_frames - n },
        ),
        rw (more, enough, e) refl,
        inl (
          s,
          refl,
          ground arith,
          omega arith,
          run,
          (λ t h. before t (omega arith) h),
          takes s (omega arith) run,
        ),
      )
