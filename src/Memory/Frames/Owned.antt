-- ===== src/Memory/Frames/Owned.antt =====
-- Callers of the allocator over time: frames are handed out and given back in any order.
use mathlib.Core.Logic.{inl, inr}
use cdk.Prelude.{
  ℕ, zero, suc, ◌+◌, ◌*◌, ◌≤◌, ◌<◌, ◌≡◌, sym, ap, ◌∙◌, Bool, true, false, not, some, List, [], ◌∷◌,
  ◌++◌, ◌==◌, Result, ok, err, arith, if◌then◌else◌, subst, filter, In, In-filter, In-append,
}
use cdk.Memory.Frames.{
  FrameAllocator, AllocError, alloc, alloc_contiguous, free, is_used, frame_size,
}
use cdk.Memory.Frames.Valid.{IsValid, Takes, alloc_lem, free_lem}
use cdk.Memory.Frames.Runs.{AllocatesRun, alloc_contiguous_lem, IsRun}

-- The frames from `s` on, `n` of them.
abbrev pub frames_of : ℕ → ℕ → List ℕ
frames_of s zero = []
frames_of s (suc n) = s ∷ frames_of (suc s) n

-- The allocator with the frames that were handed out and not given back.
pub data Step : FrameAllocator → List ℕ → FrameAllocator → List ℕ → Type 0 where
  take_one :
      {a a' : FrameAllocator} {owned : List ℕ} (f : ℕ)
      → alloc a ≡ (ok (f * frame_size), a')
      → Step a owned a' (f ∷ owned)
  take_run :
      {a a' : FrameAllocator} {owned : List ℕ} (n s : ℕ)
      → alloc_contiguous n a ≡ some (ok (s * frame_size), a')
      → Step a owned a' (frames_of s n ++ owned)
  give_back :
      {a a' : FrameAllocator} {owned : List ℕ} (f : ℕ)
      → In f owned
      → free (f * frame_size) a ≡ (ok tt, a')
      → Step a owned a' (filter (λ g. not (f == g)) owned)

pub data Reach (start : FrameAllocator) : FrameAllocator → List ℕ → Type 0 where
  begin : Reach start start []
  next :
      {a a' : FrameAllocator} {owned owned' : List ℕ}
      → Reach start a owned
      → Step a owned a' owned'
      → Reach start a' owned'

abbrev pub Distinct : List ℕ → Type 0
Distinct [] = Unit
Distinct (f ∷ fs) = (¬ In f fs) × Distinct fs

-- Every frame that is handed out is in use and is tracked, and none is handed out twice.
pub record Holds (a : FrameAllocator) (owned : List ℕ) : Type 0 where
  pub valid : IsValid a
  pub used : (f : ℕ) → In f owned → is_used f a.bitmap ≡ true
  pub tracked : (f : ℕ) → In f owned → f < a.total_frames
  pub distinct : Distinct owned

In-frames_of : (f n s : ℕ) → In f (frames_of s n) → (s ≤ f) × (f < s + n)
In-frames_of f zero s m = absurd m
In-frames_of f (suc n) s (inl e) = (omega arith, omega arith)
In-frames_of f (suc n) s (inr m) =
    let (l, k) = In-frames_of f n (suc s) m in (omega arith, omega arith)

Distinct-frames_of :
    (n s : ℕ) (owned : List ℕ)
    → Distinct owned
    → ((f : ℕ) → s ≤ f → f < s + n → ¬ In f owned)
    → Distinct (frames_of s n ++ owned)
Distinct-frames_of zero s owned d h = d
Distinct-frames_of (suc n) s owned d h = (
  λ m. elim (In-append s (frames_of (suc s) n) owned m) [
    | inl i ↦ absurd (omega (arith, In-frames_of s n (suc s) i))
    | inr i ↦ h s (omega arith) (omega arith) i
  ],
  Distinct-frames_of n (suc s) owned d (λ f l k. h f (omega arith) (omega arith)),
)

Distinct-filter : (p : ℕ → Bool) (fs : List ℕ) → Distinct fs → Distinct (filter p fs)
Distinct-filter p [] d = d
Distinct-filter p (f ∷ fs) d = keep (p f) (Distinct-filter p fs d.1)
  where
    keep :
        (b : Bool) → Distinct (filter p fs) → Distinct (if b then f ∷ filter p fs else filter p fs)
    keep true rest = (λ m. d.0 (In-filter p f fs m).0, rest)
    keep false rest = rest

-- What a run that is taken keeps true.
module _ {a a' : FrameAllocator} {owned : List ℕ} (h : Holds a owned) (n s : ℕ) where
  Takes-Holds :
      Takes a a' s n
      → s + n ≤ a.total_frames
      → IsRun a.bitmap n s
      → Holds a' (frames_of s n ++ owned)
  Takes-Holds t l run = record {
    valid = t.valid;
    used = λ f m. elim (In-append f (frames_of s n) owned m) [
      | inl i ↦ let (p, q) = In-frames_of f n s i in ground (arith, t.used f)
      | inr i ↦ ground (arith, t.used f, h.used f i)
    ];
    tracked = λ f m. elim (In-append f (frames_of s n) owned m) [
      | inl i ↦ omega (arith, In-frames_of f n s i, t.total)
      | inr i ↦ omega (arith, h.tracked f i, t.total)
    ];
    distinct =
        Distinct-frames_of n s owned h.distinct (λ f p q i. differ (sym (run f p q) ∙ h.used f i));
  }
    where
      differ : false ≡ true → ⊥
      differ e = cc

same_address : (f g : ℕ) → f * frame_size ≡ g * frame_size → f ≡ g
same_address f g e = omega arith

ok_injective : (n m : ℕ) → ◌≡◌ {A = Result AllocError ℕ} (ok n) (ok m) → n ≡ m
ok_injective n m e = ground arith

not_both : (n : ℕ) (x : AllocError) → ◌≡◌ {A = Result AllocError ℕ} (err x) (ok n) → ⊥
not_both n x e = cc

refused : (x : AllocError) → ◌≡◌ {A = Result AllocError (Unit {0})} (err x) (ok tt) → ⊥
refused x e = cc

module _ {a a' : FrameAllocator} {owned : List ℕ} (h : Holds a owned) where
  take_one-Holds : (f : ℕ) → alloc a ≡ (ok (f * frame_size), a') → Holds a' (f ∷ owned)
  take_one-Holds f e = elim (alloc_lem a h.valid) [
    | inr (e', full) ↦ absurd (not_both _ _ (ap (λ r. r.0) (sym e' ∙ e)))
    | inl (g, e0, lt, clear, low, t) ↦
        let q : g ≡ f = same_address g f (ok_injective _ _ (sym e0 ∙ ap (λ r. r.0) e)) in
        let t' : Takes a a' f 1 =
          subst (λ k. Takes a a' k 1) q (subst (λ b. Takes a b g 1) (ap (λ r. r.1) e) t) in
        Takes-Holds h 1 f t' (omega arith)
          (λ j l k. let w : g ≡ j = omega arith in sym (ap (λ b. is_used b a.bitmap) w) ∙ clear)
  ]

  take_run-Holds :
      (n s : ℕ)
      → alloc_contiguous n a ≡ some (ok (s * frame_size), a')
      → Holds a' (frames_of s n ++ owned)
  take_run-Holds n s e =
      let (r, p, o) = alloc_contiguous_lem n a h.valid in
      by_answer r (some_injective r (sym p ∙ e)) o
    where
      some_injective :
          (r : Result AllocError ℕ × FrameAllocator)
          → some r ≡ some (ok (s * frame_size), a')
          → r ≡ (ok (s * frame_size), a')
      some_injective r q = cc

      by_answer :
          (r : Result AllocError ℕ × FrameAllocator)
          → r ≡ (ok (s * frame_size), a')
          → AllocatesRun n a r
          → Holds a' (frames_of s n ++ owned)
      by_answer r q (inr (q', why)) = absurd (not_both _ _ (ap (λ r. r.0) (sym q' ∙ q)))
      by_answer r q (inl (g, e0, pos, l, run, low, t)) =
          let w : g ≡ s = same_address g s (ok_injective _ _ (sym e0 ∙ ap (λ r. r.0) q)) in
          Takes-Holds h n s
            (subst (λ k. Takes a a' k n) w (subst (λ b. Takes a b g n) (ap (λ r. r.1) q) t))
            (omega arith) (subst (λ k. IsRun a.bitmap n k) w run)

  give_back-Holds :
      (f : ℕ) → free (f * frame_size) a ≡ (ok tt, a') → Holds a' (filter (λ g. not (f == g)) owned)
  give_back-Holds f e = elim (free_lem (f * frame_size) a h.valid) [
    | inr (inl (e', x, y)) ↦ absurd (refused _ (ap (λ r. r.0) (sym e' ∙ e)))
    | inr (inr (e', x)) ↦ absurd (refused _ (ap (λ r. r.0) (sym e' ∙ e)))
    | inl (e0, lt, u, us, c, t, val) ↦
        subst (λ b. Holds b (filter (λ g. not (f == g)) owned)) (ap (λ r. r.1) e)
          (record {
            valid = val;
            used = λ g m.
                let (i, ne) = In-filter (λ g. not (f == g)) g owned m in
                ground (arith, us g, h.used g i);
            tracked =
                λ g m. omega (arith, t, h.tracked g (In-filter (λ g. not (f == g)) g owned m).0);
            distinct = Distinct-filter (λ g. not (f == g)) owned h.distinct;
          })
  ]

Step-Holds :
    {a a' : FrameAllocator} {owned owned' : List ℕ}
    → Step a owned a' owned'
    → Holds a owned
    → Holds a' owned'
Step-Holds (take_one f e) h = take_one-Holds h f e
Step-Holds (take_run n s e) h = take_run-Holds h n s e
Step-Holds (give_back f m e) h = give_back-Holds h f e

-- Start from a valid state and let callers take single frames and runs and give frames back, each
-- only a frame that it was handed: at every moment the frames that are out are in use and tracked, no
-- frame is out twice, and the state is valid.
pub reachable-Holds :
    {start a : FrameAllocator} {owned : List ℕ}
    → IsValid start
    → Reach start a owned
    → Holds a owned
reachable-Holds v begin = record {
  valid = v;
  used = λ f m. absurd m;
  tracked = λ f m. absurd m;
  distinct = tt;
}
reachable-Holds v (next r s) = Step-Holds s (reachable-Holds v r)
