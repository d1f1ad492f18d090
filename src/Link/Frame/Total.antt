-- ===== src/Link/Frame/Total.antt =====
-- The loop of the decoder ends.
use mathlib.Core.Logic.{inl, inr, ◌⊎◌}
use cdk.Prelude.{
  ℕ, zero, suc, ◌≤◌, ◌<◌, ◌≡◌, refl, ap, ◌∙◌, Option, none, some, length, length-drop, drop, arith,
  Option-cases,
}
use cdk.Link.Frame.{
  Frame, Decoder, settle, find_magic, skip, drop_front, attempt, Attempt, incomplete, resync, found,
  scan, next_frame,
}
use cdk.Link.Frame.Steps.{scan-none, scan-incomplete, scan-resync, scan-found}

pub Attempt-cases :
    (a : Attempt)
    → ((d : Decoder) × (a ≡ incomplete d))
      ⊎ (((d : Decoder) × (a ≡ resync d)) ⊎ ((f : Frame) × (d : Decoder) × (a ≡ found f d)))
Attempt-cases (incomplete d) = inl (d, refl)
Attempt-cases (resync d) = inr (inl (d, refl))
Attempt-cases (found f d) = inr (inr (f, d, refl))

-- A round that goes on has dropped one byte.
pub attempt-resync :
    (d d' : Decoder) → attempt d ≡ resync d' → (d'.buf ≡ drop 1 d.buf) × (8 ≤ length d.buf)
unfolding attempt drop_front
attempt-resync d d' e = ground arith

scan_total :
    (n : ℕ) (d : Decoder) → length d.buf < n → (r : Option Frame × Decoder) × (scan n d ≡ some r)
unfolding skip drop_front
scan_total zero d h = absurd (omega arith)
scan_total (suc n) d h = elim (Option-cases (find_magic d.buf)) [
  | inl e ↦ ((none, skip (length d.buf) d), scan-none n d e)
  | inr (i, e) ↦ elim (Attempt-cases (attempt (skip i d))) [
    | inl (d', a) ↦ ((none, d'), scan-incomplete n d i e d' a)
    | inr (inl (d', a)) ↦
        let (q, l) = attempt-resync (skip i d) d' a in
        let (r, p) =
          scan_total n d'
            (omega (arith, ap length q, length-drop 1 (drop i d.buf), length-drop i d.buf)) in
        (r, scan-resync n d i e d' a ∙ p)
    | inr (inr (f, d', a)) ↦ ((some f, d'), scan-found n d i e f d' a)
  ]
]

-- In every state of the decoder `next_frame` returns.
pub next_frame_total : (d : Decoder) → (r : Option Frame × Decoder) × (next_frame d ≡ some r)
unfolding next_frame
next_frame_total d = scan_total (suc (length (settle d).buf)) (settle d) (omega arith)
