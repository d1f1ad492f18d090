-- ===== src/Link/Frame/Stream.antt =====
-- The receive loop: a stream of frames arrives whole, however the transport cuts it into pieces.
use mathlib.Core.Logic.{inl, inr}
use mathlib.Core.Option
use cdk.Prelude.{
  ℕ, zero, suc, ◌+◌, ◌<◌, ◌≡◌, refl, sym, ap, ◌∙◌, Option, none, some, List, [], ◌∷◌, ◌++◌, Text,
  length, length-append, drop, ltb, ltb→lt, arith, Bool-cases, All,
}
use cdk.Link.Frame.{Frame, frame_bytes, Decoder, settle, drop_front, next_frame, drain}
use cdk.Link.Frame.Decode.{Fits, length-frame_bytes, next_frame-front, next_frame-whole}
use cdk.Link.Frame.Windows.{append-split}
use cdk.Prelude.Bytes.{drop-append}

-- The bytes of some frames, one behind the other.
abbrev pub stream : List Frame → Text
stream [] = []
stream (f ∷ fs) = frame_bytes f ++ stream fs

-- The bytes that the transport holds, in its pieces.
abbrev pub concat : List Text → Text
concat [] = []
concat (bytes ∷ pieces) = bytes ++ concat pieces

-- The buffer holds less than the next frame.
abbrev pub IsShort : Text → List Frame → Type 0
IsShort s [] = length s ≡ 0
IsShort s (f ∷ fs) = length s < 12 + length f.payload

-- The decoder has handed on all it could: it holds the front of the frames that are still to come.
pub record Waits (d : Decoder) (fs : List Frame) (ys : Text) : Type 0 where
  pub pending : d.pending ≡ 0
  pub content : d.buf ++ ys ≡ stream fs
  pub short : IsShort d.buf fs
  pub fits : All Fits fs

-- What a loop gives: the first of the frames, and a decoder that waits for the others.
unfoldable pub Delivers : Option (List Frame × Decoder) → List Frame → Text → Type 0
Delivers r fs ys =
    (now : List Frame) × (later : List Frame) × (d : Decoder) × (r ≡ some (now, d))
    × (fs ≡ now ++ later)
    × Waits d later ys

pub settle-pending : (d : Decoder) → (settle d).pending ≡ 0
unfolding settle drop_front
settle-pending d = ground arith

pub settle_idle : (d : Decoder) → d.pending ≡ 0 → (settle d).buf ≡ d.buf
unfolding settle drop_front
settle_idle d p = ground arith

settle_busy : (d : Decoder) (n : ℕ) → d.pending ≡ suc n → (settle d).buf ≡ drop (suc n) d.buf
unfolding settle drop_front
settle_busy d n p = ground arith

-- After a frame was returned, the next call finds what follows it.
settle-whole :
    (d : Decoder) (f : Frame) (rest : Text)
    → d.buf ≡ frame_bytes f ++ rest
    → d.pending ≡ 8 + length f.payload + 4
    → (settle d).buf ≡ rest
settle-whole d f rest e p =
    settle_busy d (11 + length f.payload) (omega (arith, p))
    ∙ (λ i. drop (k i) (e i))
    ∙ drop-append (frame_bytes f) rest 0
  where
    k : suc (11 + length f.payload) ≡ length (frame_bytes f) + 0
    k = omega (arith, length-frame_bytes f)

drain-none :
    (n : ℕ) (d d' : Decoder) → next_frame d ≡ some (none, d') → drain (suc n) d ≡ some ([], d')
unfolding drain
drain-none n d d' e = rw (e, drain) refl

drain-some :
    (n : ℕ) (d d' : Decoder) (f : Frame)
    → next_frame d ≡ some (some f, d')
    → drain (suc n) d ≡ Option.map (λ (r : List Frame × Decoder). (f ∷ r.0, r.1)) (drain n d')
unfolding drain
drain-some n d d' f e = rw (e, drain) refl

abbrev empty_frame : Frame
empty_frame = record { kind = 0; flags = 0; payload = [] }

nil_of_append : (xs ys : Text) → xs ++ ys ≡ [] → (xs ≡ [])
nil_of_append [] ys e = refl
nil_of_append (x ∷ xs) ys e = cc

pub drain-Delivers :
    (fs : List Frame) (n : ℕ) (d : Decoder) (s ys : Text)
    → All Fits fs
    → (settle d).buf ≡ s
    → s ++ ys ≡ stream fs
    → length s < n
    → Delivers (drain n d) fs ys
unfolding Delivers
drain-Delivers fs zero d s ys fits q e h = absurd (omega arith)
drain-Delivers [] (suc n) d s ys fits q e h =
    let z : s ≡ [] = nil_of_append s ys e in
    let (d', r, b, p) =
      next_frame-front empty_frame (omega arith) [] d [] _ (q ∙ z) refl (settle-pending d)
        (omega arith) in
    (
      [],
      [],
      d',
      drain-none n d d' r,
      refl,
      record {
        pending = p;
        content = ap (λ t. t ++ ys) (b ∙ sym z) ∙ e;
        short = ap length b;
        fits = tt;
      },
    )
drain-Delivers (f ∷ fs) (suc n) d s ys fits q e h =
    elim (Bool-cases (ltb (length s) (12 + length f.payload))) [
      | inl short ↦
          let lt : length s < 12 + length f.payload = ltb→lt _ _ short in
          let (d', r, b, p) =
            next_frame-front f fits.0 (stream fs) d s ys q e (settle-pending d) lt in
          (
            [],
            f ∷ fs,
            d',
            drain-none n d d' r,
            refl,
            record {
              pending = p;
              content = ap (λ t. t ++ ys) b ∙ e;
              short = omega (arith, ap length b);
              fits = fits;
            },
          )
      | inr long ↦
          let (rest, e1, e2) =
            append-split s ys (frame_bytes f) (stream fs) e
              (ground (arith, length-frame_bytes f)) in
          let (d', r, b, p) = next_frame-whole f fits.0 rest d (q ∙ e1) in
          let shorter : length rest < n =
            omega (arith, ap length e1, length-append (frame_bytes f) rest, length-frame_bytes f) in
          let (now, later, d2, r2, l, w) =
            drain-Delivers fs n d' rest ys fits.1 (settle-whole d' f rest b p) e2 shorter in
          (
            f ∷ now,
            later,
            d2,
            drain-some n d d' f r
                ∙ ap (Option.map (λ (r : List Frame × Decoder). (f ∷ r.0, r.1))) r2,
            ap (λ t. f ∷ t) l,
            w,
          )
    ]
