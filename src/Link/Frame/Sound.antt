-- ===== src/Link/Frame/Sound.antt =====
-- The decoder returns nothing but frames whose bytes are in the buffer.
use mathlib.Core.List.{append_assoc}
use mathlib.Core.Logic.{inl, inr}
use cdk.Prelude.{
  ℕ, zero, suc, ◌+◌, ◌%◌, ◌^◌, ◌≤◌, ◌≡◌, sym, ap, ap₂, ◌∙◌, subst, Bool, true, false, Option, none,
  some, [], ◌∷◌, ◌++◌, Text, length, take, drop, take-append-drop, min, text_eq, text_eq→eq, arith,
  Bool-cases, Option-cases, if◌then◌else◌,
}
use mathlib.Core.Option
use cdk.Prelude.Bytes.{u16_le, u32_le, from_le}
use cdk.Link.Frame.{
  Frame, covered, frame_bytes, crc32, magic, Decoder, settle, is_aligned, find_magic, skip,
  drop_front, attempt, found, scan, next_frame, window, byte_at,
}
use cdk.Link.Frame.Decode.{Fits, length-frame_bytes}
use cdk.Link.Frame.Steps.{scan-zero, scan-none, scan-incomplete, scan-resync, scan-found}
use cdk.Link.Frame.Total.{Attempt-cases, attempt-resync}
use cdk.Link.Frame.Octets.{AreBytes, bytes_drop, bytes_take, one_byte, two_bytes, four_bytes}
use cdk.Link.Frame.Windows.{length-window, window-window, split-window, drop-drop}

-- What an attempt has checked where it returns a frame.
record Checked (d d' : Decoder) (f : Frame) (plen : ℕ) : Type 0 where
  fits : plen ≤ 1024
  payload : f.payload ≡ window 8 plen d.buf
  kind : f.kind ≡ byte_at 4 d.buf
  flags : f.flags ≡ byte_at 5 d.buf
  room : 12 + plen ≤ length d.buf
  crc : from_le (window (8 + plen) 4 d.buf) ≡ crc32 (window 4 (4 + plen) d.buf)
  buf : d'.buf ≡ d.buf
  pending : d'.pending ≡ 12 + plen

attempt-Checked :
    (d d' : Decoder) (f : Frame)
    → attempt d ≡ found f d'
    → Checked d d' f (from_le (window 6 2 d.buf))
unfolding attempt
attempt-Checked d d' f e = ground arith

module _ (d d' : Decoder) (f : Frame) (e : attempt d ≡ found f d') (bytes : AreBytes d.buf) where
  abbrev plen : ℕ
  plen = from_le (window 6 2 d.buf)

  c : Checked d d' f plen
  c = attempt-Checked d d' f e

  length-payload : length f.payload ≡ plen
  length-payload = ap length c.payload ∙ length-window 8 plen d.buf (omega (arith, c.room))

  read_plen : u16_le (length f.payload % 2 ^ 16) ≡ window 6 2 d.buf
  read_plen =
      ap u16_le
        (let q : length f.payload % 2 ^ 16 ≡ plen = omega (arith, length-payload, c.fits) in q)
      ∙ two_bytes (window 6 2 d.buf) (bytes_take 2 _ (bytes_drop 6 d.buf bytes))
          (length-window 6 2 d.buf (omega (arith, c.room)))

  single : (i : ℕ) → i + 1 ≤ length d.buf → byte_at i d.buf ∷ [] ≡ window i 1 d.buf
  single i l = one_byte (window i 1 d.buf) (length-window i 1 d.buf l)

  covered_eq : covered f ≡ window 4 (4 + plen) d.buf
  unfolding covered
  covered_eq =
      (λ i. k i ++ (g i ++ (read_plen i ++ c.payload i)))
      ∙ sym (
          window-window 4 1 (1 + (2 + plen)) d.buf
          ∙ ap (λ t. window 4 1 d.buf ++ t)
              (window-window 5 1 (2 + plen) d.buf
                ∙ ap (λ t. window 5 1 d.buf ++ t) (window-window 6 2 plen d.buf)))
      ∙ ap (λ n. window 4 n d.buf) (let q : 1 + (1 + (2 + plen)) ≡ 4 + plen = omega arith in q)
    where
      k : f.kind ∷ [] ≡ window 4 1 d.buf
      k = ap (λ b. b ∷ []) c.kind ∙ single 4 (omega (arith, c.room))

      g : f.flags ∷ [] ≡ window 5 1 d.buf
      g = ap (λ b. b ∷ []) c.flags ∙ single 5 (omega (arith, c.room))

  crc_eq : u32_le (crc32 (covered f)) ≡ window (8 + plen) 4 d.buf
  crc_eq =
      ap (λ t. u32_le (crc32 t)) covered_eq
      ∙ ap u32_le (sym c.crc)
      ∙ four_bytes (window (8 + plen) 4 d.buf) (bytes_take 4 _ (bytes_drop (8 + plen) d.buf bytes))
          (length-window (8 + plen) 4 d.buf (omega (arith, c.room)))

  front : is_aligned d.buf ≡ true → take 4 d.buf ≡ magic
  unfolding is_aligned
  front a =
      let k : min (length d.buf) 4 ≡ 4 = omega (arith, c.room) in
      text_eq→eq (take 4 d.buf) magic (ap (λ n. text_eq (take n d.buf) (take n magic)) (sym k) ∙ a)

  parts :
      d.buf
      ≡ take 4 d.buf
        ++ (window 4 (4 + plen) d.buf ++ (window (8 + plen) 4 d.buf ++ drop (12 + plen) d.buf))
  parts =
      split-window 4 (4 + plen) d.buf
      ∙ ap (λ t. take 4 d.buf ++ (window 4 (4 + plen) d.buf ++ t))
          (ap (λ n. drop n d.buf) (let q : 4 + (4 + plen) ≡ 8 + plen = omega arith in q)
            ∙ sym (take-append-drop 4 (drop (8 + plen) d.buf))
            ∙ ap (λ t. window (8 + plen) 4 d.buf ++ t)
                (drop-drop (8 + plen) 4 d.buf
                  ∙ ap (λ n. drop n d.buf) (let q : 8 + plen + 4 ≡ 12 + plen = omega arith in q)))

  pub found-frame_bytes :
      is_aligned d.buf ≡ true
      → (d.buf ≡ frame_bytes f ++ drop (12 + length f.payload) d.buf)
        × (Fits f)
        × (d'.buf ≡ d.buf)
        × (d'.pending ≡ 12 + length f.payload)
  unfolding frame_bytes
  found-frame_bytes a = (
    parts
        ∙ (λ i.
            front a i
            ++ (sym covered_eq i ++ (sym crc_eq i ++ drop (12 + sym length-payload i) d.buf)))
        ∙ ap (λ t. magic ++ t) (sym (append_assoc (covered f) (u32_le (crc32 (covered f))) _)),
    omega (arith, length-payload, c.fits),
    c.buf,
    omega (arith, length-payload, c.pending),
  )

find_magic-is_aligned : (s : Text) (i : ℕ) → find_magic s ≡ some i → is_aligned (drop i s) ≡ true
unfolding find_magic
find_magic-is_aligned [] i e = cc
find_magic-is_aligned (b ∷ s) zero e = elim (Bool-cases (is_aligned (b ∷ s))) [
  | inl a ↦ a
  | inr a ↦ absurd (
      none_before (find_magic s)
        (sym (ap (λ (t : Bool). if t then some 0 else Option.map suc (find_magic s)) a) ∙ e))
]
  where
    none_before : (o : Option ℕ) → Option.map suc o ≡ some 0 → ⊥
    none_before none q = cc
    none_before (some j) q = ground arith
find_magic-is_aligned (b ∷ s) (suc i) e =
    find_magic-is_aligned s i (later (is_aligned (b ∷ s)) (find_magic s) e)
  where
    later :
        (t : Bool) (o : Option ℕ)
        → (if t then some 0 else Option.map suc o) ≡ some (suc i)
        → o ≡ some i
    later true o q = ground arith
    later false none q = cc
    later false (some j) q = ground arith

-- The buffer with a frame in front, and what was skipped before it.
abbrev pub Returned : Text → Frame → Decoder → Type 0
Returned s f d' =
    (pre : Text) × (rest : Text) × (s ≡ pre ++ d'.buf)
    × (d'.buf ≡ frame_bytes f ++ rest)
    × (d'.pending ≡ length (frame_bytes f))
    × Fits f

Returned-drop :
    (k : ℕ) (s : Text) (f : Frame) (d' : Decoder) → Returned (drop k s) f d' → Returned s f d'
Returned-drop k s f d' (pre, rest, e, b, p, fits) = (
  take k s ++ pre,
  rest,
  sym (take-append-drop k s) ∙ ap (λ t. take k s ++ t) e ∙ sym (append_assoc (take k s) pre d'.buf),
  b,
  p,
  fits,
)

no_frame :
    (c d' : Decoder) (f : Frame)
    → ◌≡◌ {A = Option (Option Frame × Decoder)} (some (none, c)) (some (some f, d'))
    → ⊥
no_frame c d' f q = cc

same_frame :
    (c d' : Decoder) (f g : Frame)
    → ◌≡◌ {A = Option (Option Frame × Decoder)} (some (some g, c)) (some (some f, d'))
    → (g ≡ f) × (c ≡ d')
same_frame c d' f g q = (cc, cc)

no_fuel :
    (d' : Decoder) (f : Frame)
    → ◌≡◌ {A = Option (Option Frame × Decoder)} none (some (some f, d'))
    → ⊥
no_fuel d' f q = cc

scan-Returned :
    (n : ℕ) (d d' : Decoder) (f : Frame)
    → AreBytes d.buf
    → scan n d ≡ some (some f, d')
    → Returned d.buf f d'
unfolding skip drop_front
scan-Returned zero d d' f h e = absurd (no_fuel d' f (sym (scan-zero d) ∙ e))
scan-Returned (suc n) d d' f h e = elim (Option-cases (find_magic d.buf)) [
  | inl m ↦ absurd (no_frame (skip (length d.buf) d) d' f (sym (scan-none n d m) ∙ e))
  | inr (i, m) ↦ elim (Attempt-cases (attempt (skip i d))) [
    | inl (c, a) ↦ absurd (no_frame c d' f (sym (scan-incomplete n d i m c a) ∙ e))
    | inr (inl (c, a)) ↦
        let (q, l) = attempt-resync (skip i d) c a in
        let dropped : c.buf ≡ drop (i + 1) d.buf = q ∙ drop-drop i 1 d.buf in
        Returned-drop (i + 1) d.buf f d' (
          subst (λ t. Returned t f d') dropped
            (scan-Returned n c d' f (subst AreBytes (sym dropped) (bytes_drop (i + 1) d.buf h))
              (sym (scan-resync n d i m c a) ∙ e)))
    | inr (inr (g, c, a)) ↦
        let (p, q) = same_frame c d' f g (sym (scan-found n d i m g c a) ∙ e) in
        let a' : attempt (skip i d) ≡ found f d' = a ∙ ap₂ found p q in
        let (b, fits, same, pending) =
          found-frame_bytes (skip i d) d' f a' (bytes_drop i d.buf h)
            (find_magic-is_aligned d.buf i m) in
        Returned-drop i d.buf f d' (
          [],
          drop (12 + length f.payload) (drop i d.buf),
          sym same,
          same ∙ b,
          pending ∙ sym (length-frame_bytes f),
          fits,
        )
  ]
]

-- What `next_frame` returns from a buffer of bytes is in the buffer: there, behind the bytes that
-- were skipped, stand exactly the bytes that the encoder makes of the frame, its length and checksum
-- included, and they are what the next call drops.
pub next_frame-Returned :
    (d d' : Decoder) (f : Frame)
    → AreBytes (settle d).buf
    → next_frame d ≡ some (some f, d')
    → Returned (settle d).buf f d'
unfolding next_frame
next_frame-Returned d d' f h e = scan-Returned (suc (length (settle d).buf)) (settle d) d' f h e
