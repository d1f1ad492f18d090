-- ===== src/Link/Frame/Decode.antt =====
-- What the decoder does with a frame that was encoded: it waits for all of it, and returns it.
use mathlib.Core.List.{append_assoc, append-nil}
use mathlib.Core.Logic.{inl, inr}
use cdk.Prelude.{
  ℕ, suc, ◌+◌, ◌%◌, ◌^◌, ◌≤◌, ◌<◌, ◌≡◌, refl, sym, ap, ◌∙◌, true, none, some, [], ◌∷◌, ◌++◌, Text,
  length, length-append, take, min, ltb, text_eq, text_eq_self, arith, Bool-cases,
}
use cdk.Prelude.Bytes.{u16_le, u32_le, from_le, from_le-u16, from_le-u32}
use cdk.Prelude.Bits.{bit_not}
use cdk.Link.Frame.{
  Frame, covered, frame_bytes, crc32, magic, Decoder, DecoderStats, settle, is_aligned, find_magic,
  skip, attempt, incomplete, found, scan, next_frame, window, byte_at,
}
use cdk.Link.Frame.Steps.{scan-none, scan-incomplete, scan-found}
use cdk.Link.Frame.Windows.{take-append_left, window-append_left, window-skip, window-head}

-- A payload that the encoder takes.
abbrev pub Fits : Frame → Type 0
Fits f = length f.payload ≤ 1024

pub crc32-lt : (s : Text) → crc32 s < 2 ^ 32
unfolding crc32 bit_not
crc32-lt s = omega arith

pub length-frame_bytes : (f : Frame) → length (frame_bytes f) ≡ 12 + length f.payload
unfolding frame_bytes covered
length-frame_bytes f = omega (arith, length-append f.payload (u32_le (crc32 (covered f))))

-- A buffer that starts like a frame is aligned on a magic.
aligned_of_prefix : (s ys zs : Text) → s ++ ys ≡ magic ++ zs → is_aligned s ≡ true
unfolding is_aligned
aligned_of_prefix s ys zs e = ap (λ t. text_eq t (take k magic)) same ∙ text_eq_self (take k magic)
  where
    k : ℕ
    k = min (length s) 4

    same : take k s ≡ take k magic
    same =
        sym (take-append_left k s ys (omega arith))
        ∙ ap (take k) e
        ∙ take-append_left k magic zs (omega arith)

find_magic_of_prefix :
    (b : ℕ) (s ys zs : Text) → (b ∷ s) ++ ys ≡ magic ++ zs → find_magic (b ∷ s) ≡ some 0
unfolding find_magic
find_magic_of_prefix b s ys zs e = rw (aligned_of_prefix (b ∷ s) ys zs e)

find_magic-nil : find_magic [] ≡ none
unfolding find_magic
find_magic-nil = refl

module _ (f : Frame) (fits : Fits f) (more : Text) where
  abbrev whole : Text
  whole = frame_bytes f ++ more

  length-covered : length (covered f) ≡ 4 + length f.payload
  unfolding covered
  length-covered = omega arith

  after_magic : whole ≡ magic ++ (covered f ++ (u32_le (crc32 (covered f)) ++ more))
  unfolding frame_bytes covered
  after_magic = simp append_assoc

  read_length : window 6 2 whole ≡ u16_le (length f.payload % 2 ^ 16)
  unfolding frame_bytes covered
  read_length = refl

  read_plen : from_le (window 6 2 whole) ≡ length f.payload
  read_plen =
      ap from_le read_length
      ∙ from_le-u16 (length f.payload % 2 ^ 16) (omega arith)
      ∙ omega (arith, fits)

  read_covered : window 4 (4 + length f.payload) whole ≡ covered f
  read_covered = rw after_magic (window-head (covered f) _ (4 + length f.payload) length-covered)

  read_crc : from_le (window (8 + length f.payload) 4 whole) ≡ crc32 (covered f)
  read_crc = rw after_magic (
      ap from_le (
        ap (λ k. window k 4 (magic ++ (covered f ++ (u32_le (crc32 (covered f)) ++ more))))
          (let e : 8 + length f.payload ≡ 4 + (4 + length f.payload + 0) = omega arith in e)
        ∙ window-skip magic (covered f ++ (u32_le (crc32 (covered f)) ++ more)) 4 _ 4 refl
        ∙ window-skip (covered f) (u32_le (crc32 (covered f)) ++ more) (4 + length f.payload) 0 4
            length-covered
        ∙ window-head (u32_le (crc32 (covered f))) more 4 refl)
      ∙ from_le-u32 (crc32 (covered f)) (crc32-lt (covered f)))

  read_kind : byte_at 4 whole ≡ f.kind
  unfolding frame_bytes covered
  read_kind = omega arith

  read_flags : byte_at 5 whole ≡ f.flags
  unfolding frame_bytes covered
  read_flags = omega arith

  read_payload : window 8 (length f.payload) whole ≡ f.payload
  unfolding frame_bytes covered
  read_payload = rw (append_assoc f.payload) (window-head f.payload _ (length f.payload) refl)

  length-whole : length whole ≡ 12 + length f.payload + length more
  length-whole = omega (arith, length-append (frame_bytes f) more, length-frame_bytes f)

  attempt-whole :
      (p : ℕ) (st : DecoderStats)
      → attempt (record { buf = whole; pending = p; stats = st })
        ≡ found f (record {
          buf = whole;
          pending = 8 + length f.payload + 4;
          stats = record st { frames = st.frames + 1 };
        })
  unfolding attempt
  attempt-whole p st =
      rw (read_plen, read_crc, read_covered, read_kind, read_flags, read_payload, length-whole)
        (ground (arith, fits))

  -- The front of a frame is too short for an attempt to end.
  attempt-front :
      (s ys : Text) (p : ℕ) (st : DecoderStats)
      → s ++ ys ≡ whole
      → length s < 12 + length f.payload
      → attempt (record { buf = s; pending = p; stats = st })
        ≡ incomplete (record { buf = s; pending = p; stats = st })
  unfolding attempt
  attempt-front s ys p st e h = elim (Bool-cases (ltb (length s) 8)) [
    | inl short ↦ rw short refl
    | inr long ↦ rw (long, plen (ground arith)) (ground (arith, fits))
  ]
    where
      plen : 8 ≤ length s → from_le (window 6 2 s) ≡ length f.payload
      plen l = ap from_le (sym (window-append_left 6 2 s ys l) ∙ ap (window 6 2) e) ∙ read_plen

  scan-front :
      (n : ℕ) (s ys : Text) (p : ℕ) (st : DecoderStats)
      → s ++ ys ≡ whole
      → length s < 12 + length f.payload
      → (st' : DecoderStats) × (scan (suc n) (record { buf = s; pending = p; stats = st })
          ≡ some (none, record { buf = s; pending = p; stats = st' }))
  unfolding skip
  scan-front n [] ys p st e h =
      (record st { skipped = st.skipped + 0 }, scan-none n _ find_magic-nil)
  scan-front n (b ∷ s) ys p st e h =
      let st' : DecoderStats = record st { skipped = st.skipped + 0 } in
      (
        st',
        scan-incomplete n _ 0 (find_magic_of_prefix b s ys _ (e ∙ after_magic)) _
            (attempt-front (b ∷ s) ys p st' e h),
      )

  find_magic-whole : find_magic whole ≡ some 0
  unfolding frame_bytes
  find_magic-whole = find_magic_of_prefix b'C' _ [] _ (append-nil whole)

  scan-whole :
      (n p : ℕ) (st : DecoderStats)
      → (st' : DecoderStats) × (scan (suc n) (record { buf = whole; pending = p; stats = st })
          ≡ some (some f, record { buf = whole; pending = 8 + length f.payload + 4; stats = st' }))
  unfolding skip
  scan-whole n p st =
      let st' : DecoderStats = record st { skipped = st.skipped + 0 } in
      (
        record st' { frames = st'.frames + 1 },
        scan-found n _ 0 find_magic-whole f _ (attempt-whole p st'),
      )

  -- The front of a frame is left as it is until the rest is there.
  pub next_frame-front :
      (d : Decoder) (s ys : Text)
      → (settle d).buf ≡ s
      → s ++ ys ≡ whole
      → (settle d).pending ≡ 0
      → length s < 12 + length f.payload
      → (d' : Decoder) × (next_frame d ≡ some (none, d')) × (d'.buf ≡ s) × (d'.pending ≡ 0)
  unfolding next_frame
  next_frame-front d s ys q e z h =
      let (st', r) = scan-front (length s) s ys 0 (settle d).stats e h in
      (
        record { buf = s; pending = 0; stats = st' },
        (λ i.
              scan (suc (length (q i)))
                (record { buf = q i; pending = z i; stats = (settle d).stats }))
            ∙ r,
        refl,
        refl,
      )

  -- A whole frame is returned, and stays in the buffer until the next call.
  pub next_frame-whole :
      (d : Decoder)
      → (settle d).buf ≡ whole
      → (d' : Decoder) × (next_frame d ≡ some (some f, d'))
        × (d'.buf ≡ whole)
        × (d'.pending ≡ 8 + length f.payload + 4)
  unfolding next_frame
  next_frame-whole d q =
      let (st', r) = scan-whole (length whole) (settle d).pending (settle d).stats in
      (
        record { buf = whole; pending = 8 + length f.payload + 4; stats = st' },
        (λ i.
              scan (suc (length (q i)))
                (record { buf = q i; pending = (settle d).pending; stats = (settle d).stats }))
            ∙ r,
        refl,
        refl,
      )
