-- ===== src/Link/Frame/Receive.antt =====
-- The receive loop over the pieces of a stream.
use mathlib.Core.List.{append_assoc, append-nil}
use mathlib.Core.Option
use cdk.Prelude.{
  ℕ, zero, suc, ◌-◌, ◌<◌, ◌≡◌, refl, sym, ap, ◌∙◌, subst, some, List, [], ◌∷◌, ◌++◌, Text, length,
  length-append, length-drop, take, drop, take-append-drop, min, arith, All,
}
use cdk.Link.Frame.{Frame, frame_bytes, max_frame, Decoder, settle, push, drain, feed, poll}
use cdk.Link.Frame.Decode.{Fits, length-frame_bytes}
use cdk.Link.Frame.Stream.{
  stream, concat, IsShort, Waits, Delivers, settle-pending, settle_idle, drain-Delivers,
}

-- A decoder that waits has room for at least one byte.
room : (d : Decoder) (fs : List Frame) (ys : Text) → Waits d fs ys → length d.buf < max_frame
room d [] ys w = omega (arith, w.short)
room d (f ∷ fs) ys w = omega (arith, w.short, w.fits.0)

-- What `push` takes of some bytes.
abbrev taken : Decoder → Text → ℕ
taken d bytes = min (length bytes) (max_frame - length (settle d).buf)

feed-some :
    (n b : ℕ) (bytes : Text) (d d2 : Decoder) (fs : List Frame)
    → drain (suc (length (push (b ∷ bytes) d).1.buf)) (push (b ∷ bytes) d).1 ≡ some (fs, d2)
    → feed (suc n) (b ∷ bytes) d
      ≡ Option.map
          (λ (r : List Frame × Decoder). (fs ++ r.0, r.1))
          (feed n (drop (taken d (b ∷ bytes)) (b ∷ bytes)) d2)
unfolding feed push
feed-some n b bytes d d2 fs e = rw (e, feed) refl

feed_nil : (n : ℕ) (d : Decoder) → feed (suc n) [] d ≡ some ([], d)
unfolding feed
feed_nil n d = refl

feed-Delivers :
    (n : ℕ) (bytes : Text) (d : Decoder) (fs : List Frame) (ys : Text)
    → Waits d fs (bytes ++ ys)
    → length bytes < n
    → Delivers (feed n bytes d) fs ys
unfolding Delivers push
feed-Delivers zero bytes d fs ys w h = absurd (omega arith)
feed-Delivers (suc n) [] d fs ys w h = ([], fs, d, feed_nil n d, refl, w)
feed-Delivers (suc n) (b ∷ bytes) d fs ys w h =
    let idle : (settle d).buf ≡ d.buf = settle_idle d w.pending in
    let d1 : Decoder = (push (b ∷ bytes) d).1 in
    let buf : d1.buf ≡ d.buf ++ take (taken d (b ∷ bytes)) (b ∷ bytes) =
      ap (λ t. t ++ take (taken d (b ∷ bytes)) (b ∷ bytes)) idle in
    let (now, later, d2, r, l, w2) =
      drain-Delivers fs (suc (length d1.buf)) d1 d1.buf
        (drop (taken d (b ∷ bytes)) (b ∷ bytes) ++ ys) w.fits (settle_idle d1 (settle-pending d))
        (content d1 buf) (omega arith) in
    let (now2, later2, d3, r2, l2, w3) =
      feed-Delivers n (drop (taken d (b ∷ bytes)) (b ∷ bytes)) d2 later ys w2 (
        omega
          (arith, length-drop (taken d (b ∷ bytes)) (b ∷ bytes), room d fs _ w, ap length idle)) in
    (
      now ++ now2,
      later2,
      d3,
      feed-some n b bytes d d2 now r
          ∙ ap (Option.map (λ (r : List Frame × Decoder). (now ++ r.0, r.1))) r2,
      l ∙ ap (λ t. now ++ t) l2 ∙ sym (append_assoc now now2 later2),
      w3,
    )
  where
    content :
        (d1 : Decoder)
        → d1.buf ≡ d.buf ++ take (taken d (b ∷ bytes)) (b ∷ bytes)
        → d1.buf ++ (drop (taken d (b ∷ bytes)) (b ∷ bytes) ++ ys) ≡ stream fs
    content d1 e =
        ap (λ t. t ++ (drop (taken d (b ∷ bytes)) (b ∷ bytes) ++ ys)) e
        ∙ append_assoc d.buf (take (taken d (b ∷ bytes)) (b ∷ bytes)) _
        ∙ ap (λ t. d.buf ++ t)
            (sym (append_assoc (take (taken d (b ∷ bytes)) (b ∷ bytes)) _ ys)
              ∙ ap (λ t. t ++ ys) (take-append-drop (taken d (b ∷ bytes)) (b ∷ bytes)))
        ∙ w.content

poll-some :
    (bytes : Text) (pieces : List Text) (d d' : Decoder) (fs : List Frame)
    → feed (suc (length bytes)) bytes d ≡ some (fs, d')
    → poll (bytes ∷ pieces) d
      ≡ Option.map (λ (r : List Frame × Decoder). (fs ++ r.0, r.1)) (poll pieces d')
unfolding poll
poll-some bytes pieces d d' fs e = rw (e, poll) refl

poll_nil : (d : Decoder) → poll [] d ≡ some ([], d)
unfolding poll
poll_nil d = refl

poll-Delivers :
    (pieces : List Text) (d : Decoder) (fs : List Frame) (ys : Text)
    → Waits d fs (concat pieces ++ ys)
    → Delivers (poll pieces d) fs ys
unfolding Delivers
poll-Delivers [] d fs ys w = ([], fs, d, poll_nil d, refl, w)
poll-Delivers (bytes ∷ pieces) d fs ys w =
    let (now, later, d2, r, l, w2) =
      feed-Delivers (suc (length bytes)) bytes d fs (concat pieces ++ ys)
        (subst (λ t. Waits d fs t) (append_assoc bytes (concat pieces) ys) w) (omega arith) in
    let (now2, later2, d3, r2, l2, w3) = poll-Delivers pieces d2 later ys w2 in
    (
      now ++ now2,
      later2,
      d3,
      poll-some bytes pieces d d2 now r
          ∙ ap (Option.map (λ (r : List Frame × Decoder). (now ++ r.0, r.1))) r2,
      l ∙ ap (λ t. now ++ t) l2 ∙ sym (append_assoc now now2 later2),
      w3,
    )

empty-IsShort : (s : Text) (fs : List Frame) → s ≡ [] → IsShort s fs
empty-IsShort s [] e = ap length e
empty-IsShort s (f ∷ fs) e = omega (arith, ap length e)

nothing_left : (d : Decoder) (fs : List Frame) → Waits d fs [] → (fs ≡ []) × (d.buf ≡ [])
nothing_left d [] w = (refl, sym (append-nil d.buf) ∙ w.content)
nothing_left d (f ∷ fs) w = absurd (
    omega (
      arith,
      w.short,
      ap length (sym (append-nil d.buf) ∙ w.content),
      length-append (frame_bytes f) (stream fs),
      length-frame_bytes f,
    ))

-- The bytes of any frames with payloads of at most 1024 bytes, handed over by the transport in any
-- pieces to a decoder that holds nothing, are received as exactly these frames in their order, and
-- the decoder holds nothing afterwards.
pub poll-stream :
    (pieces : List Text) (fs : List Frame) (d : Decoder)
    → All Fits fs
    → concat pieces ≡ stream fs
    → d.buf ≡ []
    → d.pending ≡ 0
    → (d' : Decoder) × (poll pieces d ≡ some (fs, d')) × (d'.buf ≡ []) × (d'.pending ≡ 0)
unfolding Delivers
poll-stream pieces fs d fits e b p =
    let (now, later, d', r, l, w) = poll-Delivers pieces d fs [] start in
    let (none_left, empty) = nothing_left d' later w in
    (
      d',
      r
          ∙ ap (λ (t : List Frame). some (t, d'))
              (sym (append-nil now) ∙ ap (λ t. now ++ t) (sym none_left) ∙ sym l),
      empty,
      w.pending,
    )
  where
    start : Waits d fs (concat pieces ++ [])
    start = record {
      pending = p;
      content = ap (λ t. t ++ (concat pieces ++ [])) b ∙ append-nil (concat pieces) ∙ e;
      short = empty-IsShort d.buf fs b;
      fits = fits;
    }
