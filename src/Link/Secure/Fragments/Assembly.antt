-- ===== src/Link/Secure/Fragments/Assembly.antt =====
-- A handshake message of at most 8192 bytes arrives whole.
use mathlib.Core.List.{append_assoc}
use mathlib.Core.Logic.{inl, inr}
use cdk.Prelude.{
  ℕ, zero, suc, ◌+◌, ◌-◌, ◌*◌, ◌/◌, ◌≤◌, ◌<◌, ◌≡◌, refl, ap, ◌∙◌, true, false, none, some, List, [],
  ◌∷◌, ◌++◌, Text, length, length-append, length-take, length-drop, take, drop, take-append-drop,
  ltb, ltb→lt, arith, Bool-cases, All,
}
use cdk.Link.Frame.{Frame, max_payload, flag_more, Decoder, poll}
use cdk.Link.Frame.Decode.{Fits}
use cdk.Link.Frame.Stream.{stream, concat}
use cdk.Link.Frame.Receive.{poll-stream}
use cdk.Link.Secure.Fragments.{fragment, chunks_from, fragments, max_message, gather}

gather_done : (fs : List Frame) (buf m : Text) → gather fs buf (some m) ≡ some m
unfolding gather
gather_done [] buf m = refl
gather_done (f ∷ fs) buf m = gather_done fs buf m

gather_more :
    (chunk buf : Text) (fs : List Frame)
    → length buf + length chunk ≤ max_message
    → gather (fragment flag_more chunk ∷ fs) buf none ≡ gather fs (buf ++ chunk) none
unfolding gather
gather_more chunk buf fs h =
    let e : ltb max_message (length buf + length chunk) ≡ false = ground arith in rw e refl

gather_last :
    (chunk buf : Text) (fs : List Frame)
    → length buf + length chunk ≤ max_message
    → gather (fragment 0 chunk ∷ fs) buf none ≡ some (buf ++ chunk)
unfolding gather
gather_last chunk buf fs h =
    let e : ltb max_message (length buf + length chunk) ≡ false = ground arith in
    rw e (gather_done fs [] (buf ++ chunk))

take_whole : (n : ℕ) (s : Text) → length s ≤ n → take n s ≡ s
take_whole zero [] h = refl
take_whole zero (b ∷ s) h = absurd (omega arith)
take_whole (suc n) [] h = refl
take_whole (suc n) (b ∷ s) h = ap (λ t. b ∷ t) (take_whole n s (omega arith))

chunks_more :
    (fuel last i b : ℕ) (msg : Text)
    → ltb i last ≡ true
    → chunks_from (suc fuel) last i (b ∷ msg)
      ≡ fragment flag_more (take max_payload (b ∷ msg))
        ∷ chunks_from fuel last (i + 1) (drop max_payload (b ∷ msg))
unfolding chunks_from
chunks_more fuel last i b msg e = rw e refl

chunks_last :
    (fuel last i b : ℕ) (msg : Text)
    → ltb i last ≡ false
    → chunks_from (suc fuel) last i (b ∷ msg)
      ≡ fragment 0 (take max_payload (b ∷ msg))
        ∷ chunks_from fuel last (i + 1) (drop max_payload (b ∷ msg))
unfolding chunks_from
chunks_last fuel last i b msg e = rw e refl

-- From chunk `i` on: `last` is the number of the chunk in which the message ends.
gather-chunks_from :
    (fuel last i : ℕ) (msg buf : Text)
    → 0 < length msg
    → length msg ≤ fuel
    → length buf + length msg ≤ max_message
    → 1024 * last < 1024 * i + length msg
    → 1024 * i + length msg ≤ 1024 * last + 1024
    → gather (chunks_from fuel last i msg) buf none ≡ some (buf ++ msg)
gather-chunks_from fuel last i [] buf n f l p q = absurd (omega arith)
gather-chunks_from zero last i (b ∷ msg) buf n f l p q = absurd (omega arith)
gather-chunks_from (suc fuel) last i (b ∷ msg) buf n f l p q = elim (Bool-cases (ltb i last)) [
  | inl more ↦
      let lt : i < last = ltb→lt _ _ more in
      ap (λ fs. gather fs buf none) (chunks_more fuel last i b msg more)
      ∙ gather_more (take max_payload (b ∷ msg)) buf _
          (omega (arith, length-take max_payload (b ∷ msg)))
      ∙ gather-chunks_from fuel last (i + 1) (drop max_payload (b ∷ msg))
          (buf ++ take max_payload (b ∷ msg)) (omega (arith, length-drop max_payload (b ∷ msg)))
          (omega (arith, length-drop max_payload (b ∷ msg)))
          (omega (
            arith,
            length-drop max_payload (b ∷ msg),
            length-append buf (take max_payload (b ∷ msg)),
            length-take max_payload (b ∷ msg),
          ))
          (omega (arith, length-drop max_payload (b ∷ msg)))
          (omega (arith, length-drop max_payload (b ∷ msg)))
      ∙ ap some (
          append_assoc buf (take max_payload (b ∷ msg)) (drop max_payload (b ∷ msg))
          ∙ ap (λ t. buf ++ t) (take-append-drop max_payload (b ∷ msg)))
  | inr end ↦
      let le : last ≤ i = ground arith in
      let whole : take max_payload (b ∷ msg) ≡ b ∷ msg =
        take_whole max_payload (b ∷ msg) (omega arith) in
      ap (λ fs. gather fs buf none) (chunks_last fuel last i b msg end)
      ∙ gather_last (take max_payload (b ∷ msg)) buf _ (omega (arith, ap length whole))
      ∙ ap (λ t. some (buf ++ t)) whole
]

gather-fragments :
    (msg : Text) → length msg ≤ max_message → gather (fragments msg) [] none ≡ some msg
unfolding fragments
gather-fragments [] h = gather_last [] [] [] (omega arith)
gather-fragments (b ∷ msg) h =
    gather-chunks_from (length (b ∷ msg)) ((length (b ∷ msg) + 1023) / max_payload - 1) 0 (b ∷ msg)
      [] (omega arith) (omega arith) (omega arith) (omega arith) (omega arith)

chunks_from-Fits : (fuel last i : ℕ) (msg : Text) → All Fits (chunks_from fuel last i msg)
unfolding chunks_from
chunks_from-Fits zero last i msg = tt
chunks_from-Fits (suc fuel) last i [] = tt
chunks_from-Fits (suc fuel) last i (b ∷ msg) = (
  omega (arith, length-take max_payload (b ∷ msg)),
  chunks_from-Fits fuel last (i + 1) (drop max_payload (b ∷ msg)),
)

fragments-Fits : (msg : Text) → All Fits (fragments msg)
unfolding fragments
fragments-Fits [] = (omega arith, tt)
fragments-Fits (b ∷ msg) = chunks_from-Fits (length (b ∷ msg)) _ 0 (b ∷ msg)

-- A handshake message of at most 8192 bytes that one side sends as fragments in frames, handed over
-- by the transport in any pieces, comes out of the other side's decoder and reassembler whole.
pub gather-poll-fragments :
    (msg : Text) (pieces : List Text) (d : Decoder)
    → length msg ≤ max_message
    → concat pieces ≡ stream (fragments msg)
    → d.buf ≡ []
    → d.pending ≡ 0
    → (fs : List Frame) × (d' : Decoder) × (poll pieces d ≡ some (fs, d'))
      × (gather fs [] none ≡ some msg)
gather-poll-fragments msg pieces d h e b p =
    let (d', r, empty, idle) = poll-stream pieces (fragments msg) d (fragments-Fits msg) e b p in
    (fragments msg, d', r, gather-fragments msg h)
