-- ===== src/Link/Frame.antt =====
-- link/src/lib.rs: the frames of the link and their decoder, with the receive loop of src/link.rs.
-- The decoder's buffer is the list of its first `len` bytes; the rest of the array is never read. The
-- counters are natural numbers.
pub mod Windows
pub mod Steps
pub mod Decode
pub mod Total
pub mod Octets
pub mod Sound
pub mod Stream
pub mod Receive
mod Tests
use Prim.Native.Nat.{bit_xor}
use cdk.Prelude.{
  ℕ, zero, suc, ◌+◌, ◌-◌, ◌/◌, ◌%◌, ◌^◌, Bool, not, Option, none, some, List, [], ◌∷◌, ◌++◌, Text,
  length, take, drop, min, bit_and, leb, ltb, ◌==◌, if◌then◌else◌, text_eq, Result, ok, fail_if,
  ◌>>=◌, ◌>>◌,
}
use cdk.Prelude.Bits.{bit_not}
use cdk.Prelude.Bytes.{u16_le, u32_le, from_le}
use mathlib.Core.Option

-- b"CDK1"
abbrev pub magic : Text
magic = b'C' ∷ b'D' ∷ b'K' ∷ b'1' ∷ []

abbrev pub max_payload : ℕ
max_payload = 1024

abbrev pub header : ℕ
header = 8

abbrev pub trailer : ℕ
trailer = 4

abbrev pub max_frame : ℕ
max_frame = header + max_payload + trailer

-- `flags` bit: more fragments of this message follow.
abbrev pub flag_more : ℕ
flag_more = 1

pub data FrameError : Type 0 where
  payload_too_large buffer_too_small : FrameError

-- One round of the inner loop: `mask` is all ones exactly if the lowest bit is set.
crc_bit : ℕ → ℕ
crc_bit crc = bit_xor (crc / 2) (bit_and 0xEDB88320 ((2 ^ 32 - crc % 2) % 2 ^ 32))

crc_bits : ℕ → ℕ → ℕ
crc_bits zero crc = crc
crc_bits (suc n) crc = crc_bits n (crc_bit crc)

crc_bytes : ℕ → Text → ℕ
crc_bytes crc [] = crc
crc_bytes crc (b ∷ bytes) = crc_bytes (crc_bits 8 (bit_xor crc b)) bytes

unfoldable pub crc32 : Text → ℕ
unfolding crc_bit crc_bits crc_bytes bit_not
crc32 bytes = bit_not 32 (crc_bytes 0xFFFFFFFF bytes)

pub record Frame : Type 0 where
  pub kind : ℕ
  pub flags : ℕ
  pub payload : Text

-- What the checksum covers: out[4..8 + payload.len()].
unfoldable pub covered : Frame → Text
covered f = f.kind ∷ f.flags ∷ (u16_le (length f.payload % 2 ^ 16) ++ f.payload)

-- out[..total]
unfoldable pub frame_bytes : Frame → Text
frame_bytes f = magic ++ (covered f ++ u32_le (crc32 (covered f)))

-- The buffer `out` after the call, with the number of bytes written to its front.
unfoldable pub encode_with_flags : ℕ → ℕ → Text → Text → Result FrameError (ℕ × Text)
encode_with_flags kind flags payload out = do
  fail_if (not (leb (length payload) max_payload)) payload_too_large
  let total = header + length payload + trailer
  fail_if (ltb (length out) total) buffer_too_small
  let frame : Frame = record { kind = kind; flags = flags; payload = payload }
  ok (total, frame_bytes frame ++ drop total out)

unfoldable pub encode : ℕ → Text → Text → Result FrameError (ℕ × Text)
unfolding encode_with_flags
encode kind payload out = encode_with_flags kind 0 payload out

pub record DecoderStats : Type 0 where
  pub frames : ℕ
  pub crc_errors : ℕ
  pub skipped : ℕ
  pub oversized : ℕ

pub record Decoder : Type 0 where
  pub buf : Text
  pub pending : ℕ
  pub stats : DecoderStats

unfoldable pub new : Decoder
new = record {
  buf = [];
  pending = 0;
  stats = record { frames = 0; crc_errors = 0; skipped = 0; oversized = 0 };
}

unfoldable pub drop_front : ℕ → Decoder → Decoder
drop_front n d = record d { buf = drop n d.buf }

unfoldable pub settle : Decoder → Decoder
unfolding drop_front
settle d = if ltb 0 d.pending then drop_front d.pending (record d { pending = 0 }) else d

-- How many bytes are accepted, and the decoder.
unfoldable pub push : Text → Decoder → ℕ × Decoder
unfolding settle
push bytes d =
    let d' = settle d in
    let n = min (length bytes) (max_frame - length d'.buf) in
    (n, record d' { buf = d'.buf ++ take n bytes })

-- The test of the closure of `find`, on the tail from one place on.
unfoldable pub is_aligned : Text → Bool
is_aligned tail = let k = min (length tail) 4 in text_eq (take k tail) (take k magic)

unfoldable pub find_magic : Text → Option ℕ
find_magic [] = none
find_magic (b ∷ s) = if is_aligned (b ∷ s) then some 0 else Option.map suc (find_magic s)

unfoldable pub skip : ℕ → Decoder → Decoder
unfolding drop_front
skip n d = drop_front n (record d { stats = record d.stats { skipped = d.stats.skipped + n } })

-- How one round of the loop ends: with `return None`, with `continue`, or with a frame.
pub data Attempt : Type 0 where
  incomplete : Decoder → Attempt
  resync : Decoder → Attempt
  found : Frame → Decoder → Attempt

-- buf[i..i + n]
abbrev pub window : ℕ → ℕ → Text → Text
window i n s = take n (drop i s)

-- buf[i]
abbrev pub byte_at : ℕ → Text → ℕ
byte_at i s = from_le (window i 1 s)

oversized : Decoder → Attempt
unfolding drop_front
oversized d =
    resync
      (drop_front 1 (record d { stats = record d.stats { oversized = d.stats.oversized + 1 } }))

crc_error : Decoder → Attempt
unfolding drop_front
crc_error d =
    resync
      (drop_front 1 (record d { stats = record d.stats { crc_errors = d.stats.crc_errors + 1 } }))

-- The rest of a round, where the buffer begins with a magic.
unfoldable pub attempt : Decoder → Attempt
unfolding oversized crc_error
attempt d =
    let plen = from_le (window 6 2 d.buf) in
    let total = header + plen + trailer in
    if ltb (length d.buf) header
    then incomplete d
    else (if not (leb plen max_payload)
        then oversized d
        else (if ltb (length d.buf) total
            then incomplete d
            else (if not (from_le (window (8 + plen) 4 d.buf) == crc32 (window 4 (4 + plen) d.buf))
                then crc_error d
                else found
                    (record {
                      kind = byte_at 4 d.buf;
                      flags = byte_at 5 d.buf;
                      payload = window header plen d.buf;
                    })
                    (record d {
                      stats = record d.stats { frames = d.stats.frames + 1 };
                      pending = total;
                    }))))

-- The loop. Each round that goes on has dropped a byte; `none` means that the fuel ran out.
unfoldable pub scan : ℕ → Decoder → Option (Option Frame × Decoder)
unfolding skip
scan zero d = none
scan (suc fuel) d = elim (find_magic d.buf) [
  | none ↦ some (none, skip (length d.buf) d)
  | some start ↦ elim (attempt (skip start d)) [
    | incomplete d' ↦ some (none, d')
    | resync d' ↦ scan fuel d'
    | found f d' ↦ some (some f, d')
  ]
]

unfoldable pub next_frame : Decoder → Option (Option Frame × Decoder)
unfolding settle
next_frame d = let d' = settle d in scan (suc (length d'.buf)) d'

-- `while let Some(frame) = dec.next_frame()`: the frames that are handed on.
unfoldable pub drain : ℕ → Decoder → Option (List Frame × Decoder)
drain zero d = none
drain (suc fuel) d = elim (next_frame d) [
  | none ↦ none
  | some (none, d') ↦ some ([], d')
  | some (some f, d') ↦ Option.map (λ (r : List Frame × Decoder). (f ∷ r.0, r.1)) (drain fuel d')
]

-- `while !bytes.is_empty()` of `poll`: push what fits, and drain.
unfoldable pub feed : ℕ → Text → Decoder → Option (List Frame × Decoder)
unfolding push
feed zero bytes d = none
feed (suc fuel) [] d = some ([], d)
feed (suc fuel) (b ∷ bytes) d =
    let (n, d1) = push (b ∷ bytes) d in
    elim (drain (suc (length d1.buf)) d1) [
      | none ↦ none
      | some (fs, d2) ↦
          Option.map (λ (r : List Frame × Decoder). (fs ++ r.0, r.1))
            (feed fuel (drop n (b ∷ bytes)) d2)
    ]

-- `poll`: the pieces of bytes that the transport holds, in turn.
unfoldable pub poll : List Text → Decoder → Option (List Frame × Decoder)
poll [] d = some ([], d)
poll (bytes ∷ pieces) d = elim (feed (suc (length bytes)) bytes d) [
  | none ↦ none
  | some (fs, d') ↦ Option.map (λ (r : List Frame × Decoder). (fs ++ r.0, r.1)) (poll pieces d')
]
