-- ===== src/Link/Frame/Tests.antt =====
-- Tests of the frames on the inputs of the source's own tests, and the theorems at such inputs.
use cdk.Prelude.{◌≡◌, refl, text_eq, some, [], ◌∷◌, ◌++◌, Text, List, Option, take, drop, arith}
use cdk.Link.Frame.{
  Frame, crc32, frame_bytes, poll, new, Decoder, settle, next_frame, scan, find_magic, is_aligned,
  attempt, covered,
}
use cdk.Link.Frame.Total.{next_frame_total}
use cdk.Link.Frame.Sound.{next_frame-Returned, Returned}
use cdk.Link.Frame.Receive.{poll-stream}

-- crc32(b"123456789")
crc32_reference :
    crc32 (b'1' ∷ b'2' ∷ b'3' ∷ b'4' ∷ b'5' ∷ b'6' ∷ b'7' ∷ b'8' ∷ b'9' ∷ []) ≡ 0xCBF43926
unfolding crc32
crc32_reference = refl

abbrev hello : Frame
hello = record { kind = 1; flags = 0; payload = b'c' ∷ b'd' ∷ b'k' ∷ [] }

abbrev ping : Frame
ping = record { kind = 2; flags = 0; payload = [] }

abbrev noise : Text
noise = b'C' ∷ b'D' ∷ b'x' ∷ 7 ∷ []

-- A frame behind garbage.
abbrev noisy : Decoder
noisy = record { buf = noise ++ frame_bytes ping; pending = 0; stats = new.stats }

-- The same after the garbage was skipped and the frame returned.
abbrev quiet : Decoder
quiet = record {
  buf = frame_bytes ping;
  pending = 12;
  stats = record { frames = 1; crc_errors = 0; skipped = 4; oversized = 0 };
}

resyncs : next_frame noisy ≡ some (some ping, quiet)
unfolding next_frame scan find_magic is_aligned attempt frame_bytes covered crc32 new text_eq
resyncs = refl

next_frame_total_example : (r : Option Frame × Decoder) × (next_frame noisy ≡ some r)
next_frame_total_example = next_frame_total noisy

next_frame-Returned_example : Returned (settle noisy).buf ping quiet
unfolding settle new frame_bytes covered crc32
next_frame-Returned_example = next_frame-Returned noisy quiet ping (omega arith) resyncs

-- The stream of two frames, cut within the first header.
abbrev pieces : List Text
pieces = take 5 (frame_bytes hello) ∷ (drop 5 (frame_bytes hello) ++ frame_bytes ping) ∷ []

poll-stream_example :
    (d' : Decoder) × (poll pieces new ≡ some (hello ∷ ping ∷ [], d'))
    × (d'.buf ≡ [])
    × (d'.pending ≡ 0)
unfolding new frame_bytes covered crc32
poll-stream_example = poll-stream pieces (hello ∷ ping ∷ []) new (omega arith) refl refl refl
