-- ===== src/Link/Secure/Fragments/Tests.antt =====
-- The fragments of a message, and the theorem at one whose frame is cut in the middle.
use cdk.Prelude.{◌≡◌, refl, none, some, List, [], ◌∷◌, Text, length, take, drop, replicate, arith}
use cdk.Link.Frame.{Frame, Decoder, new, poll, frame_bytes, covered, crc32}
use cdk.Link.Secure.Fragments.{fragments, gather, chunks_from}
use cdk.Link.Secure.Fragments.Assembly.{gather-poll-fragments}

-- 2,500 bytes make three fragments.
three_fragments : length (fragments (replicate 2500 7)) ≡ 3
unfolding fragments chunks_from
three_fragments = refl

abbrev hello : Frame
hello = record { kind = 5; flags = 0; payload = 1 ∷ 2 ∷ 3 ∷ [] }

abbrev pieces : List Text
pieces = take 7 (frame_bytes hello) ∷ drop 7 (frame_bytes hello) ∷ []

gather-poll-fragments_example :
    (fs : List Frame) × (d' : Decoder) × (poll pieces new ≡ some (fs, d'))
    × (gather fs [] none ≡ some (1 ∷ 2 ∷ 3 ∷ []))
unfolding fragments new frame_bytes covered crc32
gather-poll-fragments_example =
    gather-poll-fragments (1 ∷ 2 ∷ 3 ∷ []) pieces new (omega arith) refl refl refl
