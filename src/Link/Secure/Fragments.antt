-- ===== src/Link/Secure/Fragments.antt =====
-- link/src/secure.rs: for_each_fragment and Reassembler, with send_message and wait_handshake of
-- src/link.rs.
mod Tests
pub mod Assembly
use cdk.Prelude.{
  ℕ, zero, suc, ◌+◌, ◌-◌, ◌/◌, Bool, true, false, not, ◌&&◌, Option, none, some, List, [], ◌∷◌,
  ◌++◌, Text, length, take, drop, bit_and, leb, ltb, ◌==◌, if◌then◌else◌, Result, ok, err, map,
}
use cdk.Link.Frame.{Frame, max_payload, flag_more}

abbrev pub fragment : ℕ → Text → Frame
fragment flags chunk = record { kind = 5; flags = flags; payload = chunk }

-- `msg.chunks(MAX_PAYLOAD)` from chunk `i` on; there are no more chunks than bytes.
unfoldable pub chunks_from : ℕ → ℕ → ℕ → Text → List Frame
chunks_from zero last i msg = []
chunks_from (suc fuel) last i [] = []
chunks_from (suc fuel) last i (b ∷ msg) =
    fragment (if ltb i last then flag_more else 0) (take max_payload (b ∷ msg))
    ∷ chunks_from fuel last (i + 1) (drop max_payload (b ∷ msg))

-- The frames that `send_message` sends, one for each fragment: msg.len().div_ceil(MAX_PAYLOAD).
unfoldable pub fragments : Text → List Frame
unfolding chunks_from
fragments [] = fragment 0 [] ∷ []
fragments (b ∷ msg) =
    let chunks = (length (b ∷ msg) + 1023) / max_payload in
    chunks_from (length (b ∷ msg)) (chunks - 1) 0 (b ∷ msg)

-- Reassembler::MAX
abbrev pub max_message : ℕ
max_message = 8192

pub data Oversized : Type 0 where
  oversized : Oversized

-- The bytes gathered so far are the state. The last fragment gives the whole message and clears it.
unfoldable pub push : ℕ → Text → Text → Result Oversized (Option Text) × Text
push flags chunk buf =
    if ltb max_message (length buf + length chunk)
    then (err oversized, [])
    else (if not (bit_and flags flag_more == 0)
        then (ok none, buf ++ chunk)
        else (ok (some (buf ++ chunk)), []))

-- What is done: the first whole message.
keep_first : Result Oversized (Option Text) → Option Text
keep_first (err e) = none
keep_first (ok m) = m

-- The loop body of `wait_handshake` on the frames that the decoder hands on: once a message is whole
-- the rest is dropped.
unfoldable pub gather : List Frame → Text → Option Text → Option Text
unfolding push keep_first
gather [] buf result = result
gather (f ∷ fs) buf (some m) = gather fs buf (some m)
gather (f ∷ fs) buf none =
    let r = push f.flags f.payload buf in
    gather fs (if f.kind == 5 then r.1 else buf) (if f.kind == 5 then keep_first r.0 else none)
