-- ===== src/Link/Approval.antt =====
-- link/src/approval.rs: the messages of a signed approval, and the assembly of a decision's parts.
pub mod PartTrip
pub mod RequestTrip
pub mod RoundTrip
pub mod Assembly
mod Tests
use cdk.Prelude.{
  ℕ, zero, suc, ◌+◌, ◌-◌, ◌*◌, ◌%◌, ◌^◌, Bool, true, false, not, ◌&&◌, ◌||◌, Option, none, some,
  List, [], ◌∷◌, ◌++◌, Text, length, get_elem?, take, drop, leb, ltb, ◌==◌, if◌then◌else◌, text_eq,
  Result, ok, err, ok_or, fail_if, ◌>>=◌, ◌>>◌,
}
use cdk.Prelude.Bytes.{u16_le, u32_le, from_le, slice, is_utf8}

abbrev pub request_tag : ℕ
request_tag = 0x20

abbrev pub decision_part_tag : ℕ
decision_part_tag = 0x21

abbrev pub resolved_tag : ℕ
resolved_tag = 0x22

-- MAX_PAYLOAD - SEAL_OVERHEAD
abbrev pub max_plaintext : ℕ
max_plaintext = 1024 - 24

abbrev pub max_text : ℕ
max_text = max_plaintext - (1 + 4 + 16 + 1 + 1 + 2 + 32 + 2)

abbrev pub part_bytes : ℕ
part_bytes = max_plaintext - (1 + 4 + 16 + 1 + 2 + 2 + 2)

pub record Request : Type 0 where
  pub id : ℕ
  pub issuer : Text
  pub kind : ℕ
  pub quorum : ℕ
  pub ttl_s : ℕ
  pub payload_digest : Text
  pub text : Text

pub record Part : Type 0 where
  pub id : ℕ
  pub operator : Text
  pub approve : Bool
  pub total : ℕ
  pub offset : ℕ
  pub bytes : Text

pub data Message : Type 0 where
  request : Request → Message
  decision_part : Part → Message
  resolved : ℕ → ℕ → Message

pub data ApprovalMsgError : Type 0 where
  malformed too_large : ApprovalMsgError

abbrev pub byte_of : Bool → ℕ
byte_of true = 1
byte_of false = 0

unfoldable pub encode_request : Request → Result ApprovalMsgError Text
encode_request r = do
  fail_if (not (leb (length r.text) max_text)) too_large
  ok (
      request_tag
      ∷ (u32_le r.id
          ++ (r.issuer
              ++ (r.kind
                  ∷ r.quorum
                  ∷ (u16_le r.ttl_s
                      ++ (r.payload_digest ++ (u16_le (length r.text % 2 ^ 16) ++ r.text)))))))

unfoldable pub encode_part : Part → Text
encode_part p =
    decision_part_tag
    ∷ (u32_le p.id
        ++ (p.operator
            ++ (byte_of p.approve
                ∷ (u16_le p.total
                    ++ (u16_le p.offset ++ (u16_le (length p.bytes % 2 ^ 16) ++ p.bytes))))))

-- `chunks(PART_BYTES)` from the part of number `i` on; there are no more parts than bytes.
unfoldable pub parts_from : ℕ → ℕ → Text → Bool → ℕ → ℕ → Text → List Part
parts_from zero id operator approve total i sig = []
parts_from (suc fuel) id operator approve total i [] = []
parts_from (suc fuel) id operator approve total i (b ∷ sig) =
    record {
      id = id;
      operator = operator;
      approve = approve;
      total = total;
      offset = i * part_bytes % 2 ^ 16;
      bytes = take part_bytes (b ∷ sig);
    }
    ∷ parts_from fuel id operator approve total (i + 1) (drop part_bytes (b ∷ sig))

-- The parts that `encode_decision` encodes, in order.
unfoldable pub decision_parts : ℕ → Text → Bool → Text → List Part
unfolding parts_from
decision_parts id operator approve sig =
    parts_from (length sig) id operator approve (length sig % 2 ^ 16) 0 sig

unfoldable pub encode_resolved : ℕ → ℕ → Text
encode_resolved id outcome = resolved_tag ∷ (u32_le id ++ (outcome ∷ []))

u16_at : Text → ℕ → Result ApprovalMsgError ℕ
u16_at s i = do b ← ok_or (slice s i 2) malformed; ok (from_le b)

u32_at : Text → ℕ → Result ApprovalMsgError ℕ
u32_at s i = do b ← ok_or (slice s i 4) malformed; ok (from_le b)

unfoldable pub decode_request : Text → Result ApprovalMsgError Message
unfolding u16_at u32_at
decode_request r = do
  id ← u32_at r 0
  issuer ← ok_or (slice r 4 16) malformed
  kind ← ok_or (get_elem? r 20) malformed
  quorum ← ok_or (get_elem? r 21) malformed
  ttl_s ← u16_at r 22
  payload_digest ← ok_or (slice r 24 32) malformed
  len ← u16_at r 56
  text ← ok_or (slice r 58 len) malformed
  fail_if
      (not (length r == 58 + len)
        || (not (leb len max_text) || (not (leb 1 kind && leb kind 2) || quorum == 0)))
      malformed
  fail_if (not (is_utf8 text)) malformed
  ok (
      request (record {
        id = id;
        issuer = issuer;
        kind = kind;
        quorum = quorum;
        ttl_s = ttl_s;
        payload_digest = payload_digest;
        text = text;
      }))

approve_of : Option ℕ → Result ApprovalMsgError Bool
approve_of none = err malformed
approve_of (some b) = if b == 0 then ok false else (if b == 1 then ok true else err malformed)

unfoldable pub decode_part : Text → Result ApprovalMsgError Message
unfolding u16_at u32_at approve_of
decode_part r = do
  id ← u32_at r 0
  operator ← ok_or (slice r 4 16) malformed
  approve ← approve_of (get_elem? r 20)
  total ← u16_at r 21
  offset ← u16_at r 23
  len ← u16_at r 25
  bytes ← ok_or (slice r 27 len) malformed
  fail_if (not (length r == 27 + len) || not (leb (offset + len) total)) malformed
  ok (
      decision_part (record {
        id = id;
        operator = operator;
        approve = approve;
        total = total;
        offset = offset;
        bytes = bytes;
      }))

decode_resolved : Text → Result ApprovalMsgError Message
unfolding u32_at
decode_resolved r = do
  id ← u32_at r 0
  outcome ← ok_or (get_elem? r 4) malformed
  ok (resolved id outcome)

unfoldable pub decode : Text → Result ApprovalMsgError Message
unfolding decode_request decode_part decode_resolved
decode [] = err malformed
decode (tag ∷ r) =
    if tag == request_tag
    then decode_request r
    else (if tag == decision_part_tag
        then decode_part r
        else (if tag == resolved_tag && length r == 5 then decode_resolved r else err malformed))

pub record Assembler : Type 0 where
  pub key : Option (ℕ × Text × Bool)
  pub buf : Text

unfoldable pub new : Assembler
new = record { key = none; buf = [] }

abbrev pub bool_eq : Bool → Bool → Bool
bool_eq true b = b
bool_eq false b = not b

abbrev pub same_key : Option (ℕ × Text × Bool) → Part → Bool
same_key none p = false
same_key (some (id, operator, approve)) p =
    id == p.id && (text_eq operator p.operator && bool_eq approve p.approve)

append_part : Part → Assembler → Option (ℕ × Text × Bool × Text) × Assembler
append_part p a =
    if length (a.buf ++ p.bytes) == p.total
    then (some (p.id, p.operator, p.approve, a.buf ++ p.bytes), record { key = none; buf = [] })
    else (none, record a { buf = a.buf ++ p.bytes })

unfoldable pub push : Part → Assembler → Option (ℕ × Text × Bool × Text) × Assembler
unfolding append_part
push p a =
    let restarted : Assembler = record { key = some (p.id, p.operator, p.approve); buf = [] } in
    if p.offset == 0 || (not (same_key a.key p) || not (length a.buf == p.offset))
    then (if not (p.offset == 0) then (none, restarted) else append_part p restarted)
    else append_part p a
