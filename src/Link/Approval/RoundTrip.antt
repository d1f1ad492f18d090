-- ===== src/Link/Approval/RoundTrip.antt =====
-- Decoding undoes encoding.
use cdk.Prelude.{ℕ, ◌^◌, ◌<◌, ◌≡◌, refl, true, [], ◌∷◌, Text, length, leb, arith, ok}
use cdk.Prelude.Bytes.{u32_le, slice-head_of, from_le-u32}
use cdk.Link.Approval.{
  Request, Part, request, decision_part, resolved, max_text, encode_request, encode_part,
  encode_resolved, decode, u32_at, decode_resolved,
}
use cdk.Link.Approval.PartTrip.{PartFits, body, tail0, tail1, tail2, tail3, decode-part_body}
use cdk.Link.Approval.RequestTrip.{
  RequestFits, request_body, after_issuer, after_quorum, after_ttl, after_digest,
  decode-request_body,
}

-- A request whose fields fit, whose text is UTF-8 and not too long, and whose quorum is not zero is
-- encoded, and decodes to itself.
pub decode-encode_request :
    (r : Request)
    → RequestFits r
    → (b : Text) × (encode_request r ≡ ok b) × (decode b ≡ ok (request r))
unfolding decode encode_request request_body after_issuer after_quorum after_ttl after_digest
decode-encode_request r f = (0x20 ∷ request_body r f, rw text_within refl, decode-request_body r f)
  where
    text_within : leb (length r.text) max_text ≡ true
    text_within = ground (arith, f.short)

-- A decision part whose fields fit, and which ends within its total, decodes to itself, and so does
-- every message that a request is resolved.
pub decode-encode_part :
    (p : Part) (id outcome : ℕ)
    → PartFits p
    → id < 2 ^ 32
    → (decode (encode_part p) ≡ ok (decision_part p))
      × (decode (encode_resolved id outcome) ≡ ok (resolved id outcome))
unfolding decode encode_part body tail0 tail1 tail2 tail3 encode_resolved decode_resolved u32_at
decode-encode_part p id outcome f l = (
  decode-part_body p f,
  rw (slice-head_of (u32_le id) (outcome ∷ []) 4 refl, from_le-u32 id l) refl,
)
