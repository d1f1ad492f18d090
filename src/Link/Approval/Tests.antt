-- ===== src/Link/Approval/Tests.antt =====
-- The message theorems at concrete messages.
use cdk.Prelude.{◌≡◌, refl, true, false, none, some, [], ◌∷◌, Text, replicate, arith}
use cdk.Prelude.Bytes.{is_utf8, utf8_from}
use cdk.Link.Approval.{Request, Part, Assembler, decision_parts}
use cdk.Link.Approval.PartTrip.{PartFits}
use cdk.Link.Approval.RequestTrip.{RequestFits}
use cdk.Link.Approval.Assembly.{feed, feed-decision_parts}

abbrev ask : Request
ask = record {
  id = 7;
  issuer = replicate 16 9;
  kind = 1;
  quorum = 2;
  ttl_s = 300;
  payload_digest = replicate 32 3;
  text = b'o' ∷ b'k' ∷ [];
}

ask-RequestFits : RequestFits ask
unfolding is_utf8 utf8_from
ask-RequestFits = record {
  id = omega arith;
  issuer = refl;
  kind = ground arith;
  quorum = ground arith;
  ttl = omega arith;
  digest = refl;
  text = ground arith;
  short = omega arith;
}

abbrev part : Part
part = record {
  id = 7;
  operator = replicate 16 1;
  approve = true;
  total = 4;
  offset = 2;
  bytes = 5 ∷ 6 ∷ [];
}

part-PartFits : PartFits part
part-PartFits = record {
  id = omega arith;
  operator = refl;
  total = omega arith;
  within = omega arith;
}

abbrev stale : Assembler
stale = record { key = some (3, [], false); buf = 1 ∷ 2 ∷ [] }

-- A signature of two parts.
abbrev signature : Text
signature = replicate 1000 8

feed-decision_parts_example :
    feed stale (decision_parts 7 (1 ∷ []) true signature)
    ≡ ((7, 1 ∷ [], true, signature) ∷ [], record { key = none; buf = [] })
feed-decision_parts_example =
    feed-decision_parts 7 (1 ∷ []) true signature stale (omega arith) (omega arith)
