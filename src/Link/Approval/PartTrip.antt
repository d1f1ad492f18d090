-- ===== src/Link/Approval/PartTrip.antt =====
-- Reading back the fields of an encoded decision part.
use cdk.Prelude.{
  ℕ, ◌+◌, ◌%◌, ◌^◌, ◌≤◌, ◌<◌, ◌≡◌, refl, ap, ◌∙◌, Bool, true, false, some, [], ◌∷◌, ◌++◌, Text,
  length, length-append, get_elem?, leb, ==_iff, arith, ok,
}
use cdk.Prelude.Bytes.{
  u16_le, u32_le, slice, slice-head_of, slice-skip_of, slice-all, get-skip_of, from_le-u16,
  from_le-u32,
}
use cdk.Link.Approval.{Part, decision_part, byte_of, u16_at, u32_at, approve_of, decode_part}

-- A part that `encode_decision` can make: the numbers fit their fields, and it ends within the total.
pub record PartFits (p : Part) : Type 0 where
  pub id : p.id < 2 ^ 32
  pub operator : length p.operator ≡ 16
  pub total : p.total < 2 ^ 16
  pub within : p.offset + length p.bytes ≤ p.total

module _ (p : Part) (f : PartFits p) where
  unfoldable pub tail3 : Text
  tail3 = u16_le (length p.bytes % 2 ^ 16) ++ p.bytes

  unfoldable pub tail2 : Text
  tail2 = u16_le p.offset ++ tail3

  unfoldable pub tail1 : Text
  tail1 = u16_le p.total ++ tail2

  unfoldable pub tail0 : Text
  tail0 = byte_of p.approve ∷ tail1

  unfoldable pub body : Text
  body = u32_le p.id ++ (p.operator ++ tail0)

  past : (i n : ℕ) → slice body (4 + (16 + i)) n ≡ slice tail0 i n
  unfolding body
  past i n =
      slice-skip_of (u32_le p.id) (p.operator ++ tail0) 4 (16 + i) n refl
      ∙ slice-skip_of p.operator tail0 16 i n f.operator

  length-body : length body ≡ 27 + length p.bytes
  unfolding body tail0 tail1 tail2 tail3
  length-body = omega (arith, length-append p.operator tail0, f.operator)

  read_approve : approve_of (get_elem? body 20) ≡ ok p.approve
  unfolding body tail0 approve_of
  read_approve =
      ap approve_of (
        get-skip_of (u32_le p.id) (p.operator ++ tail0) 4 16 refl
        ∙ get-skip_of p.operator tail0 16 0 f.operator)
      ∙ either p.approve
    where
      either : (b : Bool) → approve_of (some (byte_of b)) ≡ ok b
      either true = refl
      either false = refl

  read_id : slice body 0 4 ≡ some (u32_le p.id)
  unfolding body
  read_id = slice-head_of (u32_le p.id) (p.operator ++ tail0) 4 refl

  read_operator : slice body 4 16 ≡ some p.operator
  unfolding body
  read_operator =
      slice-skip_of (u32_le p.id) (p.operator ++ tail0) 4 0 16 refl
      ∙ slice-head_of p.operator tail0 16 f.operator

  read_total : slice body 21 2 ≡ some (u16_le p.total)
  unfolding tail0 tail1
  read_total =
      past 1 2
      ∙ slice-skip_of (byte_of p.approve ∷ []) tail1 1 0 2 refl
      ∙ slice-head_of (u16_le p.total) tail2 2 refl

  read_offset : slice body 23 2 ≡ some (u16_le p.offset)
  unfolding tail0 tail1 tail2
  read_offset =
      past 3 2
      ∙ slice-skip_of (byte_of p.approve ∷ u16_le p.total) tail2 3 0 2 refl
      ∙ slice-head_of (u16_le p.offset) tail3 2 refl

  fits : length p.bytes % 2 ^ 16 ≡ length p.bytes
  fits = omega (arith, f.total, f.within)

  read_length : slice body 25 2 ≡ some (u16_le (length p.bytes % 2 ^ 16))
  unfolding tail0 tail1 tail2 tail3
  read_length =
      past 5 2
      ∙ slice-skip_of (byte_of p.approve ∷ (u16_le p.total ++ u16_le p.offset)) tail3 5 0 2 refl
      ∙ slice-head_of (u16_le (length p.bytes % 2 ^ 16)) p.bytes 2 refl

  read_bytes : slice body 27 (length p.bytes) ≡ some p.bytes
  unfolding tail0 tail1 tail2 tail3
  read_bytes =
      past 7 (length p.bytes)
      ∙ slice-skip_of
          (byte_of p.approve
            ∷ (u16_le p.total ++ (u16_le p.offset ++ u16_le (length p.bytes % 2 ^ 16))))
          p.bytes 7 0 (length p.bytes) refl
      ∙ slice-all p.bytes

  ends_within : leb (p.offset + length p.bytes) p.total ≡ true
  ends_within = ground (arith, f.within)

  pub decode-part_body : decode_part body ≡ ok (decision_part p)
  unfolding decode_part u16_at u32_at tail0 tail1 tail2 tail3
  decode-part_body =
      rw
        (
          read_id,
          read_operator,
          read_approve,
          read_total,
          read_offset,
          read_length,
          from_le-u16 (length p.bytes % 2 ^ 16) (omega arith),
          fits,
          read_bytes,
          length-body,
          from_le-u16 p.total f.total,
          from_le-u16 p.offset (omega (arith, f.total, f.within)),
          from_le-u32 p.id f.id,
          (==_iff (27 + length p.bytes) (27 + length p.bytes)).1 refl,
          ends_within,
        )
        refl
