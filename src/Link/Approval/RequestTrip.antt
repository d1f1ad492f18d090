-- ===== src/Link/Approval/RequestTrip.antt =====
-- Reading back the fields of an encoded request.
use cdk.Prelude.{
  ℕ, ◌+◌, ◌%◌, ◌^◌, ◌≤◌, ◌<◌, ◌≡◌, refl, ◌∙◌, true, false, ◌&&◌, some, [], ◌∷◌, ◌++◌, Text, length,
  length-append, get_elem?, leb, ◌==◌, ==_iff, arith, ok,
}
use cdk.Prelude.Bytes.{
  u16_le, u32_le, slice, is_utf8, slice-head_of, slice-skip_of, slice-all, get-skip_of, from_le-u16,
  from_le-u32,
}
use cdk.Link.Approval.{Request, request, max_text, u16_at, u32_at, decode_request}

-- A request that `encode_request` can send and `decode` takes: the numbers fit their fields, the text
-- is UTF-8, the kind is one of two, and the quorum is not zero.
pub record RequestFits (r : Request) : Type 0 where
  pub id : r.id < 2 ^ 32
  pub issuer : length r.issuer ≡ 16
  pub kind : (leb 1 r.kind && leb r.kind 2) ≡ true
  pub quorum : (r.quorum == 0) ≡ false
  pub ttl : r.ttl_s < 2 ^ 16
  pub digest : length r.payload_digest ≡ 32
  pub text : is_utf8 r.text ≡ true
  pub short : length r.text ≤ max_text

module _ (r : Request) (f : RequestFits r) where
  unfoldable pub after_digest : Text
  after_digest = u16_le (length r.text % 2 ^ 16) ++ r.text

  unfoldable pub after_ttl : Text
  after_ttl = r.payload_digest ++ after_digest

  unfoldable pub after_quorum : Text
  after_quorum = u16_le r.ttl_s ++ after_ttl

  unfoldable pub after_issuer : Text
  after_issuer = r.kind ∷ r.quorum ∷ after_quorum

  unfoldable pub request_body : Text
  request_body = u32_le r.id ++ (r.issuer ++ after_issuer)

  past_issuer : (i n : ℕ) → slice request_body (4 + (16 + i)) n ≡ slice after_issuer i n
  unfolding request_body
  past_issuer i n =
      slice-skip_of (u32_le r.id) (r.issuer ++ after_issuer) 4 (16 + i) n refl
      ∙ slice-skip_of r.issuer after_issuer 16 i n f.issuer

  length-request_body : length request_body ≡ 58 + length r.text
  unfolding request_body after_issuer after_quorum after_ttl after_digest
  length-request_body = omega (
    arith,
    length-append r.issuer after_issuer,
    f.issuer,
    length-append r.payload_digest after_digest,
    f.digest,
  )

  past_digest :
      (i n : ℕ) → slice request_body (4 + (16 + (4 + (32 + i)))) n ≡ slice after_digest i n
  unfolding after_issuer after_quorum after_ttl
  past_digest i n =
      past_issuer (4 + (32 + i)) n
      ∙ slice-skip_of (r.kind ∷ r.quorum ∷ u16_le r.ttl_s) after_ttl 4 (32 + i) n refl
      ∙ slice-skip_of r.payload_digest after_digest 32 i n f.digest

  request_id : slice request_body 0 4 ≡ some (u32_le r.id)
  unfolding request_body
  request_id = slice-head_of (u32_le r.id) (r.issuer ++ after_issuer) 4 refl

  request_issuer : slice request_body 4 16 ≡ some r.issuer
  unfolding request_body
  request_issuer =
      slice-skip_of (u32_le r.id) (r.issuer ++ after_issuer) 4 0 16 refl
      ∙ slice-head_of r.issuer after_issuer 16 f.issuer

  request_kind : get_elem? request_body 20 ≡ some r.kind
  unfolding request_body after_issuer
  request_kind =
      get-skip_of (u32_le r.id) (r.issuer ++ after_issuer) 4 16 refl
      ∙ get-skip_of r.issuer after_issuer 16 0 f.issuer

  request_quorum : get_elem? request_body 21 ≡ some r.quorum
  unfolding request_body after_issuer
  request_quorum =
      get-skip_of (u32_le r.id) (r.issuer ++ after_issuer) 4 17 refl
      ∙ get-skip_of r.issuer after_issuer 16 1 f.issuer

  request_ttl : slice request_body 22 2 ≡ some (u16_le r.ttl_s)
  unfolding after_issuer after_quorum
  request_ttl =
      past_issuer 2 2
      ∙ slice-skip_of (r.kind ∷ r.quorum ∷ []) after_quorum 2 0 2 refl
      ∙ slice-head_of (u16_le r.ttl_s) after_ttl 2 refl

  request_digest : slice request_body 24 32 ≡ some r.payload_digest
  unfolding after_issuer after_quorum after_ttl
  request_digest =
      past_issuer 4 32
      ∙ slice-skip_of (r.kind ∷ r.quorum ∷ u16_le r.ttl_s) after_ttl 4 0 32 refl
      ∙ slice-head_of r.payload_digest after_digest 32 f.digest

  request_length : slice request_body 56 2 ≡ some (u16_le (length r.text % 2 ^ 16))
  unfolding after_digest
  request_length = past_digest 0 2 ∙ slice-head_of (u16_le (length r.text % 2 ^ 16)) r.text 2 refl

  text_fits : length r.text % 2 ^ 16 ≡ length r.text
  text_fits = omega (arith, f.short)

  request_text : slice request_body 58 (length r.text) ≡ some r.text
  unfolding after_digest
  request_text =
      past_digest 2 (length r.text)
      ∙ slice-skip_of (u16_le (length r.text % 2 ^ 16)) r.text 2 0 (length r.text) refl
      ∙ slice-all r.text

  text_within : leb (length r.text) max_text ≡ true
  text_within = ground (arith, f.short)

  pub decode-request_body : decode_request request_body ≡ ok (request r)
  unfolding decode_request u16_at u32_at
  decode-request_body =
      rw
        (
          request_id,
          request_issuer,
          request_kind,
          request_quorum,
          request_ttl,
          request_digest,
          request_length,
          from_le-u16 (length r.text % 2 ^ 16) (omega arith),
          text_fits,
          request_text,
          length-request_body,
          from_le-u16 r.ttl_s f.ttl,
          from_le-u32 r.id f.id,
          (==_iff (58 + length r.text) (58 + length r.text)).1 refl,
          text_within,
          f.kind,
          f.quorum,
          f.text,
        )
        refl
