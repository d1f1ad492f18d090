-- ===== src/Link/Secure/Session.antt =====
-- link/src/secure.rs: Session. The AEAD is a pair of functions of key, nonce, associated data and
-- text; a sealed message is seq, ciphertext and tag. With recv of src/link.rs, on the frames that the
-- decoder hands on.
pub mod Open
pub mod Channel
pub mod Toy
mod Tests
use cdk.Prelude.{
  ℕ, ◌+◌, ◌-◌, ◌^◌, ◌≡◌, not, Option, none, some, List, [], ◌∷◌, ◌++◌, Text, length, take, drop,
  leb, ltb, ◌==◌, if◌then◌else◌, Result, ok, err, ok_or, fail_if, ◌>>=◌, ◌>>◌,
}
use cdk.Prelude.Bytes.{u64_le, from_le}
use cdk.Link.Frame.{Frame}

-- MAX_PAYLOAD - SEAL_OVERHEAD
abbrev pub seal_overhead : ℕ
seal_overhead = 8 + 16

abbrev pub max_plaintext : ℕ
max_plaintext = 1024 - seal_overhead

pub data SealError : Type 0 where
  too_large buffer_too_small sequence auth exhausted : SealError

-- ChaCha20-Poly1305: what the code relies on.
pub record Aead : Type 1 where
  pub Key : Type 0
  -- The ciphertext and the tag, for a key, a nonce, the associated data and a plaintext.
  pub encrypt : Key → Text → Text → Text → Text × Text
  -- The plaintext, if the tag is right.
  pub decrypt : Key → Text → Text → Text → Text → Option Text
  pub length-ciphertext : (k : Key) (n a p : Text) → length (encrypt k n a p).0 ≡ length p
  pub length-tag : (k : Key) (n a p : Text) → length (encrypt k n a p).1 ≡ 16
  pub decrypt-encrypt :
      (k : Key) (n a p : Text) → decrypt k n a (encrypt k n a p).0 (encrypt k n a p).1 ≡ some p
  -- What decrypts under a tag of 16 bytes is what encrypting gives.
  pub encrypt-decrypt :
      (k : Key) (n a cipher tag p : Text)
      → length tag ≡ 16
      → decrypt k n a cipher tag ≡ some p
      → encrypt k n a p ≡ (cipher, tag)

-- b"CDK-LINK-v1"
abbrev pub protocol : Text
protocol = b'C' ∷ b'D' ∷ b'K' ∷ b'-' ∷ b'L' ∷ b'I' ∷ b'N' ∷ b'K' ∷ b'-' ∷ b'v' ∷ b'1' ∷ []

unfoldable pub nonce : ℕ → Text
nonce seq = 0 ∷ 0 ∷ 0 ∷ 0 ∷ u64_le seq

unfoldable pub aad : ℕ → Text
aad seq = protocol ++ u64_le seq

-- kind::SEALED
abbrev pub sealed_kind : ℕ
sealed_kind = 6

module _ (c : Aead) where
  open c use {Key, encrypt, decrypt}

  pub record Session : Type 0 where
    pub tx : Key
    pub rx : Key
    pub tx_seq : ℕ
    pub rx_seq : ℕ

  unfoldable pub new : Key → Key → Session
  new tx rx = record { tx = tx; rx = rx; tx_seq = 0; rx_seq = 0 }

  -- The message with number `seq` that carries a text.
  unfoldable pub message : Key → ℕ → Text → Text
  unfolding nonce aad
  message k seq plaintext =
      let sealed = encrypt k (nonce seq) (aad seq) plaintext in u64_le seq ++ (sealed.0 ++ sealed.1)

  -- The sealed message, with the session after it. `room` is the length of the output buffer.
  unfoldable pub seal : Text → ℕ → Session → Result SealError (Text × Session)
  unfolding message
  seal plaintext room s = do
    fail_if (not (leb (length plaintext) max_plaintext)) too_large
    fail_if (ltb room (8 + length plaintext + 16)) buffer_too_small
    fail_if (s.tx_seq == 2 ^ 64 - 1) exhausted
    ok (message s.tx s.tx_seq plaintext, record s { tx_seq = s.tx_seq + 1 })

  unfoldable pub open_sealed : Text → ℕ → Session → Result SealError (Text × Session)
  unfolding nonce aad
  open_sealed sealed room s = do
    fail_if (ltb (length sealed) seal_overhead) auth
    let n = length sealed - seal_overhead
    fail_if (ltb room n) buffer_too_small
    let seq = from_le (take 8 sealed)
    fail_if (not (seq == s.rx_seq)) sequence
    plain ←
        ok_or (decrypt s.rx (nonce seq) (aad seq) (take n (drop 8 sealed)) (drop (8 + n) sealed))
          auth
    ok (plain, record s { rx_seq = s.rx_seq + 1 })

  pub data Incoming : Type 0 where
    plain : ℕ → Text → Incoming
    sealed : Text → Incoming
    rejected : SealError → Incoming

  -- A sealed frame that is opened, and the session after it.
  opened : Result SealError (Text × Session) → Session → Incoming × Session
  opened (ok (p, s')) s = (sealed p, s')
  opened (err e) s = (rejected e, s)

  -- The closure of `recv` on one frame: without a session a sealed frame is rejected.
  unfoldable pub receive : Frame → Option Session → Incoming × Option Session
  unfolding opened
  receive f none =
      if f.kind == sealed_kind then (rejected auth, none) else (plain f.kind f.payload, none)
  receive f (some s) =
      if not (f.kind == sealed_kind)
      then (plain f.kind f.payload, some s)
      else (let r = opened (open_sealed f.payload 1024 s) s in (r.0, some r.1))

  -- `recv`, on the frames that `poll` hands on.
  unfoldable pub recv : List Frame → Option Session → List Incoming × Option Session
  unfolding receive
  recv [] s = ([], s)
  recv (f ∷ fs) s = let (i, s1) = receive f s in let (is, s2) = recv fs s1 in (i ∷ is, s2)

  -- `send_data`: the kind and the payload of the frame that is sent, and the session.
  unfoldable pub send_data : Text → Option Session → Result SealError (ℕ × Text × Option Session)
  send_data bytes none = ok (4, bytes, none)
  send_data bytes (some s) = do (m, s') ← seal bytes 1024 s; ok (sealed_kind, m, some s')
