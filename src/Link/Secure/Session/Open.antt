-- ===== src/Link/Secure/Session/Open.antt =====
-- What a session opens: exactly the message of the next number, and never one a second time.
use mathlib.Core.Logic.{inl, inr}
use cdk.Prelude.{
  ℕ, ◌+◌, ◌-◌, ◌^◌, ◌≤◌, ◌<◌, ◌≡◌, ◌≢◌, refl, sym, ap, ◌∙◌, false, some, ◌++◌, Text, length,
  length-append, length-take, length-drop, take, drop, take-append-drop, ltb, ==_iff, ok, err,
  arith, Result-cases,
}
use cdk.Prelude.Bytes.{u64_le, from_le, from_le-u64, take-append, drop-append}
use cdk.Link.Frame.Octets.{AreBytes, bytes_take, eight_bytes}
use cdk.Link.Frame.Windows.{drop-drop}
use cdk.Link.Secure.Session.{
  Aead, Session, SealError, seal, open_sealed, message, nonce, aad, max_plaintext,
}

module _ (c : Aead) where
  open c use {
    Key, encrypt, decrypt, length-ciphertext, length-tag, decrypt-encrypt, encrypt-decrypt,
  }

  pub length-message : (k : Key) (seq : ℕ) (p : Text) → length (message c k seq p) ≡ 24 + length p
  unfolding message
  length-message k seq p = omega (
    arith,
    length-append (encrypt k (nonce seq) (aad seq) p).0 (encrypt k (nonce seq) (aad seq) p).1,
    length-ciphertext k (nonce seq) (aad seq) p,
    length-tag k (nonce seq) (aad seq) p,
  )

  -- The parts of a sealed message that `open` cuts out.
  module _ (k : Key) (seq : ℕ) (p : Text) where
    abbrev cipher : Text
    cipher = (encrypt k (nonce seq) (aad seq) p).0

    abbrev tag : Text
    tag = (encrypt k (nonce seq) (aad seq) p).1

    read_seq : take 8 (message c k seq p) ≡ u64_le seq
    unfolding message
    read_seq = refl

    read_cipher : take (length p) (drop 8 (message c k seq p)) ≡ cipher
    unfolding message
    read_cipher =
        ap (λ n. take n (cipher ++ tag)) (sym (length-ciphertext k (nonce seq) (aad seq) p))
        ∙ take-append cipher tag

    read_tag : drop (8 + length p) (message c k seq p) ≡ tag
    unfolding message
    read_tag =
        sym (drop-drop 8 (length p) (message c k seq p))
        ∙ ap (λ n. drop n (cipher ++ tag))
            (let e : length p ≡ length cipher + 0 =
                omega (arith, length-ciphertext k (nonce seq) (aad seq) p) in
              e)
        ∙ drop-append cipher tag 0

  -- The message of the next number opens to its text, in a buffer that is large enough.
  pub open_sealed-message :
      (p : Text) (room : ℕ) (s : Session c)
      → length p ≤ room
      → s.rx_seq < 2 ^ 64
      → open_sealed c (message c s.rx s.rx_seq p) room s
        ≡ ok (p, record s { rx_seq = s.rx_seq + 1 })
  unfolding open_sealed
  open_sealed-message p room s l h =
      rw
        (
          length-message s.rx s.rx_seq p,
          (let e : 24 + length p - 24 ≡ length p = omega arith in e),
          (let e : ltb room (length p) ≡ false = ground arith in e),
          (let e : ltb (24 + length p) 24 ≡ false = ground arith in e),
          read_seq s.rx s.rx_seq p,
          from_le-u64 s.rx_seq h,
          (==_iff s.rx_seq s.rx_seq).1 refl,
          read_cipher s.rx s.rx_seq p,
          read_tag s.rx s.rx_seq p,
          decrypt-encrypt s.rx (nonce s.rx_seq) (aad s.rx_seq) p,
        )
        refl

  -- What `open` has checked where it succeeds.
  record Opened (m p : Text) (s s' : Session c) : Type 0 where
    long : 24 ≤ length m
    next : from_le (take 8 m) ≡ s.rx_seq
    plain :
        decrypt s.rx
          (nonce s.rx_seq)
          (aad s.rx_seq)
          (take (length m - 24) (drop 8 m))
          (drop (8 + (length m - 24)) m)
        ≡ some p
    after : s' ≡ record s { rx_seq = s.rx_seq + 1 }

  open_sealed-Opened :
      (m p : Text) (room : ℕ) (s s' : Session c)
      → open_sealed c m room s ≡ ok (p, s')
      → Opened m p s s'
  unfolding open_sealed
  open_sealed-Opened m p room s s' e = ground arith

  -- What opens is exactly the message of the next number, with the text that it opens to, and the
  -- session then expects the number after it.
  pub open_sealed_sound :
      (m p : Text) (room : ℕ) (s s' : Session c)
      → AreBytes m
      → open_sealed c m room s ≡ ok (p, s')
      → (m ≡ message c s.rx s.rx_seq p) × (s' ≡ record s { rx_seq = s.rx_seq + 1 })
  unfolding message
  open_sealed_sound m p room s s' b e =
      let o : Opened m p s s' = open_sealed-Opened m p room s s' e in
      let n : ℕ = length m - 24 in
      let cut : encrypt s.rx (nonce s.rx_seq) (aad s.rx_seq) p
          ≡ (take n (drop 8 m), drop (8 + n) m) =
        encrypt-decrypt s.rx (nonce s.rx_seq) (aad s.rx_seq) (take n (drop 8 m)) (drop (8 + n) m) p
          (omega (arith, length-drop (8 + n) m, o.long)) o.plain in
      let front : u64_le s.rx_seq ≡ take 8 m =
        ap u64_le (sym o.next)
        ∙ eight_bytes (take 8 m) (bytes_take 8 m b) (omega (arith, length-take 8 m, o.long)) in
      let rest : take n (drop 8 m) ++ drop (8 + n) m ≡ drop 8 m =
        ap (λ t. take n (drop 8 m) ++ t) (sym (drop-drop 8 n m)) ∙ take-append-drop n (drop 8 m) in
      (
        sym (take-append-drop 8 m)
            ∙ (λ i. sym front i ++ (sym rest i))
            ∙ ap (λ (r : Text × Text). u64_le s.rx_seq ++ (r.0 ++ r.1)) (sym cut),
        o.after,
      )

  -- A session in use: it seals and opens, in any order, whatever arrives.
  pub data Uses (s : Session c) : Session c → Type 0 where
    unused : Uses s s
    sealing :
        {s1 s2 : Session c} (p m : Text) (room : ℕ)
        → Uses s s1
        → seal c p room s1 ≡ ok (m, s2)
        → Uses s s2
    opening :
        {s1 s2 : Session c} (m p : Text) (room : ℕ)
        → Uses s s1
        → open_sealed c m room s1 ≡ ok (p, s2)
        → Uses s s2

  seal-rx_seq :
      (p m : Text) (room : ℕ) (s s' : Session c)
      → seal c p room s ≡ ok (m, s')
      → s'.rx_seq ≡ s.rx_seq
  unfolding seal
  seal-rx_seq p m room s s' e = ground arith

  Uses-le : {s s' : Session c} → Uses s s' → s.rx_seq ≤ s'.rx_seq
  Uses-le unused = omega arith
  Uses-le (sealing {s1} {s2} p m room u e) = omega (arith, Uses-le u, seal-rx_seq p m room s1 s2 e)
  Uses-le (opening {s1} {s2} m p room u e) =
      let o : Opened m p s1 s2 = open_sealed-Opened m p room s1 s2 e in
      omega (arith, Uses-le u, ap (λ (t : Session c). t.rx_seq) o.after)

  -- A message that was opened once is never opened again by the session, whatever was sealed and
  -- opened since.
  pub open_sealed-replayed :
      (m p : Text) (room room' : ℕ) (s s1 s2 : Session c)
      → open_sealed c m room s ≡ ok (p, s1)
      → Uses s1 s2
      → (e : SealError) × (open_sealed c m room' s2 ≡ err e)
  open_sealed-replayed m p room room' s s1 s2 e u = elim (Result-cases (open_sealed c m room' s2)) [
    | inr (why, r) ↦ (why, r)
    | inl ((p', s3), r) ↦
        let first : Opened m p s s1 = open_sealed-Opened m p room s s1 e in
        let second : Opened m p' s2 s3 = open_sealed-Opened m p' room' s2 s3 r in
        absurd (
          omega (
            arith,
            first.next,
            second.next,
            ap (λ (t : Session c). t.rx_seq) first.after,
            Uses-le u,
          ))
  ]

  -- What `seal` has done where it succeeds.
  pub record Sealed (p m : Text) (s s' : Session c) : Type 0 where
    pub fits : length p ≤ max_plaintext
    pub left : s.tx_seq ≢ 2 ^ 64 - 1
    pub text : m ≡ message c s.tx s.tx_seq p
    pub after : s' ≡ record s { tx_seq = s.tx_seq + 1 }

  pub seal-Sealed :
      (p m : Text) (room : ℕ) (s s' : Session c) → seal c p room s ≡ ok (m, s') → Sealed p m s s'
  unfolding seal
  seal-Sealed p m room s s' e = ground arith

  open_sealed-tx_seq :
      (m p : Text) (room : ℕ) (s s' : Session c)
      → open_sealed c m room s ≡ ok (p, s')
      → s'.tx_seq ≡ s.tx_seq
  unfolding open_sealed
  open_sealed-tx_seq m p room s s' e = ground arith

  Uses-tx :
      {s s' : Session c}
      → Uses s s'
      → s.tx_seq < 2 ^ 64
      → (s.tx_seq ≤ s'.tx_seq) × (s'.tx_seq < 2 ^ 64)
  Uses-tx unused h = (omega arith, h)
  Uses-tx (sealing {s1} {s2} p m room u e) h =
      let o : Sealed p m s1 s2 = seal-Sealed p m room s1 s2 e in
      let (l, k) = Uses-tx u h in
      let q : s2.tx_seq ≡ s1.tx_seq + 1 = ap (λ (t : Session c). t.tx_seq) o.after in
      (omega arith, omega (arith, o.left))
  Uses-tx (opening {s1} {s2} m p room u e) h =
      let (l, k) = Uses-tx u h in
      let q : s2.tx_seq ≡ s1.tx_seq = open_sealed-tx_seq m p room s1 s2 e in
      (omega arith, omega arith)

  -- No nonce serves twice: two messages that a session with a 64-bit counter seals, with any use of it between them, have
  -- different nonces, since the session refuses to seal once its counter is at the end.
  pub seal-nonce :
      (p m p' m' : Text) (room room' : ℕ) (s s1 s2 s3 : Session c)
      → s.tx_seq < 2 ^ 64
      → seal c p room s ≡ ok (m, s1)
      → Uses s1 s2
      → seal c p' room' s2 ≡ ok (m', s3)
      → (m ≡ message c s.tx s.tx_seq p)
        × (m' ≡ message c s2.tx s2.tx_seq p')
        × (nonce s.tx_seq ≢ nonce s2.tx_seq)
  unfolding nonce
  seal-nonce p m p' m' room room' s s1 s2 s3 h e u e' =
      let a : Sealed p m s s1 = seal-Sealed p m room s s1 e in
      let b : Sealed p' m' s2 s3 = seal-Sealed p' m' room' s2 s3 e' in
      let q : s1.tx_seq ≡ s.tx_seq + 1 = ap (λ (t : Session c). t.tx_seq) a.after in
      let (l, k) = Uses-tx u (omega (arith, a.left)) in
      (
        a.text,
        b.text,
        λ same. omega (
          arith,
          from_le-u64 s.tx_seq h,
          from_le-u64 s2.tx_seq k,
          ap (λ t. from_le (drop 4 t)) same,
        ),
      )
