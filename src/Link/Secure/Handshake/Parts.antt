-- ===== src/Link/Secure/Handshake/Parts.antt =====
-- What the two ends cut out of the messages of a handshake.
use cdk.Prelude.{
  ℕ, zero, suc, ◌+◌, ◌≤◌, ◌≡◌, refl, sym, ap, ◌∙◌, some, [], ◌∷◌, ◌++◌, Text, length, length-append,
  take, drop, arith,
}
use cdk.Prelude.Bytes.{take-append, drop-append}
use cdk.Link.Frame.{window, byte_at}
use cdk.Link.Frame.Windows.{window-skip, window-head, window-append_left}
use cdk.Link.Secure.Handshake.{
  Identity, Signature, identity_from, identity_bytes, signature_from, signature_bytes, Exchange,
  ClientRandom, client_hello, hello_body,
}

pub record IsIdentity (i : Identity) : Type 0 where
  pub ed : length i.ed ≡ 32
  pub ml : length i.ml ≡ 1952

pub record IsSignature (s : Signature) : Type 0 where
  pub ed : length s.ed ≡ 64
  pub ml : length s.ml ≡ 3309

pub take-front : (xs ys : Text) (n : ℕ) → length xs ≡ n → take n (xs ++ ys) ≡ xs
take-front xs ys n e = ap (λ m. take m (xs ++ ys)) (sym e) ∙ take-append xs ys

pub drop-front : (xs ys : Text) (n : ℕ) → length xs ≡ n → drop n (xs ++ ys) ≡ ys
drop-front xs ys n e =
    ap (λ m. drop m (xs ++ ys)) (let q : n ≡ length xs + 0 = omega arith in q) ∙ drop-append xs ys 0

take-whole : (xs : Text) (n : ℕ) → length xs ≡ n → take n xs ≡ xs
take-whole [] zero e = refl
take-whole [] (suc n) e = refl
take-whole (x ∷ xs) zero e = absurd (omega arith)
take-whole (x ∷ xs) (suc n) e = ap (λ t. x ∷ t) (take-whole xs n (omega arith))

pub length-identity_bytes : (i : Identity) → IsIdentity i → length (identity_bytes i) ≡ 1984
length-identity_bytes i v = omega (arith, length-append i.ed i.ml, v.ed, v.ml)

pub length-signature_bytes : (s : Signature) → IsSignature s → length (signature_bytes s) ≡ 3373
length-signature_bytes s v = omega (arith, length-append s.ed s.ml, v.ed, v.ml)

pub identity_from-identity_bytes :
    (i : Identity) → IsIdentity i → identity_from (identity_bytes i) ≡ some i
unfolding identity_from
identity_from-identity_bytes i v =
    rw (length-identity_bytes i v, take-front i.ed i.ml 32 v.ed, drop-front i.ed i.ml 32 v.ed) refl

pub signature_from-signature_bytes :
    (s : Signature) → IsSignature s → signature_from (signature_bytes s) ≡ s
unfolding signature_from
signature_from-signature_bytes s v =
    rw (take-front s.ed s.ml 64 v.ed, drop-front s.ed s.ml 64 v.ed, take-whole s.ml 3309 v.ml) refl

module _ (x : Exchange) where
  open x use {x_public, kem_public, encapsulate, length-x_public, length-kem_public}

  -- The client's first message.
  module _ (rnd : ClientRandom) (n : length rnd.nonce ≡ 32) where
    abbrev hello : Text
    hello = (client_hello x rnd).1

    abbrev tail : Text
    tail = x_public rnd.x25519 ++ kem_public rnd.kem_seed

    pub length-client_hello : length (client_hello x rnd).1 ≡ 1249
    unfolding client_hello
    length-client_hello = omega (
      arith,
      length-append rnd.nonce tail,
      length-append (x_public rnd.x25519) (kem_public rnd.kem_seed),
      length-x_public rnd.x25519,
      length-kem_public rnd.kem_seed,
    )

    pub hello_version : byte_at 0 (client_hello x rnd).1 ≡ 1
    unfolding client_hello
    hello_version = refl

    pub hello_x : window 33 32 (client_hello x rnd).1 ≡ x_public rnd.x25519
    unfolding client_hello
    hello_x =
        window-skip rnd.nonce tail 32 0 32 n
        ∙ window-head (x_public rnd.x25519) (kem_public rnd.kem_seed) 32
            (length-x_public rnd.x25519)

    pub hello_ek : drop 65 (client_hello x rnd).1 ≡ kem_public rnd.kem_seed
    unfolding client_hello
    hello_ek =
        ap (λ k. drop k (rnd.nonce ++ tail)) (let e : 64 ≡ length rnd.nonce + 32 = omega arith in e)
        ∙ drop-append rnd.nonce tail 32
        ∙ drop-front (x_public rnd.x25519) (kem_public rnd.kem_seed) 32 (length-x_public rnd.x25519)

-- The server's answer: the parts of what it signs, with a signature behind.
module _ (nonce x_pub ct : Text) (me : Identity) (s : Text) (n : length nonce ≡ 32)
    (l : length x_pub ≡ 32) (m : length ct ≡ 1088) (v : IsIdentity me) where
  abbrev body : Text
  body = hello_body nonce x_pub ct me

  pub length-hello_body : length (hello_body nonce x_pub ct me) ≡ 3136
  unfolding hello_body
  length-hello_body = omega (
    arith,
    length-append nonce (x_pub ++ (ct ++ identity_bytes me)),
    length-append x_pub (ct ++ identity_bytes me),
    length-append ct (identity_bytes me),
    length-identity_bytes me v,
  )

  pub take-hello_body : take 3136 (hello_body nonce x_pub ct me ++ s) ≡ hello_body nonce x_pub ct me
  take-hello_body = take-front body s 3136 length-hello_body

  pub drop-hello_body : drop 3136 (hello_body nonce x_pub ct me ++ s) ≡ s
  drop-hello_body = drop-front body s 3136 length-hello_body

  inner : (i k : ℕ) → i + k ≤ 3136 → window i k (body ++ s) ≡ window i k body
  inner i k h = window-append_left i k body s (omega (arith, length-hello_body))

  pub body_x : window 32 32 (hello_body nonce x_pub ct me ++ s) ≡ x_pub
  unfolding hello_body
  body_x =
      inner 32 32 (omega arith)
      ∙ window-skip nonce (x_pub ++ (ct ++ identity_bytes me)) 32 0 32 n
      ∙ window-head x_pub (ct ++ identity_bytes me) 32 l

  pub body_ct : window 64 1088 (hello_body nonce x_pub ct me ++ s) ≡ ct
  unfolding hello_body
  body_ct =
      inner 64 1088 (omega arith)
      ∙ window-skip nonce (x_pub ++ (ct ++ identity_bytes me)) 32 32 1088 n
      ∙ window-skip x_pub (ct ++ identity_bytes me) 32 0 1088 l
      ∙ window-head ct (identity_bytes me) 1088 m

  pub body_identity : window 1152 1984 (hello_body nonce x_pub ct me ++ s) ≡ identity_bytes me
  unfolding hello_body
  body_identity =
      inner 1152 1984 (omega arith)
      ∙ window-skip nonce (x_pub ++ (ct ++ identity_bytes me)) 32 1120 1984 n
      ∙ window-skip x_pub (ct ++ identity_bytes me) 32 1088 1984 l
      ∙ window-skip ct (identity_bytes me) 1088 0 1984 m
      ∙ take-whole (identity_bytes me) 1984 (length-identity_bytes me v)
