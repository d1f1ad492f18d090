-- ===== src/Link/Secure/Handshake.antt =====
-- link/src/secure.rs: the handshake that authenticates both ends and agrees on the keys of a session.
-- X25519, ML-KEM-768, SHA-256 and HKDF are parameters; a signature is what the caller's `sign` gives
-- and its `trust` admits. An array of fixed size is a list with a law on its length.
pub mod Parts
pub mod Ends
pub mod Agree
pub mod Establish
pub mod Toy
mod Tests
use cdk.Prelude.{
  ℕ, ◌+◌, ◌≡◌, Bool, true, not, Option, none, some, List, [], ◌∷◌, ◌++◌, Text, length, take, drop,
  ◌==◌, if◌then◌else◌, Result, ok, err, ok_or, fail_if, ◌>>=◌, ◌>>◌,
}
use cdk.Prelude.Split.{codes}
use cdk.Link.Frame.{window, byte_at}
use cdk.Link.Secure.Session.{Aead, Session, protocol}
use cdk.Link.Secure.Session

abbrev pub version : ℕ
version = 1

abbrev pub nonce_len : ℕ
nonce_len = 32

abbrev pub x25519_len : ℕ
x25519_len = 32

abbrev pub kem_ek_len : ℕ
kem_ek_len = 1184

abbrev pub kem_ct_len : ℕ
kem_ct_len = 1088

abbrev pub ed_pub_len : ℕ
ed_pub_len = 32

abbrev pub ml_pub_len : ℕ
ml_pub_len = 1952

abbrev pub ed_sig_len : ℕ
ed_sig_len = 64

abbrev pub ml_sig_len : ℕ
ml_sig_len = 3309

abbrev pub identity_len : ℕ
identity_len = ed_pub_len + ml_pub_len

abbrev pub sig_len : ℕ
sig_len = ed_sig_len + ml_sig_len

abbrev pub ch_len : ℕ
ch_len = 1 + nonce_len + x25519_len + kem_ek_len

abbrev pub sh_unsigned : ℕ
sh_unsigned = nonce_len + x25519_len + kem_ct_len + identity_len

abbrev pub sh_len : ℕ
sh_len = sh_unsigned + sig_len

abbrev pub cf_len : ℕ
cf_len = identity_len + sig_len

pub data HsError : Type 0 where
  bad_length bad_version bad_key server_auth client_auth : HsError

pub record Identity : Type 0 where
  pub ed : Text
  pub ml : Text

pub record Signature : Type 0 where
  pub ed : Text
  pub ml : Text

-- `Identity::from_bytes` and `Identity::write_to`
unfoldable pub identity_from : Text → Option Identity
identity_from b =
    if not (length b == identity_len)
    then none
    else some (record { ed = take ed_pub_len b; ml = drop ed_pub_len b })

abbrev pub identity_bytes : Identity → Text
identity_bytes i = i.ed ++ i.ml

-- `Signature::from_bytes` and `Signature::write_to`
unfoldable pub signature_from : Text → Signature
signature_from b = record { ed = take ed_sig_len b; ml = window ed_sig_len ml_sig_len b }

abbrev pub signature_bytes : Signature → Text
signature_bytes s = s.ed ++ s.ml

-- What the code relies on: the two sides of X25519 and of ML-KEM agree on their secrets, and values
-- have their sizes.
pub record Exchange : Type 0 where
  pub x_public : Text → Text
  pub diffie_hellman : Text → Text → Text
  pub kem_public : Text → Text
  -- The test of `EncapsulationKey::new`.
  pub is_kem_key : Text → Bool
  -- The ciphertext and the shared secret.
  pub encapsulate : Text → Text → Text × Text
  pub decapsulate : Text → Text → Text
  pub sha256 : Text → Text
  -- The salt, the secret, and the label that is expanded to 32 bytes.
  pub hkdf : Text → Text → Text → Text
  pub length-x_public : (s : Text) → length (x_public s) ≡ x25519_len
  pub length-kem_public : (s : Text) → length (kem_public s) ≡ kem_ek_len
  pub length-ciphertext : (k m : Text) → length (encapsulate k m).0 ≡ kem_ct_len
  pub dh_comm : (a b : Text) → diffie_hellman a (x_public b) ≡ diffie_hellman b (x_public a)
  pub is_kem_key-kem_public : (s : Text) → is_kem_key (kem_public s) ≡ true
  pub decapsulate-encapsulate :
      (s m : Text)
      → decapsulate s (encapsulate (kem_public s) m).0 ≡ (encapsulate (kem_public s) m).1

pub record ClientRandom : Type 0 where
  pub x25519 : Text
  pub kem_seed : Text
  pub nonce : Text

pub record ServerRandom : Type 0 where
  pub x25519 : Text
  pub kem_m : Text
  pub nonce : Text

pub record ClientState : Type 0 where
  pub x_secret : Text
  pub dk : Text
  pub ch : Text

pub record ServerState : Type 0 where
  pub ch : Text
  pub sh : Text
  pub x_ss : Text
  pub kem_ss : Text

-- What a digest is taken of: the parts stand behind each other.
unfoldable pub digest_message : Text → Text → Text
digest_message label parts = protocol ++ (b' ' ∷ (label ++ parts))

-- sh[..SH_UNSIGNED] of the server's answer.
unfoldable pub hello_body : Text → Text → Text → Identity → Text
hello_body nonce x_pub ct me = nonce ++ (x_pub ++ (ct ++ identity_bytes me))

module _ (x : Exchange) where
  open x use {
    x_public, diffie_hellman, kem_public, is_kem_key, encapsulate, decapsulate, sha256, hkdf,
  }

  unfoldable pub digest : Text → Text → Text
  unfolding digest_message
  digest label parts = sha256 (digest_message label parts)

  -- The key from the client to the server, and the key back.
  unfoldable pub derive : Text → Text → Text → Text → Text → Text × Text
  unfolding digest
  derive ch sh cf x_ss kem_ss =
      let salt = digest (codes "keys") (ch ++ (sh ++ cf)) in
      let ikm = x_ss ++ kem_ss in
      (hkdf salt ikm (codes "CDK-LINK-v1 c2s"), hkdf salt ikm (codes "CDK-LINK-v1 s2c"))

  unfoldable pub client_hello : ClientRandom → ClientState × Text
  client_hello rnd =
      let ch = version ∷ (rnd.nonce ++ (x_public rnd.x25519 ++ kem_public rnd.kem_seed)) in
      (record { x_secret = rnd.x25519; dk = rnd.kem_seed; ch = ch }, ch)

  unfoldable pub server_respond :
      Text → ServerRandom → Identity → (Text → Signature) → Result HsError (ServerState × Text)
  unfolding digest hello_body
  server_respond ch rnd me sign = do
    fail_if (not (length ch == ch_len)) bad_length
    fail_if (not (byte_at 0 ch == version)) bad_version
    let peer_x = window (1 + nonce_len) x25519_len ch
    let ek = drop (1 + nonce_len + x25519_len) ch
    fail_if (not (is_kem_key ek)) bad_key
    let kem = encapsulate ek rnd.kem_m
    let body = hello_body rnd.nonce (x_public rnd.x25519) kem.0 me
    let sh = body ++ signature_bytes (sign (digest (codes "server") (ch ++ body)))
    ok (record { ch = ch; sh = sh; x_ss = diffie_hellman rnd.x25519 peer_x; kem_ss = kem.1 }, sh)

  module _ (c : Aead) (key_of : Text → c.Key) where
    -- `Session::new`, on the bytes of the keys.
    abbrev session : Text → Text → Session c
    session tx rx = record { tx = key_of tx; rx = key_of rx; tx_seq = 0; rx_seq = 0 }

    -- The session, the client's answer, and the identity of the server.
    unfoldable pub client_finish :
        ClientState
        → Text
        → (Identity → Text → Signature → Bool)
        → Identity
        → (Text → Signature)
        → Result HsError (Session c × Text × Identity)
    unfolding digest derive identity_from signature_from
    client_finish st sh trust me sign = do
      fail_if (not (length sh == sh_len)) bad_length
      let x_pub = window nonce_len x25519_len sh
      let ct = window (nonce_len + x25519_len) kem_ct_len sh
      server ←
          ok_or (identity_from (window (nonce_len + x25519_len + kem_ct_len) identity_len sh))
            bad_length
      let sig = signature_from (drop sh_unsigned sh)
      let d = digest (codes "server") (st.ch ++ take sh_unsigned sh)
      fail_if (not (trust server d sig)) server_auth
      let signed = digest (codes "client") (st.ch ++ (sh ++ identity_bytes me))
      let cf = identity_bytes me ++ signature_bytes (sign signed)
      let keys = derive st.ch sh cf (diffie_hellman st.x_secret x_pub) (decapsulate st.dk ct)
      ok (session keys.0 keys.1, cf, server)

    -- The session and the identity of the client.
    unfoldable pub server_finish :
        ServerState
        → Text
        → (Identity → Text → Signature → Bool)
        → Result HsError (Session c × Identity)
    unfolding digest derive identity_from signature_from
    server_finish st cf trust = do
      fail_if (not (length cf == cf_len)) bad_length
      client ← ok_or (identity_from (take identity_len cf)) bad_length
      let sig = signature_from (drop identity_len cf)
      let d = digest (codes "client") (st.ch ++ (st.sh ++ take identity_len cf))
      fail_if (not (trust client d sig)) client_auth
      let keys = derive st.ch st.sh cf st.x_ss st.kem_ss
      ok (session keys.1 keys.0, client)
