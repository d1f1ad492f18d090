-- ===== src/Link/Secure/Handshake/Establish.antt =====
-- An undisturbed handshake: both ends finish, and what one sends then is what the other receives.
use cdk.Prelude.{
  ◌≡◌, refl, sym, ap, ap₂, ◌∙◌, Bool, true, some, List, ◌++◌, Text, length, length-append, take,
  drop, ok, arith, ==_iff,
}
use cdk.Prelude.Split.{codes}
use cdk.Link.Frame.{Frame, window, byte_at}
use cdk.Link.Secure.Session.{Aead, Session, recv}
use cdk.Link.Secure.Session.Channel.{Sends, texts, recv-Sends}
use cdk.Link.Secure.Handshake.{
  Identity, Signature, identity_from, identity_bytes, signature_from, signature_bytes, Exchange,
  ClientRandom, ServerRandom, ServerState, client_hello, digest, derive, server_respond,
  client_finish, server_finish, session,
}
use cdk.Link.Secure.Handshake.Parts.{
  IsIdentity, IsSignature, identity_from-identity_bytes, signature_from-signature_bytes,
  length-identity_bytes, length-signature_bytes, take-front, drop-front, length-client_hello,
  hello_version, hello_ek, take-hello_body, drop-hello_body, body_identity,
}
use cdk.Link.Secure.Handshake.Ends.{
  Crossed, Responded, signed_body, server_respond-Responded, client_finish-ClientDone,
  server_finish-ServerDone,
}
use cdk.Link.Secure.Handshake.Agree.{finish-Crossed, length-answer}

module _ (x : Exchange) (c : Aead) (key_of : Text → c.Key) (rc : ClientRandom) (rs : ServerRandom)
    (client server : Identity) (sign sign' : Text → Signature)
    (trust trust' : Identity → Text → Signature → Bool) (nc : length rc.nonce ≡ 32)
    (ns : length rs.nonce ≡ 32) (v : IsIdentity client) (w : IsIdentity server)
    (g : (d : Text) → IsSignature (sign d)) (g' : (d : Text) → IsSignature (sign' d)) where
  open x use {
    x_public, encapsulate, decapsulate, is_kem_key, diffie_hellman, length-x_public,
    length-ciphertext, is_kem_key-kem_public,
  }

  abbrev pub ch : Text
  ch = (client_hello x rc).1

  abbrev pub ct : Text
  ct = (encapsulate (drop 65 ch) rs.kem_m).0

  -- What the server signs.
  abbrev pub to_sign' : Text
  to_sign' = digest x (codes "server") (ch ++ signed_body x ch rs server)

  abbrev pub sig : Signature
  sig = sign' to_sign'

  abbrev pub sh : Text
  sh = signed_body x ch rs server ++ signature_bytes sig

  abbrev pub st : ServerState
  st = record {
    ch = ch;
    sh = sh;
    x_ss = diffie_hellman rs.x25519 (window 33 32 ch);
    kem_ss = (encapsulate (drop 65 ch) rs.kem_m).1;
  }

  pub responds : server_respond x ch rs server sign' ≡ ok (st, sh)
  unfolding server_respond
  responds =
      rw
        (
          (==_iff (length ch) 1249).1 (length-client_hello x rc nc),
          (==_iff (byte_at 0 ch) 1).1 (hello_version x rc nc),
          (ap is_kem_key (hello_ek x rc nc) ∙ is_kem_key-kem_public rc.kem_seed),
        )
        refl

  responded : Responded x ch rs server sign' st sh
  responded = server_respond-Responded x ch rs server sign' st sh responds

  named : identity_from (window 1152 1984 sh) ≡ some server
  named =
      ap identity_from (
        body_identity rs.nonce (x_public rs.x25519) ct server (signature_bytes sig) ns
          (length-x_public rs.x25519) (length-ciphertext (drop 65 ch) rs.kem_m) w)
      ∙ identity_from-identity_bytes server w

  -- What the client signs.
  abbrev pub to_sign : Text
  to_sign = digest x (codes "client") (ch ++ (sh ++ identity_bytes client))

  abbrev pub cf_sig : Signature
  cf_sig = sign to_sign

  abbrev pub cf : Text
  cf = identity_bytes client ++ signature_bytes cf_sig

  trusted :
      trust server to_sign' sig ≡ true
      → trust server
          (digest x (codes "server") (ch ++ take 3136 sh))
          (signature_from (drop 3136 sh))
        ≡ true
  trusted admitted =
      ap₂ (λ t u. trust server (digest x (codes "server") (ch ++ t)) (signature_from u))
        (take-hello_body rs.nonce (x_public rs.x25519) ct server (signature_bytes sig) ns
          (length-x_public rs.x25519) (length-ciphertext (drop 65 ch) rs.kem_m) w)
        (drop-hello_body rs.nonce (x_public rs.x25519) ct server (signature_bytes sig) ns
          (length-x_public rs.x25519) (length-ciphertext (drop 65 ch) rs.kem_m) w)
      ∙ ap (trust server (digest x (codes "server") (ch ++ signed_body x ch rs server)))
          (signature_from-signature_bytes sig (g' _))
      ∙ admitted

  -- The keys that each end derives.
  abbrev pub keys : Text × Text
  keys =
      derive x ch sh cf (diffie_hellman rc.x25519 (window 32 32 sh))
        (decapsulate rc.kem_seed (window 64 1088 sh))

  abbrev pub keys' : Text × Text
  keys' = derive x ch sh cf st.x_ss st.kem_ss

  pub finishes :
      trust server to_sign' sig ≡ true
      → (a : Session c) × (client_finish x c key_of (client_hello x rc).0 sh trust client sign
          ≡ ok (a, cf, server))
  unfolding client_finish client_hello
  finishes admitted = (
    session x c key_of keys.0 keys.1,
    rw
        (
          (==_iff (length sh) 6509).1
              (length-answer x c key_of ch rs server sign' st sh ns w g' responded),
          named,
          trusted admitted,
        )
        refl,
  )

  named' : identity_from (take 1984 cf) ≡ some client
  named' =
      ap identity_from (
        take-front (identity_bytes client) (signature_bytes cf_sig) 1984
          (length-identity_bytes client v))
      ∙ identity_from-identity_bytes client v

  trusted' :
      trust' client to_sign cf_sig ≡ true
      → trust' client
          (digest x (codes "client") (ch ++ (sh ++ take 1984 cf)))
          (signature_from (drop 1984 cf))
        ≡ true
  trusted' admitted =
      ap₂ (λ t u. trust' client (digest x (codes "client") (ch ++ (sh ++ t))) (signature_from u))
        (take-front (identity_bytes client) (signature_bytes cf_sig) 1984
          (length-identity_bytes client v))
        (drop-front (identity_bytes client) (signature_bytes cf_sig) 1984
          (length-identity_bytes client v))
      ∙ ap (trust' client (digest x (codes "client") (ch ++ (sh ++ identity_bytes client))))
          (signature_from-signature_bytes cf_sig (g _))
      ∙ admitted

  length-cf : length cf ≡ 5357
  length-cf = omega (
    arith,
    length-append (identity_bytes client) (signature_bytes cf_sig),
    length-identity_bytes client v,
    length-signature_bytes cf_sig (g _),
  )

  pub finishes' :
      trust' client to_sign cf_sig ≡ true
      → (b : Session c) × (server_finish x c key_of st cf trust' ≡ ok (b, client))
  unfolding server_finish
  finishes' admitted = (
    session x c key_of keys'.1 keys'.0,
    rw ((==_iff (length cf) 5357).1 length-cf, named', trusted' admitted) refl,
  )

  -- With nonces, identities and signatures of their sizes: a handshake that the network leaves alone,
  -- of ends that admit each other's signatures, succeeds
  -- at every step and tells each end the other's identity; and the texts that either end then seals
  -- are received by the other, all of them and in order.
  pub handshake_establishes :
      ((d : Text) → trust server d (sign' d) ≡ true)
      → ((d : Text) → trust' client d (sign d) ≡ true)
      → (st' : ServerState) × (sh' : Text) × (cf' : Text) × (a : Session c) × (b : Session c)
        × (server_respond x (client_hello x rc).1 rs server sign' ≡ ok (st', sh'))
        × (client_finish x c key_of (client_hello x rc).0 sh' trust client sign
            ≡ ok (a, cf', server))
        × (server_finish x c key_of st' cf' trust' ≡ ok (b, client))
        × ((ps : List Text) (fs : List Frame)
            → Sends c a ps fs
            → texts c (recv c fs (some b)).0 ≡ ps)
        × ((ps : List Text) (fs : List Frame)
            → Sends c b ps fs
            → texts c (recv c fs (some a)).0 ≡ ps)
  handshake_establishes admits admits' =
      let (a, ea) = finishes (admits to_sign') in
      let (b, eb) = finishes' (admits' to_sign) in
      let k : Crossed c a b =
        finish-Crossed x c key_of rc rs server sign' st sh nc ns w responded trust trust' client
          server sign a b cf client
          (client_finish-ClientDone x c key_of (client_hello x rc).0 sh trust client sign a cf
            server ea)
          (server_finish-ServerDone x c key_of st cf trust' b client eb) in
      (
        st,
        sh,
        cf,
        a,
        b,
        responds,
        ea,
        eb,
        λ ps fs s.
            recv-Sends c ps fs a b (sym k.there) (k.first_received ∙ sym k.first_sent)
              (omega (arith, k.first_sent)) s,
        λ ps fs s.
            recv-Sends c ps fs b a (sym k.back) (k.first_received_back ∙ sym k.first_sent_back)
              (omega (arith, k.first_sent_back)) s,
      )
