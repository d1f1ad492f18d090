-- ===== src/Link/Secure/Handshake/Ends.antt =====
-- What each end has checked and made where its part of the handshake succeeds, and that the two
-- sessions fit together.
use cdk.Prelude.{
  ◌≡◌, Bool, true, some, ◌++◌, Text, length, take, drop, ok, arith, ◌==◌, fail_if-not, ok_or-ok,
  ==_iff,
}
use cdk.Prelude.Split.{codes}
use cdk.Link.Frame.{window}
use cdk.Link.Secure.Session.{Aead, Session}
use cdk.Link.Secure.Handshake.{
  Identity, Signature, bad_length, server_auth, client_auth, identity_from, identity_bytes,
  signature_from, signature_bytes, Exchange, ServerRandom, ClientState, ServerState, hello_body,
  digest, derive, server_respond, client_finish, server_finish, session,
}

-- The two ends of one channel, with nothing sent yet.
pub record Crossed (c : Aead) (a b : Session c) : Type 0 where
  pub there : a.tx ≡ b.rx
  pub back : b.tx ≡ a.rx
  pub first_sent : a.tx_seq ≡ 0
  pub first_received : b.rx_seq ≡ 0
  pub first_sent_back : b.tx_seq ≡ 0
  pub first_received_back : a.rx_seq ≡ 0

module _ (x : Exchange) where
  open x use {
    x_public, diffie_hellman, encapsulate, decapsulate, length-x_public, length-ciphertext, dh_comm,
    decapsulate-encapsulate,
  }

  -- What the server signs of its answer.
  abbrev pub signed_body : Text → ServerRandom → Identity → Text
  signed_body ch rnd me =
      hello_body rnd.nonce (x_public rnd.x25519) (encapsulate (drop 65 ch) rnd.kem_m).0 me

  pub record Responded (ch : Text) (rnd : ServerRandom) (me : Identity) (sign : Text → Signature)
      (st : ServerState) (sh : Text) : Type 0 where
    pub sized : length ch ≡ 1249
    pub state : st ≡ record {
      ch = ch;
      sh = sh;
      x_ss = diffie_hellman rnd.x25519 (window 33 32 ch);
      kem_ss = (encapsulate (drop 65 ch) rnd.kem_m).1;
    }
    pub answer :
        sh
        ≡ signed_body ch rnd me
          ++ signature_bytes (sign (digest x (codes "server") (ch ++ signed_body ch rnd me)))

  pub server_respond-Responded :
      (ch : Text) (rnd : ServerRandom) (me : Identity) (sign : Text → Signature) (st : ServerState)
      (sh : Text)
      → server_respond x ch rnd me sign ≡ ok (st, sh)
      → Responded ch rnd me sign st sh
  unfolding server_respond
  server_respond-Responded ch rnd me sign st sh e = ground arith

  module _ (c : Aead) (key_of : Text → c.Key) where
    pub record ClientDone (st : ClientState) (sh : Text)
        (trust : Identity → Text → Signature → Bool) (me : Identity) (sign : Text → Signature)
        (a : Session c) (cf : Text) (server : Identity) : Type 0 where
      pub sized : length sh ≡ 6509
      pub named : identity_from (window 1152 1984 sh) ≡ some server
      pub trusted :
          trust server
            (digest x (codes "server") (st.ch ++ take 3136 sh))
            (signature_from (drop 3136 sh))
          ≡ true
      pub answer :
          cf
          ≡ identity_bytes me
            ++ signature_bytes
                (sign (digest x (codes "client") (st.ch ++ (sh ++ identity_bytes me))))
      pub keys :
          (λ (k : Text × Text). a ≡ session x c key_of k.0 k.1)
            (derive x st.ch sh cf
              (diffie_hellman st.x_secret (window 32 32 sh))
              (decapsulate st.dk (window 64 1088 sh)))

    pub client_finish-ClientDone :
        (st : ClientState) (sh : Text) (trust : Identity → Text → Signature → Bool) (me : Identity)
        (sign : Text → Signature) (a : Session c) (cf : Text) (server : Identity)
        → client_finish x c key_of st sh trust me sign ≡ ok (a, cf, server)
        → ClientDone st sh trust me sign a cf server
    unfolding client_finish
    client_finish-ClientDone st sh trust me sign a cf server e =
        let (long, e1) = fail_if-not (length sh == 6509) bad_length _ (a, cf, server) e in
        let (id, named, e2) =
          ok_or-ok (identity_from (window 1152 1984 sh)) bad_length _ (a, cf, server) e1 in
        let (good, e3) =
          fail_if-not
            (trust id (digest x (codes "server") (st.ch ++ take 3136 sh))
              (signature_from (drop 3136 sh)))
            server_auth _ (a, cf, server) e2 in
        let same : id ≡ server = cc in
        record {
          sized = (==_iff (length sh) 6509).0 long;
          named = cc;
          trusted = cc;
          answer = cc;
          keys = cc;
        }

    pub record ServerDone (st : ServerState) (cf : Text)
        (trust : Identity → Text → Signature → Bool) (b : Session c) (client : Identity)
        : Type 0 where
      pub sized : length cf ≡ 5357
      pub named : identity_from (take 1984 cf) ≡ some client
      pub trusted :
          trust client
            (digest x (codes "client") (st.ch ++ (st.sh ++ take 1984 cf)))
            (signature_from (drop 1984 cf))
          ≡ true
      pub keys :
          (λ (k : Text × Text). b ≡ session x c key_of k.1 k.0)
            (derive x st.ch st.sh cf st.x_ss st.kem_ss)

    pub server_finish-ServerDone :
        (st : ServerState) (cf : Text) (trust : Identity → Text → Signature → Bool) (b : Session c)
        (client : Identity)
        → server_finish x c key_of st cf trust ≡ ok (b, client)
        → ServerDone st cf trust b client
    unfolding server_finish
    server_finish-ServerDone st cf trust b client e =
        let (long, e1) = fail_if-not (length cf == 5357) bad_length _ (b, client) e in
        let (id, named, e2) = ok_or-ok (identity_from (take 1984 cf)) bad_length _ (b, client) e1 in
        let (good, e3) =
          fail_if-not
            (trust id (digest x (codes "client") (st.ch ++ (st.sh ++ take 1984 cf)))
              (signature_from (drop 1984 cf)))
            client_auth _ (b, client) e2 in
        let same : id ≡ client = cc in
        record { sized = (==_iff (length cf) 5357).0 long; named = cc; trusted = cc; keys = cc }
