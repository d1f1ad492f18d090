-- ===== src/Link/Secure/Handshake/Agree.antt =====
-- The two ends of a handshake: an undisturbed one gives a channel, and one that the server finishes,
-- whatever the network did, is the client's own.
use mathlib.Core.Logic.{inl, inr, ◌⊎◌}
use cdk.Prelude.{
  append-injective, ◌≡◌, sym, ap, ap₂, ◌∙◌, subst, Bool, true, some, ◌++◌, Text, length,
  length-append, take, drop, ok, arith, text_eq, text_eq_iff, text_eq→eq, Bool-cases,
}
use cdk.Prelude.Split.{codes}
use cdk.Capability.Token.Cached.{Collision}
use cdk.Link.Frame.{window}
use cdk.Link.Secure.Session.{Aead, Session}
use cdk.Link.Secure.Handshake.{
  Identity, Signature, identity_from, identity_bytes, signature_bytes, Exchange, ClientRandom,
  ServerRandom, ServerState, client_hello, digest, digest_message, derive, server_respond,
  client_finish, server_finish, session,
}
use cdk.Link.Secure.Handshake.Parts.{
  IsIdentity, IsSignature, identity_from-identity_bytes, length-signature_bytes,
  length-client_hello, hello_x, hello_ek, length-hello_body, body_x, body_ct,
}
use cdk.Link.Secure.Handshake.Ends.{
  Crossed, Responded, ClientDone, ServerDone, signed_body, server_respond-Responded,
  client_finish-ClientDone, server_finish-ServerDone,
}

module _ (x : Exchange) (c : Aead) (key_of : Text → c.Key) where
  open x use {
    x_public, diffie_hellman, encapsulate, decapsulate, length-x_public, length-ciphertext, dh_comm,
    decapsulate-encapsulate, kem_public,
  }

  module _ (rc : ClientRandom) (rs : ServerRandom) (me : Identity) (sign : Text → Signature)
      (st : ServerState) (sh : Text) (nc : length rc.nonce ≡ 32) (ns : length rs.nonce ≡ 32)
      (v : IsIdentity me) (r : Responded x (client_hello x rc).1 rs me sign st sh) where
    abbrev ch : Text
    ch = (client_hello x rc).1

    abbrev ct : Text
    ct = (encapsulate (drop 65 ch) rs.kem_m).0

    abbrev sig : Text
    sig = signature_bytes (sign (digest x (codes "server") (ch ++ signed_body x ch rs me)))

    cut_x : window 32 32 sh ≡ x_public rs.x25519
    cut_x =
        ap (window 32 32) r.answer
        ∙ body_x rs.nonce (x_public rs.x25519) ct me sig ns (length-x_public rs.x25519)
            (length-ciphertext (drop 65 ch) rs.kem_m) v

    cut_ct : window 64 1088 sh ≡ (encapsulate (kem_public rc.kem_seed) rs.kem_m).0
    cut_ct =
        ap (window 64 1088) r.answer
        ∙ body_ct rs.nonce (x_public rs.x25519) ct me sig ns (length-x_public rs.x25519)
            (length-ciphertext (drop 65 ch) rs.kem_m) v
        ∙ ap (λ k. (encapsulate k rs.kem_m).0) (hello_ek x rc nc)

    one_x : diffie_hellman rc.x25519 (window 32 32 sh) ≡ st.x_ss
    one_x =
        ap (diffie_hellman rc.x25519) cut_x
        ∙ dh_comm rc.x25519 rs.x25519
        ∙ ap (diffie_hellman rs.x25519) (sym (hello_x x rc nc))
        ∙ ap (λ (t : ServerState). t.x_ss) (sym r.state)

    one_kem : decapsulate rc.kem_seed (window 64 1088 sh) ≡ st.kem_ss
    one_kem =
        ap (decapsulate rc.kem_seed) cut_ct
        ∙ decapsulate-encapsulate rc.kem_seed rs.kem_m
        ∙ ap (λ k. (encapsulate k rs.kem_m).1) (sym (hello_ek x rc nc))
        ∙ ap (λ (t : ServerState). t.kem_ss) (sym r.state)

    -- Where both ends finish with the messages of each other, the sessions are two ends of one
    -- channel.
    pub finish-Crossed :
        (trust trust' : Identity → Text → Signature → Bool) (client server : Identity)
        (sign' : Text → Signature) (a b : Session c) (cf : Text) (named : Identity)
        → ClientDone x c key_of (client_hello x rc).0 sh trust client sign' a cf server
        → ServerDone x c key_of st cf trust' b named
        → Crossed c a b
    unfolding client_hello
    finish-Crossed trust trust' client server sign' a b cf named d e =
        let keys : Text × Text = derive x ch sh cf st.x_ss st.kem_ss in
        let same : derive x ch sh cf (diffie_hellman rc.x25519 (window 32 32 sh))
              (decapsulate rc.kem_seed (window 64 1088 sh))
            ≡ keys =
          ap₂ (derive x ch sh cf) one_x one_kem in
        let qa : a ≡ session x c key_of keys.0 keys.1 =
          d.keys ∙ ap (λ (k : Text × Text). session x c key_of k.0 k.1) same in
        let qb : b ≡ session x c key_of keys.1 keys.0 =
          e.keys
          ∙ ap
              (λ (t : ServerState).
                let k = derive x t.ch t.sh cf st.x_ss st.kem_ss in session x c key_of k.1 k.0)
              r.state in
        record {
          there = ap (λ (t : Session c). t.tx) qa ∙ sym (ap (λ (t : Session c). t.rx) qb);
          back = ap (λ (t : Session c). t.tx) qb ∙ sym (ap (λ (t : Session c). t.rx) qa);
          first_sent = ap (λ (t : Session c). t.tx_seq) qa;
          first_received = ap (λ (t : Session c). t.rx_seq) qb;
          first_sent_back = ap (λ (t : Session c). t.tx_seq) qb;
          first_received_back = ap (λ (t : Session c). t.rx_seq) qa;
        }

  same_digest :
      (label p q : Text)
      → digest x label p ≡ digest x label q
      → Collision x.sha256 ⊎ (digest_message label p ≡ digest_message label q)
  unfolding digest
  same_digest label p q e =
      elim (Bool-cases (text_eq (digest_message label p) (digest_message label q))) [
        | inl same ↦ inr (text_eq→eq _ _ same)
        | inr differ ↦ inl (
          digest_message label p,
          digest_message label q,
          λ h.
              absurd (
                ground
                  (arith, (text_eq_iff (digest_message label p) (digest_message label q)).1 h)),
          e,
        )
      ]

  same_parts :
      (p q : Text) → digest_message (codes "client") p ≡ digest_message (codes "client") q → p ≡ q
  unfolding digest_message
  same_parts p q e = ap (drop 18) e

  pub length-answer :
      (ch : Text) (rs : ServerRandom) (me : Identity) (sign : Text → Signature) (st : ServerState)
      (sh : Text)
      → length rs.nonce ≡ 32
      → IsIdentity me
      → ((d : Text) → IsSignature (sign d))
      → Responded x ch rs me sign st sh
      → length sh ≡ 6509
  length-answer ch rs me sign st sh n v g r =
      let s : Signature = sign (digest x (codes "server") (ch ++ signed_body x ch rs me)) in
      ap length r.answer
      ∙ omega (
        arith,
        length-append (signed_body x ch rs me) (signature_bytes s),
        length-hello_body rs.nonce (x_public rs.x25519) (encapsulate (drop 65 ch) rs.kem_m).0 me
            (signature_bytes s) n (length-x_public rs.x25519)
            (length-ciphertext (drop 65 ch) rs.kem_m) v,
        length-signature_bytes s (g _),
      )

  -- With nonces, identities and server signatures of their sizes: the server finishes with messages
  -- from a network that may have changed them all. If the only
  -- digest that its `trust` admits is the one that the client signed when it finished, then the
  -- server has received the client's first message and the client the server's answer, the server
  -- names the client, and if the client's last message arrived as it was sent the two sessions are
  -- the ends of one channel; or two different inputs have one hash.
  pub server_finish-agrees :
      (rc : ClientRandom) (rs : ServerRandom) (client me : Identity) (sign sign' : Text → Signature)
      (trust trust' : Identity → Text → Signature → Bool) (ch sh sh' cf cf' : Text)
      (st : ServerState) (a b : Session c) (server named : Identity)
      → length rc.nonce ≡ 32
      → length rs.nonce ≡ 32
      → IsIdentity client
      → IsIdentity me
      → ((d : Text) → IsSignature (sign' d))
      → client_finish x c key_of (client_hello x rc).0 sh trust client sign ≡ ok (a, cf, server)
      → server_respond x ch rs me sign' ≡ ok (st, sh')
      → server_finish x c key_of st cf' trust' ≡ ok (b, named)
      → ((i : Identity) (d : Text) (s : Signature)
          → trust' i d s ≡ true
          → d ≡ digest x (codes "client") ((client_hello x rc).1 ++ (sh ++ identity_bytes client)))
      → Collision x.sha256
        ⊎ ((ch ≡ (client_hello x rc).1)
            × (sh' ≡ sh)
            × (named ≡ client)
            × (cf' ≡ cf → Crossed c a b))
  server_finish-agrees rc rs client me sign sign' trust trust' ch sh sh' cf cf' st a b server named
        nc ns v w g ec es ef only =
      let d : ClientDone x c key_of (client_hello x rc).0 sh trust client sign a cf server =
        client_finish-ClientDone x c key_of (client_hello x rc).0 sh trust client sign a cf server
          ec in
      let r : Responded x ch rs me sign' st sh' =
        server_respond-Responded x ch rs me sign' st sh' es in
      let e : ServerDone x c key_of st cf' trust' b named =
        server_finish-ServerDone x c key_of st cf' trust' b named ef in
      elim (same_digest (codes "client") (st.ch ++ (st.sh ++ take 1984 cf'))
        ((client_hello x rc).1 ++ (sh ++ identity_bytes client)) (only _ _ _ e.trusted)) [
          | inl k ↦ inl k
          | inr m ↦
              let (q1, q2) =
                append-injective st.ch (client_hello x rc).1 _ _
                  (ap (λ (t : ServerState). length t.ch) r.state
                    ∙ r.sized
                    ∙ sym (length-client_hello x rc nc))
                  (same_parts _ _ m) in
              let (q3, q4) =
                append-injective st.sh sh _ _
                  (ap (λ (t : ServerState). length t.sh) r.state
                    ∙ length-answer ch rs me sign' st sh' ns w g r
                    ∙ sym d.sized)
                  q2 in
              let one : ch ≡ (client_hello x rc).1 =
                ap (λ (t : ServerState). t.ch) (sym r.state) ∙ q1 in
              let two : sh' ≡ sh = ap (λ (t : ServerState). t.sh) (sym r.state) ∙ q3 in
              let who : some named ≡ some client =
                sym e.named ∙ ap identity_from q4 ∙ identity_from-identity_bytes client v in
              inr (
                one,
                two,
                cc,
                λ f.
                    finish-Crossed rc rs me sign' st sh' nc ns w
                      (subst (λ t. Responded x t rs me sign' st sh') one r) trust trust' client
                      server sign a b cf named
                      (subst
                        (λ t.
                          ClientDone x c key_of (client_hello x rc).0 t trust client sign a cf
                            server)
                        (sym two) d)
                      (subst (λ t. ServerDone x c key_of st t trust' b named) f e),
              )
        ]
