-- ===== src/Link/Secure/Connect/Branches.antt =====
-- What secure_connect_inner keeps and reports, on every branch.
use cdk.Prelude.{
  ◌+◌, ◌%◌, ◌^◌, ◌≡◌, true, false, none, some, Text, take, drop, ◌++◌, Result, ok, err, ◌⊎◌, inl,
  inr, refl, ap, ap₂, subst, Result-cases, Bool-cases, Option-cases, text_eq→eq, both,
}
use cdk.Prelude.Split.{codes}
use cdk.Link.Secure.Session.{Aead, Session}
use cdk.Link.Secure.Handshake.{
  Identity, Exchange, client_hello, client_finish, signature_from, digest,
}
use cdk.Link.Secure.Handshake.Ends.{client_finish-ClientDone}
use cdk.Link.Secure.Connect.{
  SecureError, no_link, no_pinned_gateway, timeout, refusal, same_identity, LinkState, Surroundings,
  pinned_gateway, fingerprint, trust_pinned, secure_connect_inner,
}

same_identity_sound : (a b : Identity) → same_identity a b ≡ true → a ≡ b
same_identity_sound a b h =
    let (p, q) = both _ _ h in
    ap₂ (λ (e m : Text). let i : Identity = record { ed = e; ml = m } in i) (text_eq→eq a.ed b.ed p)
      (text_eq→eq a.ml b.ml q)

module _ (x : Exchange) (c : Aead) (key_of : Text → c.Key) where
  -- A session with the gateway that the boot file names.
  pub record Pinned (s : Surroundings) (l : LinkState x c key_of)
      (r : Result SecureError Text × LinkState x c key_of) : Type 0 where
    pub gateway : Identity
    pub session : Session c
    pub hello : Text
    pub finish : Text
    pub is_pinned : pinned_gateway s ≡ some gateway
    pub answered : s.answer ≡ some hello
    pub finished :
        client_finish x c key_of
          (client_hello x s.random).0
          hello
          (trust_pinned s gateway)
          s.me
          s.sign
        ≡ ok (session, finish, gateway)
    pub signed :
        s.verify_hybrid gateway
          (digest x (codes "server") ((client_hello x s.random).0.ch ++ take 3136 hello))
          (signature_from (drop 3136 hello))
        ≡ true
    pub kept : r ≡ (
      ok (fingerprint x c key_of gateway),
      record {
        session = some (record { session = session; gateway = gateway });
        epoch = (l.epoch + 1) % 2 ^ 32;
      },
    )

  abbrev pub Connects :
      Surroundings → LinkState x c key_of → Result SecureError Text × LinkState x c key_of → Type 0
  Connects s l r =
      Pinned s l r
      ⊎ (((e : SecureError) × (r ≡ (err e, record l { session = none }))
            × (s.transport ≡ true)
            × ((g : Identity) × (pinned_gateway s ≡ some g)))
          ⊎ (((r ≡ (err no_link, l)) × (s.transport ≡ false))
              ⊎ ((r ≡ (err no_pinned_gateway, l)) × (pinned_gateway s ≡ none))))

  pinned_lem :
      (s : Surroundings) (l : LinkState x c key_of) (g : Identity) (a : Session c) (cf sh : Text)
      (server : Identity)
      → s.transport ≡ true
      → pinned_gateway s ≡ some g
      → s.hello_sent ≡ true
      → s.answer ≡ some sh
      → client_finish x c key_of (client_hello x s.random).0 sh (trust_pinned s g) s.me s.sign
        ≡ ok (a, cf, server)
      → s.finish_sent ≡ true
      → Pinned s l (secure_connect_inner x c key_of s l)
  unfolding secure_connect_inner
  pinned_lem s l g a cf sh server there named sent came good done =
      let d =
        client_finish-ClientDone x c key_of (client_hello x s.random).0 sh (trust_pinned s g) s.me
          s.sign a cf server good in
      let (is, checked) = both _ _ d.trusted in
      let q : server ≡ g = same_identity_sound server g is in
      record {
        gateway = g;
        session = a;
        hello = sh;
        finish = cf;
        is_pinned = named;
        answered = came;
        finished =
            subst
              (λ t.
                client_finish x c key_of (client_hello x s.random).0 sh (trust_pinned s g) s.me
                  s.sign
                ≡ ok (a, cf, t))
              q good;
        signed =
            subst
              (λ t.
                s.verify_hybrid t
                  (digest x (codes "server") ((client_hello x s.random).0.ch ++ take 3136 sh))
                  (signature_from (drop 3136 sh))
                ≡ true)
              q checked;
        kept =
            rw (there, named, sent, came, good, done)
              (ap
                (λ t. (
                  ok (fingerprint x c key_of t),
                  record {
                    session = some (record { session = a; gateway = t });
                    epoch = (l.epoch + 1) % 2 ^ 32;
                  },
                ))
                q);
      }

  -- A connection keeps a session only with the gateway that the boot file names, after its signature
  -- of the two first messages was checked, and counts it; every failure behind the first checks
  -- leaves no session, also none from before, and those two checks themselves change nothing.
  pub secure_connect_inner_lem :
      (s : Surroundings) (l : LinkState x c key_of)
      → Connects s l (secure_connect_inner x c key_of s l)
  unfolding secure_connect_inner
  secure_connect_inner_lem s l = elim (Bool-cases s.transport) [
    | inr none_there ↦ inr (inr (inl (rw none_there refl, none_there)))
    | inl there ↦ elim (Option-cases (pinned_gateway s)) [
      | inl no_file ↦ inr (inr (inr (rw (there, no_file) refl, no_file)))
      | inr (g, named) ↦ elim (Bool-cases s.hello_sent) [
        | inr unsent ↦ inr (inl (no_link, rw (there, named, unsent) refl, there, (g, named)))
        | inl sent ↦ elim (Option-cases s.answer) [
          | inl late ↦ inr (inl (timeout, rw (there, named, sent, late) refl, there, (g, named)))
          | inr (sh, came) ↦
              elim (Result-cases (
                client_finish x c key_of (client_hello x s.random).0 sh (trust_pinned s g) s.me
                  s.sign)) [
                    | inr (e, bad) ↦ inr (
                        inl (refusal e, rw (there, named, sent, came, bad) refl, there, (g, named)))
                    | inl ((a, cf, server), good) ↦ elim (Bool-cases s.finish_sent) [
                      | inr unsent ↦ inr (
                          inl (
                            no_link,
                            rw (there, named, sent, came, good, unsent) refl,
                            there,
                            (g, named),
                          ))
                      | inl done ↦
                          inl (pinned_lem s l g a cf sh server there named sent came good done)
                    ]
                  ]
        ]
      ]
    ]
  ]
