-- ===== src/Link/Secure/Connect.antt =====
-- src/link.rs: secure_connect_inner, the kernel's end of the handshake with the pinned gateway. What
-- the transport does, whether it takes the messages and what it brings as the answer, is given.
pub mod Branches
mod Tests
use cdk.Prelude.{
  ℕ, ◌+◌, ◌%◌, ◌^◌, ◌≡◌, Bool, true, false, not, ◌&&◌, Option, none, some, Text, take, drop, ◌++◌,
  text_eq, Result, ok, err, if◌then◌else◌,
}
use cdk.Prelude.Split.{codes}
use cdk.Link.Frame.{window}
use cdk.Link.Secure.Session.{Aead, Session}
use cdk.Link.Secure.Handshake.{
  Identity, Signature, HsError, server_auth, Exchange, ClientRandom, client_hello, client_finish,
  identity_from, signature_from, digest,
}

pub data SecureError : Type 0 where
  no_link no_pinned_gateway timeout gateway_rejected protocol_error : SecureError

abbrev pub same_identity : Identity → Identity → Bool
same_identity a b = text_eq a.ed b.ed && text_eq a.ml b.ml

-- How a failing `client_finish` is reported.
abbrev pub refusal : HsError → SecureError
refusal server_auth = gateway_rejected
refusal _ = protocol_error

-- What stands around the call: whether there is a transport, the boot file with the pinned identity, the kernel's own
-- identity with its signature and its check of others', the random numbers, whether the two
-- messages are sent, and the message that is waited for.
pub record Surroundings : Type 0 where
  pub transport : Bool
  pub gateway_file : Option Text
  pub me : Identity
  pub sign : Text → Signature
  pub verify_hybrid : Identity → Text → Signature → Bool
  pub random : ClientRandom
  pub hello_sent : Bool
  pub answer : Option Text
  pub finish_sent : Bool

-- `pinned_gateway`
unfoldable pub pinned_gateway : Surroundings → Option Identity
unfolding identity_from
pinned_gateway s = elim s.gateway_file [ none ↦ none | some bytes ↦ identity_from bytes ]

-- The closure that `client_finish` calls.
abbrev pub trust_pinned : Surroundings → Identity → Identity → Text → Signature → Bool
trust_pinned s pinned id d sig = same_identity id pinned && s.verify_hybrid id d sig

module _ (x : Exchange) (c : Aead) (key_of : Text → c.Key) where
  pub record Established : Type 0 where
    pub session : Session c
    pub gateway : Identity

  -- SESSION and EPOCH.
  pub record LinkState : Type 0 where
    pub session : Option Established
    pub epoch : ℕ

  -- `Identity::id`
  unfoldable pub fingerprint : Identity → Text
  fingerprint i = take 16 (x.sha256 (codes "CDK-ISSUER-v1" ++ (i.ed ++ i.ml)))

  -- Behind `client_finish`. The session was reset before.
  unfoldable pub keep :
      Surroundings
      → LinkState
      → Result HsError (Session c × Text × Identity)
      → Result SecureError Text × LinkState
  unfolding fingerprint
  keep s l (err e) = (err (refusal e), l)
  keep s l (ok (session, cf, gateway)) =
      if s.finish_sent
      then (
        ok (fingerprint gateway),
        record {
          session = some (record { session = session; gateway = gateway });
          epoch = (l.epoch + 1) % 2 ^ 32;
        },
      )
      else (err no_link, l)

  -- Behind the check for a pinned gateway.
  unfoldable pub shake_hands :
      Surroundings → Identity → LinkState → Result SecureError Text × LinkState
  unfolding keep
  shake_hands s pinned l =
      let hello = client_hello x s.random in
      let l' : LinkState = record l { session = none } in
      if not s.hello_sent then (err no_link, l') else elim s.answer [
        | none ↦ (err timeout, l')
        | some sh ↦
            keep s l' (client_finish x c key_of hello.0 sh (trust_pinned s pinned) s.me s.sign)
      ]

  unfoldable pub secure_connect_inner :
      Surroundings → LinkState → Result SecureError Text × LinkState
  unfolding shake_hands pinned_gateway
  secure_connect_inner s l = if not s.transport then (err no_link, l) else elim (pinned_gateway s) [
    | none ↦ (err no_pinned_gateway, l)
    | some pinned ↦ shake_hands s pinned l
  ]
