-- ===== src/Link/Secure/Handshake/Tests.antt =====
-- A handshake with exchanges that can be evaluated.
use cdk.Prelude.{
  suc, ◌≡◌, ap, ◌⊎◌, Bool, true, some, List, ◌++◌, Text, ok, text_eq, text_eq_self, text_eq→eq,
}
use cdk.Prelude.Split.{codes}
use cdk.Capability.Token.Cached.{Collision}
use cdk.Link.Frame.{Frame}
use cdk.Link.Secure.Session.{Session, recv}
use cdk.Link.Secure.Session.Toy.{toy}
use cdk.Link.Secure.Session.Channel.{Sends, texts}
use cdk.Link.Secure.Handshake.{
  Identity, Signature, identity_bytes, ServerState, client_hello, digest, server_respond,
  client_finish, server_finish,
}
use cdk.Link.Secure.Handshake.Toy.{
  total, length_zeros, sums, ours, theirs, identity, identity-IsIdentity, sign, sign-IsSignature,
  trust, trust_sign, answer,
}
use cdk.Link.Secure.Handshake.Ends.{Crossed}
use cdk.Link.Secure.Handshake.Agree.{server_finish-agrees}
use cdk.Link.Secure.Handshake.Establish.{handshake_establishes, cf, responds, finishes, finishes'}

handshake_establishes_example :
    (st : ServerState) × (sh : Text) × (cf : Text) × (a : Session toy) × (b : Session toy)
    × (server_respond sums (client_hello sums ours).1 theirs (identity 1) sign ≡ ok (st, sh))
    × (client_finish sums toy total (client_hello sums ours).0 sh trust (identity 0) sign
        ≡ ok (a, cf, identity 1))
    × (server_finish sums toy total st cf trust ≡ ok (b, identity 0))
    × ((ps : List Text) (fs : List Frame)
        → Sends toy a ps fs
        → texts toy (recv toy fs (some b)).0 ≡ ps)
    × ((ps : List Text) (fs : List Frame)
        → Sends toy b ps fs
        → texts toy (recv toy fs (some a)).0 ≡ ps)
handshake_establishes_example =
    handshake_establishes sums toy total ours theirs (identity 0) (identity 1) sign sign trust trust
      (ap suc (length_zeros 31)) (ap suc (length_zeros 31)) (identity-IsIdentity 0)
      (identity-IsIdentity 1) sign-IsSignature sign-IsSignature (trust_sign (identity 1))
      (trust_sign (identity 0))

-- The client's last message of that run.
abbrev last : Text
last =
    cf sums toy total ours theirs (identity 0) (identity 1) sign sign trust trust
      (ap suc (length_zeros 31)) (ap suc (length_zeros 31)) (identity-IsIdentity 0)
      (identity-IsIdentity 1) sign-IsSignature sign-IsSignature

abbrev signed : Text
signed =
    digest sums (codes "client")
      ((client_hello sums ours).1 ++ (answer ++ identity_bytes (identity 0)))

-- A server that admits this digest alone.
abbrev admits_one : Identity → Text → Signature → Bool
admits_one i d s = text_eq d signed

admits_one_only : (i : Identity) (d : Text) (s : Signature) → admits_one i d s ≡ true → d ≡ signed
admits_one_only i d s h = text_eq→eq d signed h

client_run :
    (a : Session toy) × (client_finish sums toy total
        (client_hello sums ours).0
        answer
        trust
        (identity 0)
        sign
      ≡ ok (a, last, identity 1))
client_run =
    finishes sums toy total ours theirs (identity 0) (identity 1) sign sign trust trust
      (ap suc (length_zeros 31)) (ap suc (length_zeros 31)) (identity-IsIdentity 0)
      (identity-IsIdentity 1) sign-IsSignature sign-IsSignature (trust_sign (identity 1) _)

server_state :
    (st : ServerState) × (server_respond sums (client_hello sums ours).1 theirs (identity 1) sign
      ≡ ok (st, answer))
server_state = (
  _,
  responds sums toy total ours theirs (identity 0) (identity 1) sign sign trust trust
      (ap suc (length_zeros 31)) (ap suc (length_zeros 31)) (identity-IsIdentity 0)
      (identity-IsIdentity 1) sign-IsSignature sign-IsSignature,
)

server_run :
    (b : Session toy) × (server_finish sums toy total server_state.0 last admits_one
      ≡ ok (b, identity 0))
unfolding server_state
server_run =
    finishes' sums toy total ours theirs (identity 0) (identity 1) sign sign trust admits_one
      (ap suc (length_zeros 31)) (ap suc (length_zeros 31)) (identity-IsIdentity 0)
      (identity-IsIdentity 1) sign-IsSignature sign-IsSignature (text_eq_self signed)

server_finish-agrees_example :
    Collision sums.sha256
    ⊎ (((client_hello sums ours).1 ≡ (client_hello sums ours).1)
        × (answer ≡ answer)
        × (identity 0 ≡ identity 0)
        × (last ≡ last → Crossed toy client_run.0 server_run.0))
server_finish-agrees_example =
    server_finish-agrees sums toy total ours theirs (identity 0) (identity 1) sign sign trust
      admits_one (client_hello sums ours).1 answer answer last last server_state.0 client_run.0
      server_run.0 (identity 1) (identity 0) (ap suc (length_zeros 31)) (ap suc (length_zeros 31))
      (identity-IsIdentity 0) (identity-IsIdentity 1) sign-IsSignature client_run.1 server_state.1
      server_run.1 admits_one_only
