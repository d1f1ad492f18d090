-- ===== src/Link/Secure/Session/Tests.antt =====
-- A session at a cipher that can be evaluated: the text itself, with the key as its tag.
use cdk.Prelude.{ℕ, ◌≡◌, ◌≢◌, refl, List, [], ◌∷◌, Text, text_eq, ok, arith}
use cdk.Link.Frame.{Frame}
use cdk.Link.Secure.Session.{Session, seal, open_sealed, message, nonce, aad, recv, receive, opened}
use cdk.Link.Secure.Session.Toy.{toy}
use cdk.Link.Secure.Session.Open.{seal-nonce, unused}
use cdk.Link.Secure.Session.Channel.{recv-CarriesInOrder, CarriesInOrder}

abbrev hi : Text
hi = b'h' ∷ b'i' ∷ []

abbrev yo : Text
yo = b'y' ∷ b'o' ∷ []

-- Both ends have key 7 for both directions; `at n m` has sealed `n` and opened `m` messages.
abbrev at : ℕ → ℕ → Session toy
at n m = record { tx = 7; rx = 7; tx_seq = n; rx_seq = m }

abbrev frame : ℕ → Text → Frame
frame kind payload = record { kind = kind; flags = 0; payload = payload }

sealed_hi : seal toy hi 1024 (at 0 0) ≡ ok (message toy 7 0 hi, at 1 0)
unfolding seal
sealed_hi = refl

sealed_yo : seal toy yo 1024 (at 1 0) ≡ ok (message toy 7 1 yo, at 2 0)
unfolding seal
sealed_yo = refl

opened_hi : open_sealed toy (message toy 7 0 hi) 1024 (at 0 0) ≡ ok (hi, at 0 1)
unfolding open_sealed message nonce aad text_eq
opened_hi = refl

seal-nonce_example :
    (message toy 7 0 hi ≡ message toy 7 0 hi)
    × (message toy 7 1 yo ≡ message toy 7 1 yo)
    × (nonce 0 ≢ nonce 1)
seal-nonce_example =
    seal-nonce toy hi (message toy 7 0 hi) yo (message toy 7 1 yo) 1024 1024 (at 0 0) (at 1 0)
      (at 1 0) (at 2 0) (omega arith) sealed_hi unused sealed_yo

-- A plain frame, the first message, the first message again, and the second.
abbrev arrivals : List Frame
arrivals =
    frame 4 hi
    ∷ frame 6 (message toy 7 0 hi)
    ∷ frame 6 (message toy 7 0 hi)
    ∷ frame 6 (message toy 7 1 yo)
    ∷ []

recv-CarriesInOrder_example : CarriesInOrder toy 7 0 (hi ∷ yo ∷ []) arrivals
unfolding recv receive opened open_sealed message nonce aad text_eq
recv-CarriesInOrder_example = recv-CarriesInOrder toy arrivals (at 0 0) (omega arith)
