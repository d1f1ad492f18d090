-- ===== src/Link/Secure/Session/Channel.antt =====
-- The two ends of a session: what is sent is received, and what is received was sealed, in order.
use mathlib.Core.Logic.{inl, inr, ◌⊎◌}
use cdk.Prelude.{
  ℕ, ◌+◌, ◌^◌, ◌<◌, ◌≡◌, refl, sym, ap, ◌∙◌, subst, true, false, some, List, [], ◌∷◌, Text, ◌==◌,
  ==_iff, ok, err, arith, Bool-cases, Result-cases, All,
}
use cdk.Link.Frame.{Frame}
use cdk.Link.Frame.Octets.{AreBytes}
use cdk.Link.Secure.Session.{
  Aead, Session, SealError, seal, open_sealed, message, Incoming, plain, sealed, rejected, receive,
  recv, opened, sealed_kind,
}
use cdk.Link.Secure.Session.Open.{open_sealed-message, open_sealed_sound, seal-Sealed, Sealed}

module _ (c : Aead) where
  open c use {Key}

  -- The texts that arrived sealed.
  abbrev pub texts : List (Incoming c) → List Text
  texts [] = []
  texts (sealed p ∷ is) = p ∷ texts is
  texts (plain k p ∷ is) = texts is
  texts (rejected e ∷ is) = texts is

  -- Among the frames are the messages of these texts, with the numbers from `n` on, in their order.
  abbrev pub CarriesInOrder : Key → ℕ → List Text → List Frame → Type 0
  CarriesInOrder k n [] fs = Unit {0}
  CarriesInOrder k n (p ∷ ps) [] = ⊥
  CarriesInOrder k n (p ∷ ps) (f ∷ fs) =
      ((f.kind ≡ sealed_kind) × (f.payload ≡ message c k n p) × CarriesInOrder k (n + 1) ps fs)
      ⊎ CarriesInOrder k n (p ∷ ps) fs

  skip_frame :
      (k : Key) (n : ℕ) (ps : List Text) (f : Frame) (fs : List Frame)
      → CarriesInOrder k n ps fs
      → CarriesInOrder k n ps (f ∷ fs)
  skip_frame k n [] f fs h = h
  skip_frame k n (p ∷ ps) f fs h = inr h

  recv_nil : (s : Session c) → recv c [] (some s) ≡ ([], some s)
  unfolding recv
  recv_nil s = refl

  recv_plain :
      (f : Frame) (fs : List Frame) (s : Session c)
      → (f.kind == sealed_kind) ≡ false
      → recv c (f ∷ fs) (some s)
        ≡ (plain f.kind f.payload ∷ (recv c fs (some s)).0, (recv c fs (some s)).1)
  unfolding recv receive
  recv_plain f fs s e = rw e refl

  recv_ok :
      (f : Frame) (fs : List Frame) (p : Text) (s s' : Session c)
      → (f.kind == sealed_kind) ≡ true
      → open_sealed c f.payload 1024 s ≡ ok (p, s')
      → recv c (f ∷ fs) (some s) ≡ (sealed p ∷ (recv c fs (some s')).0, (recv c fs (some s')).1)
  unfolding recv receive opened
  recv_ok f fs p s s' e o = rw (e, o) refl

  recv_err :
      (f : Frame) (fs : List Frame) (why : SealError) (s : Session c)
      → (f.kind == sealed_kind) ≡ true
      → open_sealed c f.payload 1024 s ≡ err why
      → recv c (f ∷ fs) (some s) ≡ (rejected why ∷ (recv c fs (some s)).0, (recv c fs (some s)).1)
  unfolding recv receive opened
  recv_err f fs why s e o = rw (e, o) refl

  -- Whatever frames of bytes arrive, forged, repeated, lost or out of order: the texts that the session
  -- delivers as sealed are, one after the other, those of its next messages, and these messages are
  -- among the frames in the same order.
  pub recv-CarriesInOrder :
      (fs : List Frame) (s : Session c)
      → All (λ (f : Frame). AreBytes f.payload) fs
      → CarriesInOrder s.rx s.rx_seq (texts (recv c fs (some s)).0) fs
  recv-CarriesInOrder [] s b = rw (recv_nil s) tt
  recv-CarriesInOrder (f ∷ fs) s b = elim (Bool-cases (f.kind == sealed_kind)) [
    | inr other ↦
        rw (recv_plain f fs s other)
          (skip_frame s.rx s.rx_seq _ f fs (recv-CarriesInOrder fs s b.1))
    | inl is ↦ elim (Result-cases (open_sealed c f.payload 1024 s)) [
      | inr (why, e) ↦
          rw (recv_err f fs why s is e)
            (skip_frame s.rx s.rx_seq _ f fs (recv-CarriesInOrder fs s b.1))
      | inl ((p, s'), e) ↦
          let (m, q) = open_sealed_sound c f.payload p 1024 s s' b.0 e in
          let rest : CarriesInOrder s.rx (s.rx_seq + 1) (texts (recv c fs (some s')).0) fs =
            subst
              (λ (t : Session c). CarriesInOrder t.rx t.rx_seq (texts (recv c fs (some s')).0) fs) q
              (recv-CarriesInOrder fs s' b.1) in
          rw (recv_ok f fs p s s' is e) (inl ((==_iff f.kind sealed_kind).0 is, m, rest))
    ]
  ]

  -- The frames that seal some texts in turn, with room for each.
  abbrev pub Sends : Session c → List Text → List Frame → Type 0
  Sends s [] fs = fs ≡ []
  Sends s (p ∷ ps) [] = ⊥
  Sends s (p ∷ ps) (f ∷ fs) =
      (s' : Session c) × (f.kind ≡ sealed_kind)
      × (seal c p 1024 s ≡ ok (f.payload, s'))
      × Sends s' ps fs

  -- Texts that one end seals are received by the other end, all of them and in order, if the
  -- receiver has the sender's key and expects the sender's next number.
  pub recv-Sends :
      (ps : List Text) (fs : List Frame) (s r : Session c)
      → r.rx ≡ s.tx
      → r.rx_seq ≡ s.tx_seq
      → s.tx_seq < 2 ^ 64
      → Sends s ps fs
      → texts (recv c fs (some r)).0 ≡ ps
  recv-Sends [] fs s r k n h e = rw (e, recv_nil r) refl
  recv-Sends (p ∷ ps) [] s r k n h e = absurd e
  recv-Sends (p ∷ ps) (f ∷ fs) s r k n h (s', kind, e, more) =
      let o : Sealed c p f.payload s s' = seal-Sealed c p f.payload 1024 s s' e in
      let r' : Session c = record r { rx_seq = r.rx_seq + 1 } in
      let opens : open_sealed c f.payload 1024 r ≡ ok (p, r') =
        ap (λ m. open_sealed c m 1024 r) (o.text ∙ (λ i. message c (sym k i) (sym n i) p))
        ∙ open_sealed-message c p 1024 r (omega (arith, o.fits)) (omega arith) in
      let key : r'.rx ≡ s'.tx = k ∙ ap (λ (t : Session c). t.tx) (sym o.after) in
      let number : r'.rx_seq ≡ s'.tx_seq =
        omega (arith, ap (λ (t : Session c). t.tx_seq) o.after) in
      rw (recv_ok f fs p r r' ((==_iff f.kind sealed_kind).1 kind) opens) (
        ap (λ t. p ∷ t)
          (recv-Sends ps fs s' r' key number
            (omega (arith, o.left, ap (λ (t : Session c). t.tx_seq) o.after)) more))
