-- ===== src/Link/Secure/Session/Toy.antt =====
-- A cipher that can be evaluated: the text itself, with the key as its tag.
use cdk.Prelude.{
  ℕ, ◌≡◌, refl, Option, none, some, Text, replicate, if◌then◌else◌, text_eq, text_eq_self,
  text_eq→eq, Bool-cases, inl, inr, arith,
}
use cdk.Link.Secure.Session.{Aead}

abbrev pub tag_of : ℕ → Text
tag_of k = replicate 16 k

abbrev pub check : Text → Text → Text → Option Text
check right tag text = if text_eq tag right then some text else none

pub check_right : (k : ℕ) (p : Text) → check (tag_of k) (tag_of k) p ≡ some p
check_right k p = rw (text_eq_self (tag_of k)) refl

pub check_sound :
    (k : ℕ) (cipher tag p : Text)
    → check (tag_of k) tag cipher ≡ some p
    → ◌≡◌ {A = Text × Text} (p, tag_of k) (cipher, tag)
check_sound k cipher tag p e = elim (Bool-cases (text_eq tag (tag_of k))) [
  | inl same ↦ let q : tag ≡ tag_of k = text_eq→eq tag (tag_of k) same in ground arith
  | inr differs ↦ ground arith
]

abbrev pub toy : Aead
toy = record {
  Key = ℕ;
  encrypt = λ k n a p. (p, tag_of k);
  decrypt = λ k n a cipher tag. check (tag_of k) tag cipher;
  length-ciphertext = λ k n a p. refl;
  length-tag = λ k n a p. refl;
  decrypt-encrypt = λ k n a p. check_right k p;
  encrypt-decrypt = λ k n a cipher tag p l e. check_sound k cipher tag p e;
}
