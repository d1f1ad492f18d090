-- ===== src/Policy/Parse/Print.antt =====
-- src/policy.rs: Display for Rule, which a policy file reads back.
use cdk.Prelude.{
  ℕ, ◌<◌, ◌≡◌, refl, ap, ◌∙◌, true, false, not, [], ◌∷◌, ◌++◌, Text, length, any, filter, text_eq,
  All, ok, arith,
}
use cdk.Prelude.Split.{codes, words, is_space, is_nonempty, split-single, split-append}
use cdk.Policy.{Rule, deny, separate, approval_rule}
use cdk.Policy.Rules.{label, is_label_byte}
use cdk.Policy.Parse.{parse_rule, rule_of}
use cdk.Policy.Parse.Valid.{IsLabel, RuleIsValid}

unfoldable pub show_rule : Rule → Text
show_rule (deny l) = codes "deny" ++ (b' ' ∷ l)
show_rule (separate a b) = codes "separate" ++ (b' ' ∷ (a ++ (b' ' ∷ b)))
show_rule (approval_rule l) = codes "approval" ++ (b' ' ∷ l)

label_byte : (c : ℕ) → is_label_byte c ≡ true → is_space c ≡ false
unfolding is_label_byte
label_byte c h = ground arith

no_space : (l : Text) → any (λ c. not (is_label_byte c)) l ≡ false → All (λ c. is_space c ≡ false) l
no_space [] h = tt
no_space (c ∷ l) h = (label_byte c (ground arith), no_space l (ground arith))

reads_label : (l : Text) → IsLabel l → label l ≡ ok l
unfolding label
reads_label l v = ground (arith, v.0, v.1, v.2)

nonempty : (l : Text) → 0 < length l → is_nonempty l ≡ true
nonempty [] h = absurd (omega arith)
nonempty (c ∷ l) h = refl

plain : (s : Text) → any is_space s ≡ false → All (λ c. is_space c ≡ false) s
plain [] h = tt
plain (c ∷ s) h = (ground arith, plain s (ground arith))

two_words :
    (k l : Text)
    → All (λ c. is_space c ≡ false) k
    → All (λ c. is_space c ≡ false) l
    → is_nonempty k ≡ true
    → is_nonempty l ≡ true
    → words (k ++ (b' ' ∷ l)) ≡ k ∷ l ∷ []
unfolding words
two_words k l hk hl nk nl =
    ap (filter is_nonempty)
      (split-append is_space k b' ' l hk refl ∙ ap (λ t. k ∷ t) (split-single is_space l hl))
    ∙ rw (nk, nl) refl

three_words :
    (k a b : Text)
    → All (λ c. is_space c ≡ false) k
    → All (λ c. is_space c ≡ false) a
    → All (λ c. is_space c ≡ false) b
    → is_nonempty k ≡ true
    → is_nonempty a ≡ true
    → is_nonempty b ≡ true
    → words (k ++ (b' ' ∷ (a ++ (b' ' ∷ b)))) ≡ k ∷ a ∷ b ∷ []
unfolding words
three_words k a b hk ha hb nk na nb =
    ap (filter is_nonempty) (
      split-append is_space k b' ' (a ++ (b' ' ∷ b)) hk refl
      ∙ ap (λ t. k ∷ t)
          (split-append is_space a b' ' b ha refl ∙ ap (λ t. a ∷ t) (split-single is_space b hb)))
    ∙ rw (nk, na, nb) refl

-- The labels that `separate` names are different ones.
abbrev pub IsPrintable : Rule → Type 0
IsPrintable (separate a b) = RuleIsValid (separate a b) × (text_eq a b ≡ false)
IsPrintable (deny l) = RuleIsValid (deny l)
IsPrintable (approval_rule l) = RuleIsValid (approval_rule l)

-- A rule that is written as it is displayed is read back as itself, if its labels are valid and, of
-- `separate`, different.
pub parse_rule-show_rule : (r : Rule) → IsPrintable r → parse_rule (show_rule r) ≡ ok r
unfolding parse_rule show_rule rule_of text_eq
parse_rule-show_rule (deny l) v =
    ap rule_of (
      two_words (codes "deny") l (plain (codes "deny") refl) (no_space l v.2) refl (nonempty l v.0))
    ∙ rw (reads_label l v) refl
parse_rule-show_rule (approval_rule l) v =
    ap rule_of (
      two_words (codes "approval") l (plain (codes "approval") refl) (no_space l v.2) refl
        (nonempty l v.0))
    ∙ rw (reads_label l v) refl
parse_rule-show_rule (separate a b) ((va, vb), ne) =
    ap rule_of (
      three_words (codes "separate") a b (plain (codes "separate") refl) (no_space a va.2)
        (no_space b vb.2) refl (nonempty a va.0) (nonempty b vb.0))
    ∙ rw (ne, reads_label a va, reads_label b vb) refl
