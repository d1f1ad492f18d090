-- ===== src/Agent/Permissions/Names.antt =====
-- What the names of permissions stand for: names that are written are read back, and `all` leaves out
-- the approval constraint, whatever words stand beside it.
use cdk.Prelude.{
  inl, inr, Bool-cases, ℕ, zero, suc, ◌+◌, ◌*◌, ◌%◌, ◌<◌, ◌≡◌, ◌≢◌, refl, ap, ◌∙◌, subst, any, ◌-◌,
  ◌/◌, Bool, true, false, Option, none, some, List, [], ◌∷◌, ◌++◌, Text, map, All, ◌==◌, ==_iff,
  if◌then◌else◌, arith,
}
use cdk.Prelude.Split.{codes}
use cdk.Capability.{Permission, requires_approval, perm_eq, tag}
use cdk.Agent.Permissions.{
  Word, one, every, unknown, word_of, parse_words, parse_permissions, permission_names, spec_words,
  mask_of, all_rights,
}

-- Whether a test holds of the first `n` numbers.
passes : (ℕ → Bool) → ℕ → Bool
passes test zero = true
passes test (suc n) = if test n then passes test n else false

passes_each : (test : ℕ → Bool) (n i : ℕ) → i < n → passes test n ≡ true → test i ≡ true
unfolding passes
passes_each test zero i l h = absurd (omega arith)
passes_each test (suc n) i l h = elim (Bool-cases (test n)) [
  | inr bad ↦ absurd (ground arith)
  | inl good ↦ elim (Bool-cases (i == n)) [
    | inl same ↦ ap test ((==_iff i n).0 same) ∙ good
    | inr other ↦ passes_each test n i (ground arith) (ground (arith, h, good))
  ]
]

reads_back : ℕ → Option (List Permission) → Bool
reads_back mask none = false
reads_back mask (some ps) = mask_of 0 ps == mask

reads_back_sound :
    (mask : ℕ) (o : Option (List Permission))
    → reads_back mask o ≡ true
    → (ps : List Permission) × (o ≡ some ps) × (mask_of 0 ps ≡ mask)
unfolding reads_back
reads_back_sound mask none h = cc
reads_back_sound mask (some ps) h = (ps, refl, (==_iff (mask_of 0 ps) mask).0 h)

-- Every mask of permissions, of bits 1 to 7.
table :
    passes (λ i. reads_back (2 * (i + 1)) (parse_permissions (permission_names (2 * (i + 1))))) 127
    ≡ true
unfolding passes reads_back parse_permissions permission_names perm_eq tag
table = refl

-- The names that are written for a mask of permissions that is not empty are read back as permissions
-- with that mask.
pub parse_permissions-permission_names :
    (mask : ℕ)
    → mask < 256
    → mask % 2 ≡ 0
    → mask ≢ 0
    → (ps : List Permission) × (parse_permissions (permission_names mask) ≡ some ps)
      × (mask_of 0 ps ≡ mask)
parse_permissions-permission_names mask l even n =
    subst
      (λ m.
        (ps : List Permission) × (parse_permissions (permission_names m) ≡ some ps)
        × (mask_of 0 ps ≡ m))
      half
      (reads_back_sound (2 * (i + 1)) (parse_permissions (permission_names (2 * (i + 1))))
        (passes_each _ 127 i (omega arith) table))
  where
    i : ℕ
    i = mask / 2 - 1

    half : 2 * (i + 1) ≡ mask
    half = omega arith

parse_words-every :
    (before after : List Word) (out : List Permission)
    → All (λ w. w ≢ unknown) before
    → parse_words out (before ++ (every ∷ after)) ≡ some all_rights
unfolding parse_words
parse_words-every [] after [] h = refl
parse_words-every [] after (p ∷ out) h = refl
parse_words-every (unknown ∷ ws) after out h = absurd (h.0 refl)
parse_words-every (every ∷ ws) after [] h = refl
parse_words-every (every ∷ ws) after (p ∷ out) h = refl
parse_words-every (one q ∷ ws) after [] h = parse_words-every ws after (q ∷ []) h.1
parse_words-every (one q ∷ ws) after (p ∷ out) h =
    parse_words-every ws after
      (if any (perm_eq q) (p ∷ out) then p ∷ out else (p ∷ out) ++ (q ∷ [])) h.1

map-append : (xs ys : List Text) → map word_of (xs ++ ys) ≡ map word_of xs ++ map word_of ys
map-append [] ys = refl
map-append (x ∷ xs) ys = ap (λ t. word_of x ∷ t) (map-append xs ys)

All-map :
    (xs : List Text) → All (λ w. word_of w ≢ unknown) xs → All (λ w. w ≢ unknown) (map word_of xs)
All-map [] h = tt
All-map (x ∷ xs) h = (h.0, All-map xs h.1)

-- Where `all` stands among the words, with no unknown word before it, the permissions are every one
-- but the approval constraint, even if `approval` stands before it or behind it; what stands behind
-- it need not even be names.
pub parse_permissions-all :
    (spec : Text) (before after : List Text)
    → spec_words spec ≡ before ++ (codes "all" ∷ after)
    → All (λ w. word_of w ≢ unknown) before
    → (parse_permissions spec ≡ some all_rights)
      × (any (perm_eq requires_approval) all_rights ≡ false)
unfolding parse_permissions word_of perm_eq
parse_permissions-all spec before after e h = (
  ap (λ ws. parse_words [] (map word_of ws)) e
      ∙ ap (parse_words []) (map-append before (codes "all" ∷ after))
      ∙ parse_words-every (map word_of before) (map word_of after) [] (All-map before h),
  refl,
)
