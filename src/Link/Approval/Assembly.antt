-- ===== src/Link/Approval/Assembly.antt =====
-- The parts of a decision, fed in order, come out as the decision.
use cdk.Prelude.{
  ℕ, zero, suc, ◌+◌, ◌*◌, ◌%◌, ◌^◌, ◌≤◌, ◌<◌, ◌≡◌, refl, ap, ◌∙◌, Bool, true, false, Option, none,
  some, List, [], ◌∷◌, ◌++◌, Text, length, length-append, length-take, length-drop,
  take-append-drop, take, drop, ◌==◌, ==_iff, arith, text_eq_self,
}
use cdk.Link.Approval.{
  Part, Assembler, push, append_part, parts_from, decision_parts, part_bytes, same_key, bool_eq,
}
use native.Mathlib.Decide.{dec_lt}

-- Feeding parts in order: the decisions that are completed.
abbrev pub after :
    Option (ℕ × Text × Bool × Text) → List (ℕ × Text × Bool × Text) → List (ℕ × Text × Bool × Text)
after none ds = ds
after (some d) ds = d ∷ ds

abbrev pub joined :
    Option (ℕ × Text × Bool × Text) × Assembler
    → (Assembler → List (ℕ × Text × Bool × Text) × Assembler)
    → List (ℕ × Text × Bool × Text) × Assembler
joined r k = (after r.0 (k r.1).0, (k r.1).1)

unfoldable pub feed : Assembler → List Part → List (ℕ × Text × Bool × Text) × Assembler
feed a [] = ([], a)
feed a (p ∷ ps) = joined (push p a) (λ b. feed b ps)

nil_of_length : {A : Type 0} (xs : List A) → length xs ≡ 0 → xs ≡ []
nil_of_length [] e = refl
nil_of_length (x ∷ xs) e = absurd (omega arith)

take_all : {A : Type 0} (n : ℕ) (xs : List A) → length xs ≤ n → take n xs ≡ xs
take_all zero [] l = refl
take_all zero (x ∷ xs) l = absurd (omega arith)
take_all (suc n) [] l = refl
take_all (suc n) (x ∷ xs) l = ap (λ t. x ∷ t) (take_all n xs (omega arith))

snoc_assoc : (xs ys zs : Text) → (xs ++ ys) ++ zs ≡ xs ++ (ys ++ zs)
snoc_assoc [] ys zs = refl
snoc_assoc (x ∷ xs) ys zs = ap (λ t. x ∷ t) (snoc_assoc xs ys zs)

bool_eq_self : (b : Bool) → bool_eq b b ≡ true
bool_eq_self true = refl
bool_eq_self false = refl

less_differs : (m n : ℕ) → m < n → (m == n) ≡ false
less_differs m n l = ground arith

eq_self : (n : ℕ) → (n == n) ≡ true
eq_self n = (==_iff n n).1 refl

module _ (id : ℕ) (operator : Text) (approve : Bool) (total : ℕ) where
  abbrev holding : Text → Assembler
  holding buf = record { key = some (id, operator, approve); buf = buf }

  abbrev chunk : ℕ → Text → Part
  chunk i rest = record {
    id = id;
    operator = operator;
    approve = approve;
    total = total;
    offset = i * part_bytes % 2 ^ 16;
    bytes = take part_bytes rest;
  }

  abbrev idle : Assembler
  idle = record { key = none; buf = [] }

  key_kept :
      (i : ℕ) (rest buf : Text) → same_key (some (id, operator, approve)) (chunk i rest) ≡ true
  key_kept i rest buf = ground (arith, eq_self id, text_eq_self operator, bool_eq_self approve)

  -- A part in sequence is appended.
  push-next :
      (i : ℕ) (buf rest : Text)
      → length buf ≡ i * 972
      → 0 < i
      → length buf < 2 ^ 16
      → push (chunk i rest) (holding buf) ≡ append_part (chunk i rest) (holding buf)
  unfolding push
  push-next i buf rest e pos small = rw (in_place, nonzero, key_kept i rest buf) refl
    where
      nonzero : (i * 972 % 2 ^ 16 == 0) ≡ false
      nonzero = ground arith

      in_place : (length buf == i * 972 % 2 ^ 16) ≡ true
      in_place = ground arith

  parts-cons :
      (fuel i : ℕ) (rest : Text)
      → 0 < length rest
      → parts_from (suc fuel) id operator approve total i rest
        ≡ chunk i rest ∷ parts_from fuel id operator approve total (i + 1) (drop 972 rest)
  unfolding parts_from
  parts-cons fuel i [] pos = absurd (omega arith)
  parts-cons fuel i (b ∷ rest) pos = refl

  parts-nil : (fuel i : ℕ) → parts_from fuel id operator approve total i [] ≡ []
  unfolding parts_from
  parts-nil zero i = refl
  parts-nil (suc fuel) i = refl

  -- The last part completes the decision, and another one is kept.
  append-last :
      (i : ℕ) (buf rest : Text)
      → length buf + length rest ≡ total
      → length rest ≤ 972
      → append_part (chunk i rest) (holding buf) ≡ (some (id, operator, approve, buf ++ rest), idle)
  unfolding append_part
  append-last i buf rest t l =
      let whole : take 972 rest ≡ rest = take_all 972 rest l in
      let full : (length (buf ++ rest) == total) ≡ true = ground (arith, length-append buf rest) in
      rw (whole, full) refl

  append-more :
      (i : ℕ) (buf rest : Text)
      → length buf + length rest ≡ total
      → 972 < length rest
      → append_part (chunk i rest) (holding buf) ≡ (none, holding (buf ++ take 972 rest))
  unfolding append_part
  append-more i buf rest t l =
      let short : (length (buf ++ take 972 rest) == total) ≡ false =
        less_differs _ total
          (omega (arith, length-append buf (take 972 rest), length-take 972 rest)) in
      rw short refl

  abbrev remaining : ℕ → ℕ → Text → Assembler → List (ℕ × Text × Bool × Text) × Assembler
  remaining fuel i rest =
      λ b. feed b (parts_from fuel id operator approve total (i + 1) (drop 972 rest))

  abbrev Completes : ℕ → ℕ → Text → Text → Type 0
  Completes fuel i buf rest =
      joined (append_part (chunk i rest) (holding buf)) (remaining fuel i rest)
      ≡ ((id, operator, approve, buf ++ rest) ∷ [], idle)

  loop-last :
      (fuel i : ℕ) (buf rest : Text)
      → length buf + length rest ≡ total
      → length rest ≤ 972
      → Completes fuel i buf rest
  unfolding feed
  loop-last fuel i buf rest t short =
      let done : drop 972 rest ≡ [] =
        nil_of_length (drop 972 rest) (omega (arith, length-drop 972 rest)) in
      rw (append-last i buf rest t short, done, parts-nil fuel (i + 1)) refl

  -- With a part that is not the last, the rest is left to the parts that follow.
  loop-more :
      (fuel i : ℕ) (buf rest : Text)
      → length buf ≡ i * 972
      → length buf + length rest ≡ total
      → total < 2 ^ 16
      → 972 < length rest
      → Completes fuel (i + 1) (buf ++ take 972 rest) (drop 972 rest)
      → Completes (suc fuel) i buf rest
  unfolding feed
  loop-more fuel i buf rest e t small long rec =
      let held : length (buf ++ take 972 rest) ≡ (i + 1) * 972 =
        omega (arith, length-append buf (take 972 rest), length-take 972 rest) in
      let whole : (buf ++ take 972 rest) ++ drop 972 rest ≡ buf ++ rest =
        snoc_assoc buf (take 972 rest) (drop 972 rest)
        ∙ ap (λ t. buf ++ t) (take-append-drop 972 rest) in
      rw
        (
          append-more i buf rest t long,
          parts-cons fuel (i + 1) (drop 972 rest) (omega (arith, length-drop 972 rest)),
          push-next (i + 1) (buf ++ take 972 rest) (drop 972 rest) held (omega arith)
              (omega (arith, length-append buf (take 972 rest), length-take 972 rest)),
        )
        (rw whole at rec)

  loop :
      (fuel i : ℕ) (buf rest : Text)
      → length buf ≡ i * 972
      → length buf + length rest ≡ total
      → total < 2 ^ 16
      → 0 < length rest
      → length rest ≤ suc fuel
      → Completes fuel i buf rest
  loop zero i buf rest e t small pos enough = loop-last zero i buf rest t (omega arith)
  loop (suc fuel) i buf rest e t small pos enough = elim (dec_lt 972 (length rest)) [
    | no short ↦ loop-last (suc fuel) i buf rest t (omega arith)
    | yes long ↦ loop-more fuel i buf rest e t small long (
        loop fuel (i + 1) (buf ++ take 972 rest) (drop 972 rest)
          (omega (arith, length-append buf (take 972 rest), length-take 972 rest))
          (omega
            (arith, length-append buf (take 972 rest), length-take 972 rest, length-drop 972 rest))
          small (omega (arith, length-drop 972 rest)) (omega (arith, length-drop 972 rest)))
  ]

  -- The first part restarts the assembly, whatever was held.
  push-first :
      (a : Assembler) (rest : Text)
      → push (chunk 0 rest) a ≡ append_part (chunk 0 rest) (holding [])
  unfolding push
  push-first a rest = refl

-- The parts of a signature of 1 to 65,535 bytes, fed in order to an assembler in any state, complete
-- exactly one decision: the one that was encoded, with the whole signature; and the assembler is then
-- empty.
pub feed-decision_parts :
    (id : ℕ) (operator : Text) (approve : Bool) (sig : Text) (a : Assembler)
    → 0 < length sig
    → length sig < 2 ^ 16
    → feed a (decision_parts id operator approve sig)
      ≡ ((id, operator, approve, sig) ∷ [], record { key = none; buf = [] })
unfolding decision_parts feed
feed-decision_parts id operator approve [] a pos small = absurd (omega arith)
feed-decision_parts id operator approve (b ∷ sig) a pos small =
    rw (total, push-first id operator approve (length (b ∷ sig)) a (b ∷ sig))
      (loop id operator approve (length (b ∷ sig)) (length sig) 0 [] (b ∷ sig) (omega arith)
        (omega arith) small pos (omega arith))
  where
    total : length (b ∷ sig) % 2 ^ 16 ≡ length (b ∷ sig)
    total = omega arith
