-- ===== src/Policy/Reach.antt =====
-- src/policy.rs: `diff`, what a set of grants reaches beyond another.
pub mod Loop
pub mod Shown
use cdk.Prelude.{
  ℕ, ◌+◌, ◌^◌, ◌<◌, ◌≡◌, ◌≢◌, refl, ap, ◌∙◌, sym, Bool, true, false, not, ◌&&◌, ◌||◌, List, [], ◌∷◌,
  ◌++◌, Text, any, ◌==◌, if◌then◌else◌, text_eq, bit_and, bit_or, arith, Bool-cases, inl, inr, ◌⊎◌,
  In, All, any_of_In, In-of_any, In-append, In-append_left, In-append_right, text_eq→eq, ==_iff,
  text_eq_self,
}
use cdk.Prelude.Bits.{
  test_bit, bit_not, test_bit-and, test_bit-or, test_bit-not, test_bit-pow, test_bit-zero,
  bit_or-lt, bit_test, some_bit,
}
use cdk.Policy.{Grant, effect_mask, approval}
use cdk.Policy.Rules.{acts_ungated}

-- `Change`: what a process newly reaches on an object.
pub record Change : Type 0 where
  pub pid : ℕ
  pub object : Text
  pub kind : Text
  pub flags : ℕ
  pub added : ℕ
  pub gated : Bool

abbrev pub on : ℕ → Text → Grant → Bool
on pid object g = g.pid == pid && text_eq g.object object

unfoldable pub union : ℕ → Text → ℕ → List Grant → ℕ
union pid object m [] = m
union pid object m (g ∷ gs) = union pid object (if on pid object g then bit_or m g.mask else m) gs

unfoldable pub ungated : ℕ → Text → List Grant → Bool
ungated pid object = any (λ x. on pid object x && acts_ungated x)

-- `now & !union(before) & !APPROVAL`
unfoldable pub newly : List Grant → List Grant → ℕ → Text → ℕ
unfolding union
newly before after pid object =
    bit_and (bit_and (union pid object 0 after) (bit_not 64 (union pid object 0 before)))
      (bit_not 64 approval)

unfoldable pub fresh_gate : List Grant → List Grant → ℕ → Text → Bool
unfolding ungated
fresh_gate before after pid object = ungated pid object after && not (ungated pid object before)

-- The change that is shown for a grant, if any is.
unfoldable pub change_of : List Grant → List Grant → Grant → Change
unfolding newly ungated union
change_of before after g =
    let added = newly before after g.pid g.object in
    record {
      pid = g.pid;
      object = g.object;
      kind = g.kind;
      flags = g.flags;
      added = if added == 0 then bit_and (union g.pid g.object 0 after) effect_mask else added;
      gated = not (ungated g.pid g.object after);
    }

unfoldable pub diff_loop : List Grant → List Grant → List Change → List Grant → List Change
unfolding newly fresh_gate change_of
diff_loop before after out [] = out
diff_loop before after out (g ∷ gs) =
    diff_loop before after
      (if any (λ c. c.pid == g.pid && text_eq c.object g.object) out
        then out
        else (if not (newly before after g.pid g.object == 0)
              || fresh_gate before after g.pid g.object
            then out ++ (change_of before after g ∷ [])
            else out))
      gs

unfoldable pub diff : List Grant → List Grant → List Change
unfolding diff_loop
diff before after = diff_loop before after [] after

-- Whether some handle of a process on an object has a permission's bit.
abbrev pub reaches : ℕ → Text → ℕ → List Grant → Bool
reaches pid object i = any (λ g. on pid object g && test_bit g.mask i)

union-bit :
    (pid : ℕ) (object : Text) (i m : ℕ) (gs : List Grant)
    → test_bit (union pid object m gs) i ≡ (test_bit m i || reaches pid object i gs)
unfolding union
union-bit pid object i m [] = ground arith
union-bit pid object i m (g ∷ gs) = ground (
  arith,
  union-bit pid object i (if on pid object g then bit_or m g.mask else m) gs,
  test_bit-or m g.mask i,
)

abbrev pub Fits : Grant → Type 0
Fits g = g.mask < 2 ^ 64

union-lt :
    (pid : ℕ) (object : Text) (m : ℕ) (gs : List Grant)
    → m < 2 ^ 64
    → All Fits gs
    → union pid object m gs < 2 ^ 64
unfolding union
union-lt pid object m [] h f = h
union-lt pid object m (g ∷ gs) h f =
    union-lt pid object (if on pid object g then bit_or m g.mask else m) gs (fits (on pid object g))
      f.1
  where
    fits : (b : Bool) → (if b then bit_or m g.mask else m) < 2 ^ 64
    fits true = bit_or-lt 64 m g.mask h f.0
    fits false = h

-- The bits that are new: those reached after and not before, but for the constraint.
newly-bit :
    (before after : List Grant) (pid : ℕ) (object : Text) (i : ℕ)
    → All Fits before
    → i < 64
    → test_bit (newly before after pid object) i
      ≡ (reaches pid object i after && (not (reaches pid object i before) && not (7 == i)))
unfolding newly approval
newly-bit before after pid object i f l = ground (
  arith,
  test_bit-and (bit_and (union pid object 0 after) (bit_not 64 (union pid object 0 before)))
      (bit_not 64 (2 ^ 7)) i,
  test_bit-and (union pid object 0 after) (bit_not 64 (union pid object 0 before)) i,
  test_bit-not 64 (union pid object 0 before) i (union-lt pid object 0 before (omega arith) f) l,
  test_bit-not 64 (2 ^ 7) i (omega arith) l,
  union-bit pid object i 0 after,
  union-bit pid object i 0 before,
  test_bit-pow 7 i,
  test_bit-zero i,
)
