-- ===== src/Prelude/Sort.antt =====
-- `sort_unstable` on numbers: equal numbers cannot be told apart, so the result is determined.
use Prim.Native.Nat.{ℕ, zero, suc, ◌+◌, ◌<◌}
use mathlib.Core.Path.{◌≡◌, refl}
use mathlib.Core.Bool.{Bool, true, false, ◌||◌}
use mathlib.Core.Option.{some}
use mathlib.Core.List.{List, [], ◌∷◌}
use native.Mathlib.Omega.{arith}
use cdk.Prelude.Tests.{leb, if◌then◌else◌}
use cdk.Prelude.Lists.{length, set, get_elem?}
use cdk.Prelude.Search.{any}

unfoldable pub insert_sorted : ℕ → List ℕ → List ℕ
insert_sorted a [] = a ∷ []
insert_sorted a (x ∷ xs) = if leb a x then a ∷ x ∷ xs else x ∷ insert_sorted a xs

unfoldable pub sort : List ℕ → List ℕ
unfolding insert_sorted
sort [] = []
sort (x ∷ xs) = insert_sorted x (sort xs)

any-insert_sorted :
    (p : ℕ → Bool) (a : ℕ) (xs : List ℕ) → any p (insert_sorted a xs) ≡ (p a || any p xs)
unfolding insert_sorted
any-insert_sorted p a [] = refl
any-insert_sorted p a (x ∷ xs) = ground (arith, any-insert_sorted p a xs)

pub any-sort : (p : ℕ → Bool) (xs : List ℕ) → any p (sort xs) ≡ any p xs
unfolding sort
any-sort p [] = refl
any-sort p (x ∷ xs) = ground (arith, any-insert_sorted p x (sort xs), any-sort p xs)

length-insert_sorted : (a : ℕ) (xs : List ℕ) → length (insert_sorted a xs) ≡ suc (length xs)
unfolding insert_sorted
length-insert_sorted a [] = refl
length-insert_sorted a (x ∷ xs) = ground (arith, length-insert_sorted a xs)

pub length-sort : (xs : List ℕ) → length (sort xs) ≡ length xs
unfolding sort
length-sort [] = refl
length-sort (x ∷ xs) = omega (arith, length-insert_sorted x (sort xs), length-sort xs)

-- The sorted list of a set of numbers from `k` on, given by its flags.
abbrev pub flagged : ℕ → List Bool → List ℕ
flagged k [] = []
flagged k (b ∷ bs) = if b then k ∷ flagged (k + 1) bs else flagged (k + 1) bs

insert_low : (k a : ℕ) (bs : List Bool) → a < k → insert_sorted a (flagged k bs) ≡ a ∷ flagged k bs
unfolding insert_sorted
insert_low k a [] h = refl
insert_low k a (true ∷ bs) h = ground arith
insert_low k a (false ∷ bs) h = insert_low (k + 1) a bs (omega arith)

pub insert_flagged :
    (k i a : ℕ) (bs : List Bool)
    → a ≡ k + i
    → get_elem? bs i ≡ some false
    → insert_sorted a (flagged k bs) ≡ flagged k (set bs i true)
unfolding insert_sorted
insert_flagged k i a [] e h = cc
insert_flagged k zero a (true ∷ bs) e h = ground arith
insert_flagged k zero a (false ∷ bs) e h =
    let q : a ≡ k = omega arith in rw q (insert_low (k + 1) k bs (omega arith))
insert_flagged k (suc i) a (true ∷ bs) e h =
    ground (arith, insert_flagged (k + 1) i a bs (omega arith) h)
insert_flagged k (suc i) a (false ∷ bs) e h = insert_flagged (k + 1) i a bs (omega arith) h
