-- ===== src/Scheduler/Order.antt =====
-- Lists of tasks in order, counted by tests, and what `swap_remove` does to them.
use cdk.Prelude.{
  ℕ, ◌+◌, ◌≤◌, ◌≡◌, refl, ap, ◌∙◌, Bool, false, List, [], ◌∷◌, ◌++◌, any, ltb, if◌then◌else◌, arith,
  last?-snoc,
}
use cdk.Scheduler.{ScheduledTask, tally, Ordered, init, swap_with, swap_remove}

abbrev pub above : ℕ → ScheduledTask → Bool
above n t = ltb n t.priority

abbrev pub below : ℕ → ScheduledTask → Bool
below n t = ltb t.priority n

-- 1 where a task passes the test.
abbrev pub one : Bool → ℕ
one b = if b then 1 else 0

pub tally-cons :
    (p : ScheduledTask → Bool) (x : ScheduledTask) (xs : List ScheduledTask)
    → tally p (x ∷ xs) ≡ one (p x) + tally p xs
tally-cons p x xs = ground arith

pub tally-append :
    (p : ScheduledTask → Bool) (xs ys : List ScheduledTask)
    → tally p (xs ++ ys) ≡ tally p xs + tally p ys
tally-append p [] ys = omega arith
tally-append p (x ∷ xs) ys = ground (arith, tally-append p xs ys)

pub none_of_tally :
    (p : ScheduledTask → Bool) (xs : List ScheduledTask) → tally p xs ≡ 0 → any p xs ≡ false
none_of_tally p [] h = refl
none_of_tally p (x ∷ xs) h = ground (arith, none_of_tally p xs)

pub tally_of_none :
    (p : ScheduledTask → Bool) (xs : List ScheduledTask) → any p xs ≡ false → tally p xs ≡ 0
tally_of_none p [] h = refl
tally_of_none p (x ∷ xs) h = ground (arith, tally_of_none p xs)

-- The first task of an ordered list has the highest priority, and the last the lowest.
head_above :
    (n : ℕ) (xs : List ScheduledTask) (x : ScheduledTask)
    → x.priority ≤ n
    → Ordered (x ∷ xs)
    → any (above n) (x ∷ xs) ≡ false
head_above n [] x h o = ground arith
head_above n (y ∷ ys) x h o = ground (arith, head_above n ys y (omega (arith, o.0)) o.1)

pub head_highest :
    (x : ScheduledTask) (xs : List ScheduledTask)
    → Ordered (x ∷ xs)
    → any (above x.priority) (x ∷ xs) ≡ false
head_highest x xs o = head_above x.priority xs x (omega arith) o

tail_Ordered : (x : ScheduledTask) (xs : List ScheduledTask) → Ordered (x ∷ xs) → Ordered xs
tail_Ordered x [] o = tt
tail_Ordered x (y ∷ ys) o = o.1

last_le :
    (x z : ScheduledTask) (ys : List ScheduledTask)
    → Ordered (x ∷ (ys ++ (z ∷ [])))
    → z.priority ≤ x.priority
last_le x z [] o = o.0
last_le x z (y ∷ ys) o = omega (arith, o.0, last_le y z ys o.1)

pub last_lowest :
    (ys : List ScheduledTask) (z : ScheduledTask)
    → Ordered (ys ++ (z ∷ []))
    → any (below z.priority) (ys ++ (z ∷ [])) ≡ false
last_lowest [] z o = ground arith
last_lowest (y ∷ ys) z o =
    ground (arith, last_le y z ys o, last_lowest ys z (tail_Ordered y (ys ++ (z ∷ [])) o))

init-snoc : {A : Type 0} (xs : List A) (z : A) → init (xs ++ (z ∷ [])) ≡ xs
init-snoc [] z = refl
init-snoc (x ∷ []) z = refl
init-snoc (x ∷ y ∷ ys) z = ap (λ l. x ∷ l) (init-snoc (y ∷ ys) z)

-- Removing the first of at least two puts the last in its place.
pub swap_remove-first :
    {A : Type 0} (x z : A) (ys : List A) → swap_remove (x ∷ (ys ++ (z ∷ []))) 0 ≡ z ∷ ys
unfolding swap_remove
swap_remove-first x z ys =
    ap (swap_with (x ∷ (ys ++ (z ∷ []))) 0) (last?-snoc (x ∷ ys) z) ∙ init-snoc (z ∷ ys) z

pub swap_remove-only : {A : Type 0} (x : A) → swap_remove (x ∷ []) 0 ≡ []
unfolding swap_remove
swap_remove-only x = refl

-- A list that is not empty has a last element.
pub snoc-cases :
    {A : Type 0} (x : A) (xs : List A) → (ys : List A) × (z : A) × (x ∷ xs ≡ ys ++ (z ∷ []))
snoc-cases x [] = ([], x, refl)
snoc-cases x (y ∷ ys) = let (zs, z, e) = snoc-cases y ys in (x ∷ zs, z, ap (λ l. x ∷ l) e)

-- Only the first is gone.
pub tally-swap_remove :
    (p : ScheduledTask → Bool) (x : ScheduledTask) (xs : List ScheduledTask)
    → tally p (swap_remove (x ∷ xs) 0) ≡ tally p xs
tally-swap_remove p x [] = ap (tally p) (swap_remove-only x)
tally-swap_remove p x (y ∷ ys) =
    let (zs, z, e) = snoc-cases y ys in
    ap (λ l. tally p (swap_remove (x ∷ l) 0)) e
    ∙ ap (tally p) (swap_remove-first x z zs)
    ∙ ground (arith, tally-append p zs (z ∷ []), ap (tally p) e)
