-- ===== src/Capability/Cache/Ring.antt =====
-- The cache as a bounded queue of keys, oldest first.
use cdk.Prelude.{
  ℕ, zero, suc, ◌+◌, ◌%◌, ◌≤◌, ◌<◌, ◌≡◌, refl, ap, ◌∙◌, sym, Bool, true, false, ◌||◌, List, [], ◌∷◌,
  ◌++◌, Text, length, take, drop, set, any, min, ◌==◌, if◌then◌else◌, text_eq, arith, length-set,
}
use mathlib.Core.List.{append-nil, append_assoc}
use native.Mathlib.Decide.{dec_lt}
use cdk.Capability.Cache.{Cache, capacity, lookup, insert, clear, empty}

pub record IsValid (c : Cache) : Type 0 where
  pub size : length c.keys ≡ capacity
  pub fits : c.len ≤ capacity
  pub in_ring : c.next < capacity
  pub filling : c.len < capacity → c.next ≡ c.len

-- Until the ring is full the keys lie before `next`; from then on the oldest one is at `next`.
abbrev pub contents : Cache → List Text
contents c = (if c.len == capacity then drop c.next c.keys else []) ++ take c.next c.keys

module _ {ℓ} {A : Type ℓ} where
  take-set-suc :
      (xs : List A) (n : ℕ) (a : A)
      → n < length xs
      → take (suc n) (set xs n a) ≡ take n xs ++ (a ∷ [])
  take-set-suc [] n a h = elim h [ ]
  take-set-suc (x ∷ xs) zero a h = refl
  take-set-suc (x ∷ xs) (suc n) a h = ap (◌∷◌ x) (take-set-suc xs n a (omega arith))

  drop-set-suc : (xs : List A) (n : ℕ) (a : A) → drop (suc n) (set xs n a) ≡ drop (suc n) xs
  drop-set-suc [] n a = refl
  drop-set-suc (x ∷ xs) zero a = refl
  drop-set-suc (x ∷ xs) (suc n) a = drop-set-suc xs n a

  take_all : (n : ℕ) (xs : List A) → length xs ≤ n → take n xs ≡ xs
  take_all zero [] h = refl
  take_all zero (x ∷ xs) h = absurd (omega arith)
  take_all (suc n) [] h = refl
  take_all (suc n) (x ∷ xs) h = ap (◌∷◌ x) (take_all n xs (omega arith))

  drop_all : (n : ℕ) (xs : List A) → length xs ≤ n → drop n xs ≡ []
  drop_all zero [] h = refl
  drop_all zero (x ∷ xs) h = absurd (omega arith)
  drop_all (suc n) [] h = refl
  drop_all (suc n) (x ∷ xs) h = drop_all n xs (omega arith)

  -- The first entry goes when the part from `n` on is not empty.
  drop_one :
      (n : ℕ) (xs ys : List A) → n < length xs → drop 1 (drop n xs ++ ys) ≡ drop (suc n) xs ++ ys
  drop_one n [] ys h = elim h [ ]
  drop_one zero (x ∷ xs) ys h = refl
  drop_one (suc n) (x ∷ xs) ys h = drop_one n xs ys (omega arith)

  any-middle :
      (p : A → Bool) (x : A) (ys zs : List A) → any p (ys ++ (x ∷ zs)) ≡ (p x || any p (ys ++ zs))
  any-middle p x [] zs = refl
  any-middle p x (y ∷ ys) zs = ground (arith, any-middle p x ys zs)

  any_split : (p : A → Bool) (n : ℕ) (xs : List A) → any p (drop n xs ++ take n xs) ≡ any p xs
  any_split p zero xs = ap (any p) (append-nil xs)
  any_split p (suc n) [] = refl
  any_split p (suc n) (x ∷ xs) =
      any-middle p x (drop n xs) (take n xs) ∙ ap (◌||◌ (p x)) (any_split p n xs)

-- In a well-formed cache a hit is a key that the queue holds, and a lookup leaves the queue as it is
-- and the cache well-formed.
pub lookup_lem :
    (k : Text) (c : Cache)
    → IsValid c
    → ((lookup k c).0 ≡ any (λ x. text_eq x k) (contents c))
      × (contents (lookup k c).1 ≡ contents c)
      × IsValid (lookup k c).1
unfolding lookup
lookup_lem k c v = ground (arith, any_split (λ x. text_eq x k) c.next c.keys, take_all c.len c.keys)

pub insert-IsValid : (k : Text) (c : Cache) → IsValid c → IsValid (insert k c)
unfolding insert
insert-IsValid k c v = ground (arith, length-set c.keys c.next k)

-- In a well-formed cache a new key joins the end of the queue, and with 64 keys the oldest leaves.
pub contents-insert :
    (k : Text) (c : Cache)
    → IsValid c
    → contents (insert k c)
      ≡ (if c.len == capacity then drop 1 (contents c) else contents c) ++ (k ∷ [])
unfolding insert
contents-insert k c v = elim (dec_lt c.len 64) [
  | yes room ↦ elim (dec_lt c.len 63) [
    | yes more ↦
        rw
          (
            test c.len false (ground arith),
            test (min (c.len + 1) 64) false (ground arith),
            next_is c.next (omega arith),
          )
          (take-set-suc c.keys c.next k (omega arith))
    | no last ↦
        let n : c.next ≡ 63 = omega arith in
        rw (test c.len false (ground arith), test (min (c.len + 1) 64) true (ground arith), n)
          (whole c.keys v.size)
  ]
  | no full ↦ elim (dec_lt c.next 63) [
    | yes more ↦
        rw
          (
            test c.len true (ground arith),
            test (min (c.len + 1) 64) true (ground arith),
            next_is c.next (omega arith),
            drop-set-suc c.keys c.next k,
            take-set-suc c.keys c.next k (omega arith),
            drop_one c.next c.keys (take c.next c.keys) (omega arith),
          )
          (sym (append_assoc (drop (suc c.next) c.keys) (take c.next c.keys) (k ∷ [])))
    | no last ↦
        let n : c.next ≡ 63 = omega arith in
        rw
          (
            test c.len true (ground arith),
            test (min (c.len + 1) 64) true (ground arith),
            n,
            drop_one 63 c.keys (take 63 c.keys) (omega arith),
            drop_all 64 c.keys (omega arith),
          )
          (whole c.keys v.size)
  ]
]
  where
    next_is : (n : ℕ) → n < 63 → (n + 1) % 64 ≡ suc n
    next_is n h = omega arith

    test : (n : ℕ) (b : Bool) → (n == 64) ≡ b → (n == 64) ≡ b
    test n b h = h

    whole : (xs : List Text) → length xs ≡ 64 → set xs 63 k ++ [] ≡ take 63 xs ++ (k ∷ [])
    whole xs h =
        append-nil (set xs 63 k)
        ∙ sym (take_all 64 (set xs 63 k) (omega (arith, length-set xs 63 k)))
        ∙ take-set-suc xs 63 k (omega arith)

pub empty-IsValid : IsValid empty
unfolding empty
empty-IsValid = record {
  size = refl;
  fits = omega arith;
  in_ring = omega arith;
  filling = λ _. refl;
}

-- After `clear` nothing hits.
pub contents-clear : (c : Cache) → IsValid c → (contents (clear c) ≡ []) × IsValid (clear c)
unfolding clear
contents-clear c v =
    (refl, record { size = v.size; fits = omega arith; in_ring = omega arith; filling = λ _. refl })
