-- ===== src/Capability/Masks.antt =====
-- The bit mask of a capability, and how the permission operations change what it allows.
use cdk.Prelude.{
  ℕ, ◌+◌, ◌^◌, ◌≤◌, ◌<◌, ◌≡◌, refl, true, false, not, ◌&&◌, ◌||◌, none, some, List, [], ◌∷◌, ◌++◌,
  length, any, filter, arith, ◌==◌, if◌then◌else◌, bit_or, Bool-cases, ==_iff, inl, inr, ok,
}
use cdk.Prelude.Bits.{test_bit, test_bit-or, test_bit-pow, test_bit-zero, bit_or-lt}
use cdk.Capability.{
  Permission, read, write, execute, send_message, receive_message, delete, requires_approval, tag,
  perm_eq, Capability, fold_mask, permission_mask, has_permission, remove_permission,
  add_permission, insert,
}

pub perm_eq-tag : (p q : Permission) → perm_eq p q ≡ (tag p == tag q)
unfolding perm_eq tag
perm_eq-tag p q = ground arith

pub perm_eq_self : (p : Permission) → perm_eq p p ≡ true
unfolding perm_eq
perm_eq_self p = ground arith

fold_mask-bit :
    (mask i : ℕ) (ps : List Permission)
    → test_bit (fold_mask mask ps) i ≡ (test_bit mask i || any (λ p. tag p == i) ps)
unfolding fold_mask
fold_mask-bit mask i [] = ground arith
fold_mask-bit mask i (p ∷ ps) = ground (
  arith,
  fold_mask-bit (bit_or mask (2 ^ tag p)) i ps,
  test_bit-or mask (2 ^ tag p) i,
  test_bit-pow (tag p) i,
)

any-perm_eq :
    (p : Permission) (ps : List Permission) → any (λ q. tag q == tag p) ps ≡ any (perm_eq p) ps
any-perm_eq p [] = refl
any-perm_eq p (q ∷ qs) = ground (arith, any-perm_eq p qs, perm_eq-tag p q)

-- A permission's bit of the mask is set exactly if the capability holds it.
pub mask-bit :
    (c : Capability) (p : Permission) → test_bit (permission_mask c) (tag p) ≡ has_permission c p
unfolding permission_mask has_permission
mask-bit c p = ground (
  arith,
  fold_mask-bit 0 (tag p) c.permissions,
  test_bit-zero (tag p),
  any-perm_eq p c.permissions,
)

any-snoc :
    (p q : Permission) (ps : List Permission)
    → any (perm_eq p) (ps ++ (q ∷ [])) ≡ (any (perm_eq p) ps || perm_eq p q)
any-snoc p q [] = ground arith
any-snoc p q (x ∷ xs) = ground (arith, any-snoc p q xs)

any-remove :
    (p q : Permission) (ps : List Permission)
    → any (perm_eq q) (filter (λ x. not (perm_eq p x)) ps)
      ≡ (any (perm_eq q) ps && not (perm_eq p q))
any-remove p q [] = refl
any-remove p q (x ∷ xs) =
    ground (arith, any-remove p q xs, perm_eq-tag p q, perm_eq-tag p x, perm_eq-tag q x)

-- Removal takes away one permission, and no other.
pub has-remove :
    (c : Capability) (p q : Permission)
    → has_permission (remove_permission c p) q ≡ (has_permission c q && not (perm_eq p q))
unfolding has_permission remove_permission
has-remove c p q = any-remove p q c.permissions

any-same :
    (p q : Permission) (ps : List Permission)
    → perm_eq p q ≡ true
    → any (perm_eq p) ps ≡ any (perm_eq q) ps
any-same p q [] h = refl
any-same p q (x ∷ xs) h =
    ground (arith, any-same p q xs h, perm_eq-tag p q, perm_eq-tag p x, perm_eq-tag q x)

insert-any :
    (p q : Permission) (ps : List Permission) {ps' : List Permission}
    → insert p ps ≡ some ps'
    → any (perm_eq q) ps' ≡ (any (perm_eq q) ps || perm_eq p q)
unfolding insert
insert-any p q ps h =
    ground (arith, any-snoc q p ps, perm_eq-tag p q, perm_eq-tag q p, any-same p q ps)

-- Each permission at most once.
abbrev pub Distinct : List Permission → Type 0
Distinct [] = Unit {0}
Distinct (p ∷ ps) = (any (perm_eq p) ps ≡ false) × Distinct ps

pub record IsValid (c : Capability) : Type 0 where
  pub distinct : Distinct c.permissions

count : Permission → List Permission → ℕ
count p [] = 0
count p (q ∷ qs) = (if perm_eq p q then 1 else 0) + count p qs

count-absent : (p : Permission) (ps : List Permission) → any (perm_eq p) ps ≡ false → count p ps ≡ 0
unfolding count
count-absent p [] h = refl
count-absent p (q ∷ qs) h = ground (arith, count-absent p qs)

count-le-one : (p : Permission) (ps : List Permission) → Distinct ps → count p ps ≤ 1
unfolding count
count-le-one p [] h = omega arith
count-le-one p (q ∷ qs) h =
    ground (arith, count-le-one p qs h.1, count-absent p qs, any-same p q qs)

length-count :
    (ps : List Permission)
    → length ps
      ≡ count read ps
        + count write ps
        + count execute ps
        + count send_message ps
        + count receive_message ps
        + count delete ps
        + count requires_approval ps
unfolding count perm_eq
length-count [] = refl
length-count (p ∷ ps) = ground (arith, length-count ps)

length-Distinct : (ps : List Permission) → Distinct ps → length ps ≤ 7
length-Distinct ps d = omega (
  arith,
  length-count ps,
  count-le-one read ps d,
  count-le-one write ps d,
  count-le-one execute ps d,
  count-le-one send_message ps d,
  count-le-one receive_message ps d,
  count-le-one delete ps d,
  count-le-one requires_approval ps d,
)

filter-Distinct :
    (p : Permission) (ps : List Permission)
    → Distinct ps
    → Distinct (filter (λ q. not (perm_eq p q)) ps)
filter-Distinct p [] d = tt
filter-Distinct p (q ∷ qs) d = ground (arith, filter-Distinct p qs d.1, any-remove p q qs)

snoc-Distinct :
    (p : Permission) (ps : List Permission)
    → any (perm_eq p) ps ≡ false
    → Distinct ps
    → Distinct (ps ++ (p ∷ []))
snoc-Distinct p [] h d = (refl, tt)
snoc-Distinct p (q ∷ qs) h d =
    ground (arith, snoc-Distinct p qs, any-snoc q p qs, perm_eq-tag p q, perm_eq-tag q p)

pub remove-IsValid : (c : Capability) (p : Permission) → IsValid c → IsValid (remove_permission c p)
unfolding remove_permission
remove-IsValid c p v = record { distinct = filter-Distinct p c.permissions v.distinct }

-- There are seven permissions, so a set of distinct ones has room: adding one to a valid capability
-- succeeds, keeps the capability valid, sets that permission and no other, and drops the proof.
pub add_permission_lem :
    (c : Capability) (p : Permission)
    → IsValid c
    → (c' : Capability) × (add_permission c p ≡ ok c')
      × IsValid c'
      × (c'.object_id ≡ c.object_id)
      × (c'.proof ≡ none)
      × ((q : Permission) → has_permission c' q ≡ (has_permission c q || perm_eq p q))
unfolding add_permission insert has_permission
add_permission_lem c p v = elim (Bool-cases (any (perm_eq p) c.permissions)) [
  | inl there ↦ (
    record c { proof = none },
    ground arith,
    record { distinct = v.distinct },
    refl,
    refl,
    λ q. ground (arith, any-same p q c.permissions),
  )
  | inr fresh ↦ (
    record c { permissions = c.permissions ++ (p ∷ []); proof = none },
    ground (arith, length-Distinct c.permissions v.distinct),
    record { distinct = snoc-Distinct p c.permissions fresh v.distinct },
    refl,
    refl,
    λ q. ground (arith, any-snoc q p c.permissions, perm_eq-tag p q, perm_eq-tag q p),
  )
]

pow_tag-lt : (p : Permission) → 2 ^ tag p < 2 ^ 64
unfolding tag
pow_tag-lt read = omega arith
pow_tag-lt write = omega arith
pow_tag-lt execute = omega arith
pow_tag-lt send_message = omega arith
pow_tag-lt receive_message = omega arith
pow_tag-lt delete = omega arith
pow_tag-lt requires_approval = omega arith

fold_mask-lt : (mask : ℕ) (ps : List Permission) → mask < 2 ^ 64 → fold_mask mask ps < 2 ^ 64
unfolding fold_mask
fold_mask-lt mask [] h = h
fold_mask-lt mask (p ∷ ps) h =
    fold_mask-lt (bit_or mask (2 ^ tag p)) ps (bit_or-lt 64 mask (2 ^ tag p) h (pow_tag-lt p))

pub permission_mask-lt : (c : Capability) → permission_mask c < 2 ^ 64
unfolding permission_mask
permission_mask-lt c = fold_mask-lt 0 c.permissions (omega arith)

has_of_any :
    (i : ℕ) (ps : List Permission)
    → any (λ p. tag p == i) ps ≡ true
    → (p : Permission) × (tag p ≡ i) × (any (perm_eq p) ps ≡ true)
has_of_any i [] h = cc
has_of_any i (q ∷ qs) h = elim (Bool-cases (tag q == i)) [
  | inl e ↦ (q, (==_iff (tag q) i).0 e, ground (arith, perm_eq_self q))
  | inr f ↦ let (p, e, m) = has_of_any i qs (ground arith) in (p, e, ground arith)
]

-- Every bit of the mask is the bit of a permission that the capability holds.
pub mask-tag :
    (c : Capability) (i : ℕ)
    → test_bit (permission_mask c) i ≡ true
    → (p : Permission) × (tag p ≡ i) × (has_permission c p ≡ true)
unfolding permission_mask has_permission
mask-tag c i h =
    has_of_any i c.permissions (ground (arith, fold_mask-bit 0 i c.permissions, test_bit-zero i))
