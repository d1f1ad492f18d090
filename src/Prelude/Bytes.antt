-- ===== src/Prelude/Bytes.antt =====
-- Slices of byte lists, little-endian numbers, and UTF-8.
use Prim.Native.Nat.{ℕ, zero, suc, ◌+◌, ◌*◌, ◌/◌, ◌%◌, ◌^◌, ◌<◌}
use mathlib.Core.Path.{◌≡◌, refl, ap, ◌∙◌, sym}
use mathlib.Core.Bool.{Bool, true, false, ◌&&◌}
use mathlib.Core.Option.{Option, none, some}
use mathlib.Core.List.{[], ◌∷◌, ◌++◌}
use native.Mathlib.Omega.{arith}
use cdk.Prelude.Tests.{Text, leb, ltb, ◌==◌, if◌then◌else◌}
use cdk.Prelude.Lists.{length, get_elem?, take, drop, length-append}

-- n.to_le_bytes() of a `u16` and of a `u32`.
abbrev pub u16_le : ℕ → Text
u16_le n = (n % 256) ∷ (n / 256 % 256) ∷ []

abbrev pub u32_le : ℕ → Text
u32_le n = (n % 256) ∷ (n / 2 ^ 8 % 256) ∷ (n / 2 ^ 16 % 256) ∷ (n / 2 ^ 24 % 256) ∷ []

-- and of a `u64`.
abbrev pub u64_le : ℕ → Text
u64_le n =
    (n % 256)
    ∷ (n / 2 ^ 8 % 256)
    ∷ (n / 2 ^ 16 % 256)
    ∷ (n / 2 ^ 24 % 256)
    ∷ (n / 2 ^ 32 % 256)
    ∷ (n / 2 ^ 40 % 256)
    ∷ (n / 2 ^ 48 % 256)
    ∷ (n / 2 ^ 56 % 256)
    ∷ []

-- `from_le_bytes`
abbrev pub from_le : Text → ℕ
from_le [] = 0
from_le (b ∷ bs) = b + 256 * from_le bs

pub from_le-u16 : (n : ℕ) → n < 2 ^ 16 → from_le (u16_le n) ≡ n
from_le-u16 n l = omega arith

pub from_le-u32 : (n : ℕ) → n < 2 ^ 32 → from_le (u32_le n) ≡ n
from_le-u32 n l = omega arith

pub from_le-u64 : (n : ℕ) → n < 2 ^ 64 → from_le (u64_le n) ≡ n
from_le-u64 n l = omega arith

-- s.get(i..i + n)
unfoldable pub slice : Text → ℕ → ℕ → Option Text
slice s i n = if leb (i + n) (length s) then some (take n (drop i s)) else none

pub take-append : (xs ys : Text) → take (length xs) (xs ++ ys) ≡ xs
take-append [] ys = refl
take-append (x ∷ xs) ys = ap (λ t. x ∷ t) (take-append xs ys)

pub drop-append : (xs ys : Text) (i : ℕ) → drop (length xs + i) (xs ++ ys) ≡ drop i ys
drop-append [] ys i = let e : 0 + i ≡ i = omega arith in ap (λ k. drop k ys) e
drop-append (x ∷ xs) ys i =
    let e : suc (length xs) + i ≡ suc (length xs + i) = omega arith in
    ap (λ k. drop k (x ∷ (xs ++ ys))) e ∙ drop-append xs ys i

pub slice-head : (xs ys : Text) → slice (xs ++ ys) 0 (length xs) ≡ some xs
unfolding slice
slice-head xs ys = ground (arith, length-append xs ys, take-append xs ys)

pub slice-skip : (xs ys : Text) (i n : ℕ) → slice (xs ++ ys) (length xs + i) n ≡ slice ys i n
unfolding slice
slice-skip xs ys i n = ground (arith, length-append xs ys, drop-append xs ys i)

-- `from_utf8`: how many continuation bytes are due, and the bounds of the next one.
unfoldable pub utf8_from : ℕ → ℕ → ℕ → Text → Bool
utf8_from zero lo hi [] = true
utf8_from (suc n) lo hi [] = false
utf8_from zero lo hi (c ∷ s) =
    let one_byte = utf8_from 0 0 0 s in
    let two = utf8_from 1 0x80 0xBF s in
    let three = utf8_from 2 0x80 0xBF s in
    let four = utf8_from 3 0x80 0xBF s in
    let low_three = utf8_from 2 0xA0 0xBF s in
    let surrogates = utf8_from 2 0x80 0x9F s in
    let low_four = utf8_from 3 0x90 0xBF s in
    let high_four = utf8_from 3 0x80 0x8F s in
    if ltb c 0x80
    then one_byte
    else (if leb 0xC2 c && leb c 0xDF
        then two
        else (if c == 0xE0
            then low_three
            else (if c == 0xED
                then surrogates
                else (if leb 0xE1 c && leb c 0xEF
                    then three
                    else (if c == 0xF0
                        then low_four
                        else (if leb 0xF1 c && leb c 0xF3
                            then four
                            else (if c == 0xF4 then high_four else false)))))))
utf8_from (suc n) lo hi (c ∷ s) = leb lo c && leb c hi && utf8_from n 0x80 0xBF s

unfoldable pub is_utf8 : Text → Bool
unfolding utf8_from
is_utf8 s = utf8_from 0 0 0 s

-- The same where the length of the part in front is known.
pub slice-head_of : (xs ys : Text) (k : ℕ) → length xs ≡ k → slice (xs ++ ys) 0 k ≡ some xs
slice-head_of xs ys k e = ap (slice (xs ++ ys) 0) (sym e) ∙ slice-head xs ys

pub slice-skip_of :
    (xs ys : Text) (k i n : ℕ) → length xs ≡ k → slice (xs ++ ys) (k + i) n ≡ slice ys i n
slice-skip_of xs ys k i n e = ap (λ m. slice (xs ++ ys) (m + i) n) (sym e) ∙ slice-skip xs ys i n

take-all : (xs : Text) → take (length xs) xs ≡ xs
take-all [] = refl
take-all (x ∷ xs) = ap (λ t. x ∷ t) (take-all xs)

pub slice-all : (xs : Text) → slice xs 0 (length xs) ≡ some xs
unfolding slice
slice-all xs = ground (arith, take-all xs)

pub get-skip_of :
    (xs ys : Text) (k i : ℕ) → length xs ≡ k → get_elem? (xs ++ ys) (k + i) ≡ get_elem? ys i
get-skip_of [] ys k i e = let q : k + i ≡ i = omega arith in ap (get_elem? ys) q
get-skip_of (x ∷ xs) ys zero i e = absurd (omega arith)
get-skip_of (x ∷ xs) ys (suc k) i e =
    let q : suc k + i ≡ suc (k + i) = omega arith in
    ap (get_elem? (x ∷ (xs ++ ys))) q ∙ get-skip_of xs ys k i (omega arith)
