-- ===== src/Link/Frame/Windows.antt =====
-- Parts of a buffer: a window that lies within the front of a buffer is a window of that front.
use cdk.Prelude.{
  ℕ, zero, suc, ◌+◌, ◌≤◌, ◌≡◌, refl, sym, ap, ◌∙◌, [], ◌∷◌, ◌++◌, Text, length, take, drop,
  take-append-drop, arith,
}
use cdk.Prelude.Bytes.{take-append, drop-append}
use cdk.Link.Frame.{window}

pub take-append_left : (n : ℕ) (xs ys : Text) → n ≤ length xs → take n (xs ++ ys) ≡ take n xs
take-append_left zero xs ys h = refl
take-append_left (suc n) [] ys h = absurd (omega arith)
take-append_left (suc n) (x ∷ xs) ys h = ap (λ t. x ∷ t) (take-append_left n xs ys (omega arith))

pub window-append_left :
    (i n : ℕ) (xs ys : Text) → i + n ≤ length xs → window i n (xs ++ ys) ≡ window i n xs
window-append_left zero n xs ys h = take-append_left n xs ys (omega arith)
window-append_left (suc i) n [] ys h = absurd (omega arith)
window-append_left (suc i) n (x ∷ xs) ys h = window-append_left i n xs ys (omega arith)

-- The part behind `k` bytes.
pub window-skip :
    (xs ys : Text) (k i n : ℕ) → length xs ≡ k → window (k + i) n (xs ++ ys) ≡ window i n ys
window-skip xs ys k i n e =
    ap (λ m. window (m + i) n (xs ++ ys)) (sym e) ∙ ap (take n) (drop-append xs ys i)

pub window-head : (xs ys : Text) (n : ℕ) → length xs ≡ n → window 0 n (xs ++ ys) ≡ xs
window-head xs ys n e = ap (λ m. take m (xs ++ ys)) (sym e) ∙ take-append xs ys

-- A join that begins with a part no longer than the front.
pub append-split :
    (xs ys ps qs : Text)
    → xs ++ ys ≡ ps ++ qs
    → length ps ≤ length xs
    → (rest : Text) × (xs ≡ ps ++ rest) × (rest ++ ys ≡ qs)
append-split xs ys [] qs e h = (xs, refl, e)
append-split [] ys (p ∷ ps) qs e h = absurd (omega arith)
append-split (x ∷ xs) ys (p ∷ ps) qs e h =
    let (rest, e1, e2) = append-split xs ys ps qs (cc) (omega arith) in (rest, cc, e2)

pub length-window : (i n : ℕ) (xs : Text) → i + n ≤ length xs → length (window i n xs) ≡ n
length-window zero zero xs h = refl
length-window zero (suc n) [] h = absurd (omega arith)
length-window zero (suc n) (x ∷ xs) h = ap suc (length-window 0 n xs (omega arith))
length-window (suc i) n [] h = absurd (omega arith)
length-window (suc i) n (x ∷ xs) h = length-window i n xs (omega arith)

take-nil : (n : ℕ) → take {A = ℕ} n [] ≡ []
take-nil zero = refl
take-nil (suc n) = refl

drop-nil : (n : ℕ) → drop {A = ℕ} n [] ≡ []
drop-nil zero = refl
drop-nil (suc n) = refl

pub drop-drop : (i n : ℕ) (xs : Text) → drop n (drop i xs) ≡ drop (i + n) xs
drop-drop zero n xs = ap (λ k. drop k xs) (omega arith)
drop-drop (suc i) n [] = rw (drop-nil n) (sym (drop-nil (suc i + n)))
drop-drop (suc i) n (x ∷ xs) =
    drop-drop i n xs
    ∙ ap (λ k. drop k (x ∷ xs)) (let e : suc (i + n) ≡ suc i + n = omega arith in e)

take-add : (n m : ℕ) (xs : Text) → take (n + m) xs ≡ take n xs ++ take m (drop n xs)
take-add zero m xs = ap (λ k. take k xs) (omega arith)
take-add (suc n) m [] = rw (take-nil m) (take-nil (suc n + m))
take-add (suc n) m (x ∷ xs) =
    ap (λ k. take k (x ∷ xs)) (let e : suc n + m ≡ suc (n + m) = omega arith in e)
    ∙ ap (λ t. x ∷ t) (take-add n m xs)

-- Two windows that meet are one.
pub window-window :
    (i n m : ℕ) (xs : Text) → window i (n + m) xs ≡ window i n xs ++ window (i + n) m xs
window-window i n m xs =
    take-add n m (drop i xs) ∙ ap (λ t. window i n xs ++ take m t) (drop-drop i n xs)

-- A buffer is its first bytes, a window behind them, and the rest.
pub split-window : (n m : ℕ) (xs : Text) → xs ≡ take n xs ++ (window n m xs ++ drop (n + m) xs)
split-window n m xs =
    sym (take-append-drop n xs)
    ∙ ap (λ t. take n xs ++ t)
        (sym (take-append-drop m (drop n xs)) ∙ ap (λ t. window n m xs ++ t) (drop-drop n m xs))
