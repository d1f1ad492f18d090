-- ===== src/Prelude/Split.antt =====
-- Pieces of a text: `split`, `split_whitespace`, `lines` and `trim`, and the reading of numbers. Texts
-- are byte lists, whose white space is that of ASCII.
use Prim.Native.Char.{code}
use Prim.Native.String.{String}
use Prim.Native.Nat.{ℕ, ◌+◌, ◌-◌, ◌*◌}
use mathlib.Core.Path.{◌≡◌, refl}
use mathlib.Core.Bool.{Bool, true, false, ◌&&◌, ◌||◌}
use mathlib.Core.Option.{Option, none, some}
use mathlib.Core.List.{List, [], ◌∷◌, ◌++◌}
use native.Mathlib.Omega.{arith}
use cdk.Prelude.Tests.{Text, leb, ◌==◌, if◌then◌else◌}
use cdk.Prelude.Search.{filter, All}

-- The bytes of an ASCII literal.
abbrev pub codes : String → Text
codes String.[] = []
codes (String.◌∷◌ c s) = code c ∷ codes s

abbrev pub is_space : ℕ → Bool
is_space c = c == 32 || (leb 9 c && leb c 13)

abbrev pub is_nonempty : Text → Bool
is_nonempty [] = false
is_nonempty (c ∷ s) = true

abbrev cons_head : ℕ → List Text → List Text
cons_head c [] = (c ∷ []) ∷ []
cons_head c (w ∷ ws) = (c ∷ w) ∷ ws

-- s.split(p)
unfoldable pub split : (ℕ → Bool) → Text → List Text
split p [] = [] ∷ []
split p (c ∷ s) = let rest = split p s in if p c then [] ∷ rest else cons_head c rest

-- s.split_whitespace()
unfoldable pub words : Text → List Text
unfolding split
words s = filter is_nonempty (split is_space s)

-- s.split(p).next()
unfoldable pub until : (ℕ → Bool) → Text → Text
until p [] = []
until p (c ∷ s) = let rest = until p s in if p c then [] else c ∷ rest

unfoldable pub trim_start : Text → Text
trim_start [] = []
trim_start (c ∷ s) = let rest = trim_start s in if is_space c then rest else c ∷ s

unfoldable pub trim_end : Text → Text
trim_end [] = []
trim_end (c ∷ s) = elim (trim_end s) [ [] ↦ if is_space c then [] else c ∷ [] | d ∷ t ↦ c ∷ d ∷ t ]

unfoldable pub trim : Text → Text
unfolding trim_start trim_end
trim s = trim_start (trim_end s)

-- s.lines(): the text behind the last line feed is a line only if it is not empty. The carriage
-- return before a line feed is cut.
unfoldable pub strip_return : Text → Text
strip_return [] = []
strip_return (c ∷ []) = if c == 13 then [] else c ∷ []
strip_return (c ∷ d ∷ s) = c ∷ strip_return (d ∷ s)

unfoldable pub end_lines : List Text → List Text
unfolding strip_return
end_lines [] = []
end_lines (l ∷ []) = if is_nonempty l then l ∷ [] else []
end_lines (l ∷ m ∷ ls) = strip_return l ∷ end_lines (m ∷ ls)

unfoldable pub lines : Text → List Text
unfolding split end_lines
lines s = end_lines (split (λ c. c == 10) s)

-- s.parse() of an unsigned number of at most `max`: an optional plus, then digits.
unfoldable pub digits_from : ℕ → ℕ → Text → Option ℕ
digits_from max acc [] = some acc
digits_from max acc (c ∷ s) =
    let rest = digits_from max (acc * 10 + (c - 48)) s in
    if leb 48 c && (leb c 57 && leb (acc * 10 + (c - 48)) max) then rest else none

unfoldable pub parse_number : ℕ → Text → Option ℕ
unfolding digits_from
parse_number max [] = none
parse_number max (c ∷ []) = digits_from max 0 (c ∷ [])
parse_number max (c ∷ d ∷ s) =
    if c == b'+' then digits_from max 0 (d ∷ s) else digits_from max 0 (c ∷ d ∷ s)

-- `strip_prefix`
unfoldable pub strip_prefix : Text → Text → Option Text
strip_prefix [] s = some s
strip_prefix (c ∷ p) [] = none
strip_prefix (c ∷ p) (d ∷ s) = let rest = strip_prefix p s in if c == d then rest else none

-- A text without separators is one piece, also in front of a separator.
pub split-single : (p : ℕ → Bool) (w : Text) → All (λ c. p c ≡ false) w → split p w ≡ w ∷ []
unfolding split
split-single p [] h = refl
split-single p (c ∷ w) h = rw (h.0, split-single p w h.1) refl

pub split-append :
    (p : ℕ → Bool) (w : Text) (c : ℕ) (s : Text)
    → All (λ c. p c ≡ false) w
    → p c ≡ true
    → split p (w ++ c ∷ s) ≡ w ∷ split p s
unfolding split
split-append p [] c s h k = rw k refl
split-append p (d ∷ w) c s h k = rw (h.0, split-append p w c s h.1 k) refl

pub strip_prefix-append : (p s : Text) → strip_prefix p (p ++ s) ≡ some s
unfolding strip_prefix
strip_prefix-append [] s = refl
strip_prefix-append (c ∷ p) s = ground (arith, strip_prefix-append p s)
