-- ===== src/Link/Frame/Octets.antt =====
-- Lists of bytes, and the numbers that they spell.
use cdk.Prelude.{ℕ, zero, suc, ◌<◌, ◌≡◌, [], ◌∷◌, Text, length, take, drop, arith, All}
use cdk.Prelude.Bytes.{u16_le, u32_le, u64_le, from_le}

abbrev pub AreBytes : Text → Type 0
AreBytes = All (λ b. b < 256)

pub bytes_drop : (n : ℕ) (s : Text) → AreBytes s → AreBytes (drop n s)
bytes_drop zero s h = h
bytes_drop (suc n) [] h = h
bytes_drop (suc n) (b ∷ s) h = bytes_drop n s h.1

pub bytes_take : (n : ℕ) (s : Text) → AreBytes s → AreBytes (take n s)
bytes_take zero s h = tt
bytes_take (suc n) [] h = h
bytes_take (suc n) (b ∷ s) h = (h.0, bytes_take n s h.1)

pub one_byte : (s : Text) → length s ≡ 1 → from_le s ∷ [] ≡ s
one_byte [] l = absurd (omega arith)
one_byte (a ∷ []) l = ground arith
one_byte (a ∷ b ∷ s) l = absurd (omega arith)

pub two_bytes : (s : Text) → AreBytes s → length s ≡ 2 → u16_le (from_le s) ≡ s
two_bytes [] h l = absurd (omega arith)
two_bytes (a ∷ []) h l = absurd (omega arith)
two_bytes (a ∷ b ∷ []) h l = ground arith
two_bytes (a ∷ b ∷ c ∷ s) h l = absurd (omega arith)

pub four_bytes : (s : Text) → AreBytes s → length s ≡ 4 → u32_le (from_le s) ≡ s
four_bytes [] h l = absurd (omega arith)
four_bytes (a ∷ []) h l = absurd (omega arith)
four_bytes (a ∷ b ∷ []) h l = absurd (omega arith)
four_bytes (a ∷ b ∷ c ∷ []) h l = absurd (omega arith)
four_bytes (a ∷ b ∷ c ∷ d ∷ []) h l = ground arith
four_bytes (a ∷ b ∷ c ∷ d ∷ e ∷ s) h l = absurd (omega arith)

pub eight_bytes : (s : Text) → AreBytes s → length s ≡ 8 → u64_le (from_le s) ≡ s
eight_bytes (a ∷ b ∷ c ∷ d ∷ e ∷ f ∷ g ∷ h ∷ []) k l = ground arith
eight_bytes [] k l = absurd (omega arith)
eight_bytes (a ∷ []) k l = absurd (omega arith)
eight_bytes (a ∷ b ∷ []) k l = absurd (omega arith)
eight_bytes (a ∷ b ∷ c ∷ []) k l = absurd (omega arith)
eight_bytes (a ∷ b ∷ c ∷ d ∷ []) k l = absurd (omega arith)
eight_bytes (a ∷ b ∷ c ∷ d ∷ e ∷ []) k l = absurd (omega arith)
eight_bytes (a ∷ b ∷ c ∷ d ∷ e ∷ f ∷ []) k l = absurd (omega arith)
eight_bytes (a ∷ b ∷ c ∷ d ∷ e ∷ f ∷ g ∷ []) k l = absurd (omega arith)
eight_bytes (a ∷ b ∷ c ∷ d ∷ e ∷ f ∷ g ∷ h ∷ i ∷ s) k l = absurd (omega arith)
