-- ===== src/Prelude/Int.antt =====
-- Signed integers over the native numbers, under the library's names (its ℤ stands on the unary ℕ).
-- Sums and orders go through the two parts of an integer, which are numbers that `omega` reads.
use Prim.Native.Nat.{ℕ, suc, ◌+◌, ◌-◌, ◌%◌, ◌≤◌, ◌<◌}
use mathlib.Core.Path.{◌≡◌}
use mathlib.Core.Logic.{◌↔◌}
use mathlib.Core.Bool.{Bool, true}
use native.Mathlib.Omega.{arith}
use native.Mathlib.Nat.{mod-eq_of_lt}
use fuzoj.Prelude.Tests.{ltb, leb, if◌then◌else◌, ◌==◌}

-- `negsuc n` is -(n + 1).
pub data ℤ : Type 0 where
  pos : ℕ → ℤ
  negsuc : ℕ → ℤ

abbrev pub pos_part : ℤ → ℕ
pos_part (pos n) = n
pos_part (negsuc n) = 0

abbrev pub neg_part : ℤ → ℕ
neg_part (pos n) = 0
neg_part (negsuc n) = suc n

-- a - b, as an integer.
abbrev pub sub_ℕ : ℕ → ℕ → ℤ
sub_ℕ a b = if leb b a then pos (a - b) else negsuc (b - a - 1)

infixl 65 ◌-ℤ◌
infix 50 ◌≤ℤ◌ ◌<ℤ◌
unfoldable pub ◌-ℤ◌ : ℤ → ℤ → ℤ
a -ℤ b = sub_ℕ (pos_part a + neg_part b) (neg_part a + pos_part b)

abbrev pub ◌≤ℤ◌ : ℤ → ℤ → Type 0
a ≤ℤ b = pos_part a + neg_part b ≤ pos_part b + neg_part a

abbrev pub ◌<ℤ◌ : ℤ → ℤ → Type 0
a <ℤ b = pos_part a + neg_part b < pos_part b + neg_part a

abbrev pub ltb_ℤ : ℤ → ℤ → Bool
ltb_ℤ a b = ltb (pos_part a + neg_part b) (pos_part b + neg_part a)

abbrev pub eq_ℤ : ℤ → ℤ → Bool
eq_ℤ a b = (pos_part a + neg_part b) == (pos_part b + neg_part a)

pub eq_of_parts : (a b : ℤ) → pos_part a + neg_part b ≡ pos_part b + neg_part a → a ≡ b
eq_of_parts a b h = ground arith

pub eq_ℤ_iff : (a b : ℤ) → (eq_ℤ a b ≡ true) ↔ (a ≡ b)
eq_ℤ_iff a b = (λ h. eq_of_parts a b (ground arith), λ e. rw e (ground arith))

-- The 64 bits of an integer in two's complement, and their reading as an int64.
unfoldable pub to_int64 : ℤ → ℤ
to_int64 z =
    let bits = bits_of z in
    if ltb bits 9_223_372_036_854_775_808
    then pos bits
    else negsuc (18_446_744_073_709_551_615 - bits)
  where
    bits_of : ℤ → ℕ
    bits_of (pos n) = n % 18_446_744_073_709_551_616
    bits_of (negsuc n) = 18_446_744_073_709_551_615 - n % 18_446_744_073_709_551_616

-- An integer that fits an int64 stays as it is.
pub to_int64_lem :
    (z : ℤ)
    → pos_part z < 9_223_372_036_854_775_808
    → neg_part z ≤ 9_223_372_036_854_775_808
    → to_int64 z ≡ z
unfolding to_int64
to_int64_lem (pos n) h k =
    let same : n % 18_446_744_073_709_551_616 ≡ n = mod-eq_of_lt (omega arith) in
    rw same (ground arith)
to_int64_lem (negsuc n) h k =
    let same : n % 18_446_744_073_709_551_616 ≡ n = mod-eq_of_lt (omega arith) in
    rw same (ground arith)

-- The tests read as orders of the parts.
pub ltb_ℤ_iff : (a b : ℤ) → (ltb_ℤ a b ≡ true) ↔ (a <ℤ b)
ltb_ℤ_iff a b = ground arith

-- Lets `omega` work with a difference that is shut.
pub -ℤ_parts :
    (a b : ℤ)
    → pos_part (a -ℤ b) + neg_part a + pos_part b ≡ neg_part (a -ℤ b) + pos_part a + neg_part b
unfolding ◌-ℤ◌
-ℤ_parts a b = ground arith
