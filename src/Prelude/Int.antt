-- ===== src/Prelude/Int.antt =====
-- Signed integers over the native numbers, under the library's names.
use Prim.Native.Nat.{ℕ, suc, ◌+◌, ◌-◌, ◌*◌, ◌/◌, ◌%◌, ◌≤◌}
use mathlib.Core.Path.{◌≡◌}
use mathlib.Core.Bool.{Bool, true, false}
use native.Mathlib.Omega.{arith}
use kiss_vm_interpreter.Prelude.Tests.{ltb, leb, if◌then◌else◌}

-- `negsuc n` is -(n + 1).
pub data ℤ : Type 0 where
  pos : ℕ → ℤ
  negsuc : ℕ → ℤ

abbrev pub pos_part : ℤ → ℕ
pos_part (pos n) = n
pos_part (negsuc n) = 0

abbrev pub neg_part : ℤ → ℕ
neg_part (pos n) = 0
neg_part (negsuc n) = suc n

-- a - b, as an integer.
abbrev pub sub_ℕ : ℕ → ℕ → ℤ
sub_ℕ a b = if leb b a then pos (a - b) else negsuc (b - a - 1)

infixl 65 ◌+ℤ◌ ◌-ℤ◌
infix 50 ◌≤ℤ◌
unfoldable pub ◌+ℤ◌ : ℤ → ℤ → ℤ
a +ℤ b = sub_ℕ (pos_part a + pos_part b) (neg_part a + neg_part b)

unfoldable pub ◌-ℤ◌ : ℤ → ℤ → ℤ
a -ℤ b = sub_ℕ (pos_part a + neg_part b) (neg_part a + pos_part b)

abbrev pub ◌≤ℤ◌ : ℤ → ℤ → Type 0
a ≤ℤ b = pos_part a + neg_part b ≤ pos_part b + neg_part a

abbrev pub leb_ℤ : ℤ → ℤ → Bool
leb_ℤ a b = leb (pos_part a + neg_part b) (pos_part b + neg_part a)

abbrev pub ltb_ℤ : ℤ → ℤ → Bool
ltb_ℤ a b = ltb (pos_part a + neg_part b) (pos_part b + neg_part a)

-- The sign and the absolute value, and an integer from these.
abbrev pub is_neg : ℤ → Bool
is_neg (pos n) = false
is_neg (negsuc n) = true

abbrev pub nat_abs : ℤ → ℕ
nat_abs a = pos_part a + neg_part a

abbrev pub signed : Bool → ℕ → ℤ
signed neg v = if neg then sub_ℕ 0 v else pos v

-- The conversion to a 32-bit int
abbrev pub int_of_low : ℕ → ℤ
int_of_low m = if ltb m 2147483648 then pos m else negsuc (4294967295 - m)

unfoldable pub int_of : ℤ → ℤ
int_of (pos n) = int_of_low (n % 4294967296)
int_of (negsuc n) = int_of_low (4294967295 - n % 4294967296)

abbrev pub IsInt : ℤ → Type 0
IsInt i = (neg_part i ≤ 2147483648) × (pos_part i ≤ 2147483647)

pub int_of_lem : (i : ℤ) → IsInt i → int_of i ≡ i
unfolding int_of
int_of_lem (pos n) h = ground (arith, h.1)
int_of_lem (negsuc n) h = ground (arith, h.0)

pub +ℤ_parts :
    (a b : ℤ)
    → pos_part (a +ℤ b) + neg_part a + neg_part b ≡ neg_part (a +ℤ b) + pos_part a + pos_part b
unfolding ◌+ℤ◌
+ℤ_parts a b = ground arith

pub eq_of_parts : (a b : ℤ) → pos_part a + neg_part b ≡ pos_part b + neg_part a → a ≡ b
eq_of_parts a b h = ground arith

infixl 70 ◌*ℤ◌
-- The product, and the quotient rounded towards zero with its remainder, by signs and absolute values.
abbrev pub signs_differ : ℤ → ℤ → Bool
signs_differ a b = if is_neg a then (if is_neg b then false else true) else is_neg b

unfoldable pub ◌*ℤ◌ : ℤ → ℤ → ℤ
a *ℤ b = signed (signs_differ a b) (nat_abs a * nat_abs b)

unfoldable pub tdiv : ℤ → ℤ → ℤ
tdiv a b = signed (signs_differ a b) (nat_abs a / nat_abs b)

unfoldable pub tmod : ℤ → ℤ → ℤ
tmod a b = signed (is_neg a) (nat_abs a % nat_abs b)
